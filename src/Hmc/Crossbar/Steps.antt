-- ===== src/Hmc/Crossbar/Steps.antt =====
-- The arbitration of the crossbar as steps, and what each step keeps (src/hmc.cc).
use latest_zsim_dramsim.Prelude.{
  ℕ, suc, ◌+◌, ◌≤◌, ◌<◌, ◌≡◌, ◌≢◌, refl, true, Bool-cases, inl, inr, List, [], ◌∷◌, ◌++◌, length,
  length-append, some, arith, All, All-append,
}
use native.Mathlib.Decide.{ℕ_discrete}
use latest_zsim_dramsim.Common.{u64}
use latest_zsim_dramsim.Channel.{put, put_self, put_ne}
use latest_zsim_dramsim.Hmc.Crossbar.{
  Crossbar, can_move, move, next_age, arbitrate, arbitrate_all, drain_crossbar, lower_busy,
}
use latest_zsim_dramsim.Hmc.Crossbar.Ages.{occurrences, build_age_queue-exact}

-- A predicate of every packet in the queues.
abbrev pub Every {κ} : {P : Type 0} → (P → Type κ) → Crossbar P → Type κ
Every Q x = (i : ℕ) → All Q (x.input i) × All Q (x.output i)

module _ {P : Type 0} where
  -- A queue has an age exactly when it holds a packet.
  pub record Aged (x : Crossbar P) : Type 0 where
    pub holds : (i : ℕ) → 0 < x.age i → 0 < length (x.input i)
    pub waits : (i : ℕ) → 0 < length (x.input i) → 0 < x.age i

  appended-pos : (xs : List P) (x : P) → 0 < length (xs ++ x ∷ [])
  appended-pos xs x = omega (arith, length-append xs (x ∷ []))

  -- A packet is put at the end of a queue, whose age is then 1.
  pub put-Aged :
      (x : Crossbar P) (quad : ℕ) (p : P)
      → Aged x
      → Aged
          (record x { input = put x.input quad (x.input quad ++ p ∷ []); age = put x.age quad 1 })
  put-Aged x quad p a = record {
    holds = λ i. ground (arith, a.holds i, appended-pos (x.input quad) p);
    waits = λ i. ground (arith, a.waits i);
  }

  next_age-pos : (rest : List P) → 0 < next_age rest → 0 < length rest
  next_age-pos [] h = h
  next_age-pos (p ∷ rest) h = omega arith

  pos-next_age : (rest : List P) → 0 < length rest → 0 < next_age rest
  pos-next_age [] h = h
  pos-next_age (p ∷ rest) h = omega arith

  front : (xs : List P) → 0 < length xs → (p : P) × (rest : List P) × (xs ≡ p ∷ rest)
  front [] h = absurd (omega (arith, h))
  front (p ∷ rest) h = (p, rest, refl)

module _ {P : Type 0} (dest flits : P → ℕ) (stamp : ℕ → P → P) (queue_depth logic_clk : ℕ) where
  -- One round of the arbitration for a queue: its first packet crosses, or it grows older.
  pub data Step (src : ℕ) (x : Crossbar P) : Crossbar P → Type 0 where
    moved :
        (p : P) (rest : List P)
        → x.input src ≡ p ∷ rest
        → can_move dest flits stamp queue_depth logic_clk x p ≡ true
        → Step src x (move dest flits stamp queue_depth logic_clk src p rest x)
    stalled :
        0 < length (x.input src) → Step src x (record x { age = put x.age src (suc (x.age src)) })

  pub data Steps : Crossbar P → Crossbar P → Type 0 where
    done : {x : Crossbar P} → Steps x x
    next : {src : ℕ} {x y z : Crossbar P} → Step src x y → Steps y z → Steps x z

  arbitrate_front :
      (src : ℕ) (x : Crossbar P) (p : P) (rest : List P)
      → x.input src ≡ p ∷ rest
      → (y : Crossbar P) × (arbitrate dest flits stamp queue_depth logic_clk src x ≡ some y)
        × Step src x y
  unfolding arbitrate
  arbitrate_front src x p rest e =
      elim (Bool-cases (can_move dest flits stamp queue_depth logic_clk x p)) [
        | inl y ↦ (_, rw (e, y, arbitrate) refl, moved p rest e y)
        | inr n ↦ (_, rw (e, n, arbitrate) refl, stalled (rw e (omega arith)))
      ]

  arbitrate-Step :
      (src : ℕ) (x : Crossbar P)
      → 0 < length (x.input src)
      → (y : Crossbar P) × (arbitrate dest flits stamp queue_depth logic_clk src x ≡ some y)
        × Step src x y
  arbitrate-Step src x h =
      let (p, rest, e) = front (x.input src) h in arbitrate_front src x p rest e

  Step-Aged : {src : ℕ} {x y : Crossbar P} → Step src x y → Aged x → Aged y
  Step-Aged {src} (moved p rest e c) a = record {
    holds = λ i. ground (arith, a.holds i, next_age-pos rest);
    waits = λ i. ground (arith, a.waits i, pos-next_age rest);
  }
  Step-Aged {src} (stalled h) a = record {
    holds = λ i. ground (arith, a.holds i);
    waits = λ i. ground (arith, a.waits i);
  }

  -- A step leaves the other queues of the near side alone.
  Step-input :
      {src : ℕ} {x y : Crossbar P} → Step src x y → (i : ℕ) → i ≢ src → y.input i ≡ x.input i
  Step-input {src} {x} (moved p rest e c) i h = put_ne x.input src i rest h
  Step-input (stalled h) i n = refl

  -- The loop runs to its end when every queue it names holds a packet and none is named twice.
  arbitrate_all-Steps :
      (queue : List ℕ) (x : Crossbar P)
      → ((j : ℕ) → occurrences j queue ≤ 1)
      → ((j : ℕ) → 0 < occurrences j queue → 0 < length (x.input j))
      → (y : Crossbar P) × (arbitrate_all dest flits stamp queue_depth logic_clk queue x ≡ some y)
        × Steps x y
  unfolding arbitrate_all
  arbitrate_all-Steps [] x once full = (x, refl, done)
  arbitrate_all-Steps (src ∷ queue) x once full =
      let (y, e, step) = arbitrate-Step src x (full src (ground arith)) in
      let others : (j : ℕ) → 0 < occurrences j queue → 0 < length (y.input j) = λ j h.
        let other : j ≢ src = λ s. ground (arith, once j) in
        rw (Step-input step j other) (full j (ground arith)) in
      let (z, e', steps) = arbitrate_all-Steps queue y (λ j. ground (arith, once j)) others in
      (z, rw e e', next step steps)

  module _ {κ} (Q : Crossbar P → Type κ)
      (keep : (src : ℕ) (x y : Crossbar P) → Step src x y → Q x → Q y) where
    pub Steps-keep : {x y : Crossbar P} → Steps x y → Q x → Q y
    Steps-keep done q = q
    Steps-keep (next step steps) q = Steps-keep steps (keep _ _ _ step q)

  -- Where every queue with an age holds a packet and the other way round, the crossbar's part of a
  -- logic cycle never looks at the front of an empty queue, and leaves the ages so.
  pub drain_crossbar-Aged :
      (sources : ℕ) (x : Crossbar P)
      → 0 < sources
      → Aged x
      → (y : Crossbar P) × (drain_crossbar dest flits stamp queue_depth logic_clk sources x
          ≡ some y)
        × Steps (record x { busy = λ i. lower_busy (x.busy i) }) y
        × Aged y
  unfolding drain_crossbar
  drain_crossbar-Aged sources x more a =
      let (queue, e, exact) = build_age_queue-exact sources logic_clk x.age more in
      let x' = record x { busy = λ i. lower_busy (x.busy i) } in
      let full : (j : ℕ) → 0 < occurrences j queue → 0 < length (x.input j) =
        λ j h. ground (arith, exact j, a.holds j) in
      let (y, e', steps) = arbitrate_all-Steps queue x' (λ j. ground (arith, exact j)) full in
      let a' : Aged x' = record { holds = a.holds; waits = a.waits } in
      (y, rw e e', steps, Steps-keep Aged (λ src x y. Step-Aged) steps a')

  module _ {κ} (Q : P → Type κ) (keep : (t : ℕ) (p : P) → Q p → Q (stamp t p)) where
    pub Step-Every : (src : ℕ) (x y : Crossbar P) → Step src x y → Every Q x → Every Q y
    Step-Every src x _ (moved p rest e c) h = λ i. (near i, far i)
      where
        sent : Q p × All Q rest
        sent = rw e at (h src).0

        near : (i : ℕ) → All Q (put x.input src rest i)
        near i = elim (ℕ_discrete i src) [
          | yes s ↦ rw (s, put_self x.input src rest) sent.1
          | no n ↦ rw (put_ne x.input src i rest n) (h i).0
        ]

        q : P
        q = stamp (u64 (logic_clk + flits p)) p

        far : (i : ℕ) → All Q (put x.output (dest p) (x.output (dest p) ++ q ∷ []) i)
        far i = elim (ℕ_discrete i (dest p)) [
          | yes s ↦
              rw (s, put_self x.output (dest p) (x.output (dest p) ++ q ∷ []))
                (All-append Q (x.output (dest p)) (q ∷ []) (h (dest p)).1
                  (keep (u64 (logic_clk + flits p)) p sent.0, tt))
          | no n ↦ rw (put_ne x.output (dest p) i (x.output (dest p) ++ q ∷ []) n) (h i).1
        ]
    Step-Every src x _ (stalled g) h = h

    pub drain_crossbar-Every :
        (sources : ℕ) (x : Crossbar P)
        → 0 < sources
        → Aged x
        → Every Q x
        → (y : Crossbar P) × (drain_crossbar dest flits stamp queue_depth logic_clk sources x
            ≡ some y)
          × Aged y
          × Every Q y
    drain_crossbar-Every sources x more a h =
        let (y, e, steps, a') = drain_crossbar-Aged sources x more a in
        (y, e, a', Steps-keep (Every Q) Step-Every steps h)
