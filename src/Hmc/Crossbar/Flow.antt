-- ===== src/Hmc/Crossbar/Flow.antt =====
-- The packets that cross, in their order, and the room of the far side (src/hmc.cc).
use latest_zsim_dramsim.Prelude.{
  ℕ, ◌+◌, ◌≤◌, ◌<◌, ◌≡◌, refl, ap, sym, ◌∙◌, ◌==◌, if◌then◌else◌, Bool, true, false, Bool-cases,
  inl, inr, List, [], ◌∷◌, ◌++◌, length, length-append, All, arith, some,
}
use mathlib.Core.List.{append_assoc, append-nil}
use native.Mathlib.Decide.{ℕ_discrete}
use latest_zsim_dramsim.Common.{u64}
use latest_zsim_dramsim.Channel.{put_self, put_ne}
use latest_zsim_dramsim.Hmc.Crossbar.{Crossbar, drain_crossbar}
use latest_zsim_dramsim.Hmc.Crossbar.Steps.{
  Step, moved, stalled, Steps-keep, Aged, drain_crossbar-Aged,
}

-- The keys of the packets that pass a test, in order.
abbrev pub selected : {P K : Type 0} → (P → K) → (P → Bool) → List P → List K
selected key test [] = []
selected key test (p ∷ ps) = if test p then key p ∷ selected key test ps else selected key test ps

module _ {P K : Type 0} (key : P → K) (test : P → Bool) where
  selected-append :
      (xs ys : List P) → selected key test (xs ++ ys) ≡ selected key test xs ++ selected key test ys
  selected-append [] ys = refl
  selected-append (x ∷ xs) ys = elim (Bool-cases (test x)) [
    | inl y ↦ rw (y, selected-append xs ys) refl
    | inr n ↦ rw (n, selected-append xs ys) refl
  ]

  selected_last :
      (xs : List P) (q : P)
      → test q ≡ true
      → selected key test (xs ++ q ∷ []) ≡ selected key test xs ++ key q ∷ []
  selected_last xs q h = rw (selected-append xs (q ∷ []), h) refl

  selected_not_last :
      (xs : List P) (q : P)
      → test q ≡ false
      → selected key test (xs ++ q ∷ []) ≡ selected key test xs
  selected_not_last xs q h = rw (selected-append xs (q ∷ []), h) (append-nil _)

module _ {P K : Type 0} (dest flits from : P → ℕ) (stamp : ℕ → P → P) (key : P → K)
    (queue_depth logic_clk : ℕ) where
  -- Every packet waits in the queue that it came by.
  abbrev pub Sourced : Crossbar P → Type 0
  Sourced x = (i : ℕ) → All (λ p. from p ≡ i) (x.input i)

  -- What goes from one queue of the near side to one of the far side: first what has crossed.
  abbrev pub flow : ℕ → ℕ → Crossbar P → List K
  flow src d x =
      selected key (λ p. from p == src) (x.output d)
      ++ selected key (λ p. dest p == d) (x.input src)

  Step-Sourced :
      (src : ℕ) (x y : Crossbar P)
      → Step dest flits stamp queue_depth logic_clk src x y
      → Sourced x
      → Sourced y
  Step-Sourced src x _ (moved p rest e c) s = λ i. elim (ℕ_discrete i src) [
    | yes i_src ↦ rw (i_src, put_self x.input src rest) (rw e at (s src)).1
    | no n ↦ rw (put_ne x.input src i rest n) (s i)
  ]
  Step-Sourced src x _ (stalled h) s = s

  module _ (same_key : (t : ℕ) (p : P) → key (stamp t p) ≡ key p)
      (same_from : (t : ℕ) (p : P) → from (stamp t p) ≡ from p) where
    -- What crosses moves from the front of what waits to the end of what has crossed.
    moved-flow :
        (l d : ℕ) (out wait : List P) (p q : P)
        → from q ≡ l
        → dest p ≡ d
        → key q ≡ key p
        → selected key (λ p. from p == l) (out ++ q ∷ []) ++ selected key (λ p. dest p == d) wait
          ≡ selected key (λ p. from p == l) out ++ selected key (λ p. dest p == d) (p ∷ wait)
    moved-flow l d out wait p q f t k =
        let ft : (from q == l) ≡ true = ground arith in
        let tt' : (dest p == d) ≡ true = ground arith in
        let sent = selected_last key (λ p. from p == l) out q ft in
        rw (sent, tt', k)
          (append_assoc (selected key (λ p. from p == l) out) (key p ∷ [])
            (selected key (λ p. dest p == d) wait))

    Step-flow :
        (l d src : ℕ) (x y : Crossbar P)
        → Step dest flits stamp queue_depth logic_clk src x y
        → Sourced x
        → flow l d y ≡ flow l d x
    Step-flow l d src x _ (moved p rest e c) s =
        let q = stamp (u64 (logic_clk + flits p)) p in
        let fp : from p ≡ src = (rw e at (s src)).0 in
        let fq : from q ≡ src = same_from (u64 (logic_clk + flits p)) p ∙ fp in
        let k : key q ≡ key p = same_key (u64 (logic_clk + flits p)) p in
        let far = selected key (λ p. from p == l) in
        elim (ℕ_discrete l src) [
          | yes el ↦
              let ls : (l == src) ≡ true = ground arith in
              let li : x.input l ≡ p ∷ rest = ap x.input el ∙ e in
              elim (ℕ_discrete d (dest p)) [
                | yes ed ↦
                    let ds : (d == dest p) ≡ true = ground arith in
                    let od : x.output (dest p) ≡ x.output d = ap x.output (sym ed) in
                    rw (ls, ds, od, li)
                      (moved-flow l d (x.output d) rest p q (fq ∙ sym el) (sym ed) k)
                | no nd ↦
                    let ds : (d == dest p) ≡ false = ground arith in
                    let sd : (dest p == d) ≡ false = ground arith in rw (ls, ds, li, sd) refl
              ]
          | no nl ↦
              let ls : (l == src) ≡ false = ground arith in
              let fl : (from q == l) ≡ false = ground arith in
              elim (ℕ_discrete d (dest p)) [
                | yes ed ↦
                    let ds : (d == dest p) ≡ true = ground arith in
                    let od : x.output (dest p) ≡ x.output d = ap x.output (sym ed) in
                    rw (ls, ds, od)
                      (ap (λ v. v ++ selected key (λ p. dest p == d) (x.input l))
                        (selected_not_last key (λ p. from p == l) (x.output d) q fl))
                | no nd ↦ let ds : (d == dest p) ≡ false = ground arith in rw (ls, ds) refl
              ]
        ]
    Step-flow l d src x _ (stalled h) s = refl

    -- Where every packet waits in the queue it came by, the crossbar's part of a logic cycle keeps the
    -- packets from each queue of the near side to each of the far side, in their order: none is lost,
    -- doubled or overtaken on its way.
    pub drain_crossbar-flow :
        (sources l d : ℕ) (x : Crossbar P)
        → 0 < sources
        → Aged x
        → Sourced x
        → (y : Crossbar P) × (drain_crossbar dest flits stamp queue_depth logic_clk sources x
            ≡ some y)
          × (flow l d y ≡ flow l d x)
          × Sourced y
    drain_crossbar-flow sources l d x more a s =
        let (y, e, steps, _) =
          drain_crossbar-Aged dest flits stamp queue_depth logic_clk sources x more a in
        let kept =
          Steps-keep dest flits stamp queue_depth logic_clk
            (λ z. (flow l d z ≡ flow l d x) × Sourced z)
            (λ src z w step h.
              (Step-flow l d src z w step h.1 ∙ h.0, Step-Sourced src z w step h.1))
            steps (refl, s) in
        (y, e, kept.0, kept.1)

module _ {P : Type 0} (dest flits : P → ℕ) (stamp : ℕ → P → P) (queue_depth logic_clk : ℕ) where
  -- The crossbar never puts more packets into a queue of the far side than the queue's depth.
  pub drain_crossbar-room :
      (sources : ℕ) (x : Crossbar P) (d : ℕ)
      → 0 < sources
      → Aged x
      → length (x.output d) ≤ queue_depth
      → (y : Crossbar P) × (drain_crossbar dest flits stamp queue_depth logic_clk sources x
          ≡ some y)
        × (length (y.output d) ≤ queue_depth)
  drain_crossbar-room sources x d more a r =
      let (y, e, steps, _) =
        drain_crossbar-Aged dest flits stamp queue_depth logic_clk sources x more a in
      (
        y,
        e,
        Steps-keep dest flits stamp queue_depth logic_clk (λ z. length (z.output d) ≤ queue_depth)
            (λ src z w step h. Step-room src z w step d h) steps r,
      )
    where
      Step-room :
          (src : ℕ) (z w : Crossbar P)
          → Step dest flits stamp queue_depth logic_clk src z w
          → (d : ℕ) → length (z.output d) ≤ queue_depth
          → length (w.output d) ≤ queue_depth
      Step-room src z _ (moved p rest e c) d r =
          ground (arith, length-append (z.output d) (stamp (u64 (logic_clk + flits p)) p ∷ []))
      Step-room src z _ (stalled h) d r = r
