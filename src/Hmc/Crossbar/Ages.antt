-- ===== src/Hmc/Crossbar/Ages.antt =====
-- The queues that `BuildAgeQueue` names (src/hmc.cc).
use latest_zsim_dramsim.Prelude.{
  ℕ, zero, suc, ◌+◌, ◌-◌, ◌%◌, ◌≤◌, ◌<◌, ◌≡◌, ◌≢◌, refl, ap, ◌∙◌, sym, ltb, leb, ◌==◌,
  if◌then◌else◌, Bool, false, ◌&&◌, Bool-cases, inl, inr, List, [], ◌∷◌, some, for_range, arith,
}
use native.Mathlib.Nat.{mod-eq_of_lt, mod-eq-sub-mod, mod-lt}
use native.Mathlib.Decide.{ℕ_discrete}
use latest_zsim_dramsim.Hmc.Crossbar.{insert_by_age, add_aged, build_age_queue}

-- How often a position is in a list.
abbrev pub occurrences : ℕ → List ℕ → ℕ
occurrences j [] = 0
occurrences j (x ∷ xs) = (if x == j then 1 else 0) + occurrences j xs

insert_by_age-occurrences :
    (j p a : ℕ) (queue : List ℕ)
    → occurrences j (insert_by_age p a queue) ≡ occurrences j (p ∷ queue)
unfolding insert_by_age
insert_by_age-occurrences j p a [] = refl
insert_by_age-occurrences j p a (x ∷ queue) = ground (arith, insert_by_age-occurrences j p a queue)

module _ (len start j : ℕ) (ages : ℕ → ℕ) (start_lt : start < len) (j_lt : j < len) where
  -- The round of the loop that looks at `j`.
  abbrev pub turn_of : ℕ
  turn_of = if leb start j then j - start else j + len - start

  turn_of_lem : (i : ℕ) → i < len → (i + start) % len ≡ j → i ≡ turn_of
  turn_of_lem i h e = elim (Bool-cases (ltb (i + start) len)) [
    | inl y ↦
        let l : i + start < len = ground arith in
        let e' : i + start ≡ j = sym (mod-eq_of_lt l) ∙ e in ground arith
    | inr n ↦
        let l : len ≤ i + start = ground arith in
        let below : i + start - len < len = omega arith in
        let e' : i + start - len ≡ j = sym (mod-eq-sub-mod l ∙ mod-eq_of_lt below) ∙ e in
        ground arith
  ]

  pub turn_of-position : (i : ℕ) → i ≡ turn_of → (i + start) % len ≡ j
  turn_of-position i e = elim (Bool-cases (leb start j)) [
    | inl y ↦ let e' : i + start ≡ j = ground arith in rw e' (mod-eq_of_lt j_lt)
    | inr n ↦
        let e' : i + start ≡ j + len = ground arith in
        let l : len ≤ j + len = omega arith in
        let e'' : j + len - len ≡ j = omega arith in
        rw e' (mod-eq-sub-mod l ∙ rw e'' (mod-eq_of_lt j_lt))
  ]

  -- 1 for a queue with something to send.
  abbrev wanted : ℕ
  wanted = if ltb 0 (ages j) then 1 else 0

  position-occurrences :
      (p : ℕ) (queue : List ℕ)
      → occurrences j (if ltb 0 (ages p) then insert_by_age p (ages p) queue else queue)
        ≡ (if p == j then wanted else 0) + occurrences j queue
  position-occurrences p queue = elim (ℕ_discrete p j) [
    | yes e ↦ rw e (ground (arith, insert_by_age-occurrences j j (ages j) queue))
    | no n ↦ ground (arith, insert_by_age-occurrences j p (ages p) queue)
  ]

  same_turn : (i : ℕ) → i < len → ((i + start) % len == j) ≡ (i == turn_of)
  same_turn i h = elim (ℕ_discrete i turn_of) [
    | yes e ↦ rw (turn_of-position i e) (ground arith)
    | no n ↦ let n' : (i + start) % len ≢ j = λ e. n (turn_of_lem i h e) in ground arith
  ]

  add_aged-occurrences :
      (i : ℕ) (queue : List ℕ)
      → i < len
      → occurrences j (add_aged len start ages i queue)
        ≡ (if i == turn_of then wanted else 0) + occurrences j queue
  unfolding add_aged
  add_aged-occurrences i queue h =
      position-occurrences ((i + start) % len) queue
      ∙ ap (λ (b : Bool). (if b then wanted else 0) + occurrences j queue) (same_turn i h)

  loop-occurrences :
      (rounds k : ℕ) (queue : List ℕ)
      → k + rounds ≤ len
      → occurrences j (for_range rounds k (add_aged len start ages) queue)
        ≡ (if leb k turn_of && ltb turn_of (k + rounds) then wanted else 0) + occurrences j queue
  unfolding for_range
  loop-occurrences zero k queue h = ground arith
  loop-occurrences (suc rounds) k queue h =
      let rest = loop-occurrences rounds (k + 1) (add_aged len start ages k queue) (omega arith) in
      let one = add_aged-occurrences k queue (omega arith) in ground arith

  pub turn_of-lt : turn_of < len
  turn_of-lt = ground arith

-- A position of the loop is below the number of queues.
outside-occurrences :
    (len start j : ℕ) (ages : ℕ → ℕ)
    → 0 < len
    → len ≤ j
    → (rounds k : ℕ) (queue : List ℕ)
    → occurrences j (for_range rounds k (add_aged len start ages) queue) ≡ occurrences j queue
unfolding for_range add_aged
outside-occurrences len start j ages more h zero k queue = refl
outside-occurrences len start j ages more h (suc rounds) k queue =
    let p = (k + start) % len in
    let below : p < len = mod-lt (k + start) more in
    let one = insert_by_age-occurrences j p (ages p) queue in
    let rest = outside-occurrences len start j ages more h rounds (k + 1) in
    elim (Bool-cases (ltb 0 (ages p))) [
      | inl y ↦ rw y (rest (insert_by_age p (ages p) queue) ∙ ground arith)
      | inr n ↦ rw n (rest queue)
    ]

module _ (queue_len logic_clk : ℕ) (ages : ℕ → ℕ) where
  -- With at least one queue, `BuildAgeQueue` names every queue with an age above 0 once, and no other.
  pub build_age_queue-exact :
      0 < queue_len
      → (queue : List ℕ) × (build_age_queue queue_len logic_clk ages ≡ some queue)
        × ((j : ℕ) → occurrences j queue ≡ (if ltb j queue_len && ltb 0 (ages j) then 1 else 0))
  unfolding build_age_queue
  build_age_queue-exact more =
      let some_queue : (queue_len == 0) ≡ false = ground arith in
      let start = logic_clk % queue_len in
      let start_lt : start < queue_len = mod-lt logic_clk more in
      let loop = for_range queue_len 0 (add_aged queue_len start ages) [] in
      (
        loop,
        rw some_queue refl,
        λ j. elim (Bool-cases (ltb j queue_len)) [
          | inl y ↦
              let h : j < queue_len = ground arith in
              let all =
                loop-occurrences queue_len start j ages start_lt h queue_len 0 [] (omega arith) in
              let turn = turn_of-lt queue_len start j ages start_lt h in rw y (all ∙ ground arith)
          | inr n ↦
              rw n (outside-occurrences queue_len start j ages more (ground arith) queue_len 0 [])
        ],
      )
