-- ===== src/Controller/Kinds.antt =====
-- Transactions counted by their address and direction, which are what a callback is called with
-- (src/controller.cc).
use mathlib.Core.Option.{some-injective}
use latest_zsim_dramsim.Prelude.{
  ℕ, ◌+◌, ◌≤◌, ◌≡◌, refl, subst, ◌==◌, Bool, true, false, not, ◌&&◌, if◌then◌else◌, Bool-cases, inl,
  inr, List, [], ◌∷◌, ◌++◌, map, some, arith, >>=_inv, leb,
}
use latest_zsim_dramsim.Common.{Transaction}
use latest_zsim_dramsim.Config.{Config}
use latest_zsim_dramsim.Controller.{Controller, count, take_done}
use latest_zsim_dramsim.Controller.Issue.{reads_of, reads_except, completed_at, take_addr}

abbrev same_way : Bool → Bool → Bool
same_way true b = b
same_way false b = not b

-- 1 where an address and a direction are the ones counted.
abbrev pub one_of : ℕ → Bool → ℕ → Bool → ℕ
one_of a w addr is_write = if addr == a && same_way w is_write then 1 else 0

abbrev pub count_calls : ℕ → Bool → List (ℕ × Bool) → ℕ
count_calls a w [] = 0
count_calls a w ((addr, is_write) ∷ calls) = one_of a w addr is_write + count_calls a w calls

abbrev pub count_kind : ℕ → Bool → List Transaction → ℕ
count_kind a w [] = 0
count_kind a w (t ∷ ts) = one_of a w t.addr t.is_write + count_kind a w ts

-- The reads that wait and what waits to be returned, of an address and a direction.
abbrev pub waiting : ℕ → Bool → Controller → ℕ
waiting a w c = count_kind a w c.pending_rd_q + count_kind a w c.return_queue

module _ (a : ℕ) (w : Bool) where
  pub count_kind-append :
      (ts us : List Transaction) → count_kind a w (ts ++ us) ≡ count_kind a w ts + count_kind a w us
  count_kind-append [] us = omega arith
  count_kind-append (t ∷ ts) us = omega (arith, count_kind-append ts us)

  count_kind-reads :
      (addr : ℕ) (ts : List Transaction)
      → count_kind a w (reads_of addr ts) + count_kind a w (reads_except addr ts)
        ≡ count_kind a w ts
  unfolding reads_of reads_except
  count_kind-reads addr [] = refl
  count_kind-reads addr (t ∷ ts) = elim (Bool-cases (t.addr == addr)) [
    | inl y ↦ rw y (omega (arith, count_kind-reads addr ts))
    | inr n ↦ rw n (omega (arith, count_kind-reads addr ts))
  ]

  count_kind-completed :
      (config : Config) (cycle : ℕ) (ts : List Transaction)
      → count_kind a w (map (completed_at config cycle) ts) ≡ count_kind a w ts
  count_kind-completed config cycle [] = refl
  count_kind-completed config cycle (t ∷ ts) = omega (arith, count_kind-completed config cycle ts)

  -- The reads of an address are moved to the end of a list.
  pub count_kind-moved :
      (config : Config) (addr cycle : ℕ) (ts ret : List Transaction)
      → count_kind a w (reads_except addr ts)
          + count_kind a w (ret ++ map (completed_at config cycle) (reads_of addr ts))
        ≡ count_kind a w ts + count_kind a w ret
  count_kind-moved config addr cycle ts ret = omega (
    arith,
    count_kind-append ret (map (completed_at config cycle) (reads_of addr ts)),
    count_kind-completed config cycle (reads_of addr ts),
    count_kind-reads addr ts,
  )

  pub take_done-kind :
      (clk : ℕ) (ts : List Transaction) {r : Transaction × List Transaction}
      → take_done clk ts ≡ some r
      → count_kind a w ts ≡ one_of a w r.0.addr r.0.is_write + count_kind a w r.1
  unfolding take_done
  take_done-kind clk [] e = cc
  take_done-kind clk (t ∷ ts) {r} e = elim (Bool-cases (leb t.complete_cycle clk)) [
    | inl y ↦
        subst
          (λ (x : Transaction × List Transaction).
            count_kind a w (t ∷ ts) ≡ one_of a w x.0.addr x.0.is_write + count_kind a w x.1)
          (some-injective (t, ts) r (rw y at e)) refl
    | inr n ↦
        let (q, e1, e2) = >>=_inv (take_done clk ts) _ (rw n at e) in
        subst
          (λ (x : Transaction × List Transaction).
            count_kind a w (t ∷ ts) ≡ one_of a w x.0.addr x.0.is_write + count_kind a w x.1)
          (some-injective _ r e2) (omega (arith, take_done-kind clk ts e1))
  ]

-- What is left when a transaction of an address is taken out.
pub take_addr-count :
    (addr : ℕ) (ts : List Transaction) {r : Transaction × List Transaction}
    → take_addr addr ts ≡ some r
    → (a : ℕ) → count a r.1 ≤ count a ts
unfolding take_addr count
take_addr-count addr [] e a = cc
take_addr-count addr (t ∷ ts) {r} e a = elim (Bool-cases (t.addr == addr)) [
  | inl y ↦
      subst (λ (x : Transaction × List Transaction). count a x.1 ≤ count a (t ∷ ts))
        (some-injective (t, ts) r (rw y at e)) (ground arith)
  | inr n ↦
      let (q, e1, e2) = >>=_inv (take_addr addr ts) _ (rw n at e) in
      subst (λ (x : Transaction × List Transaction). count a x.1 ≤ count a (t ∷ ts))
        (some-injective _ r e2) (ground (arith, take_addr-count addr ts e1 a))
]
