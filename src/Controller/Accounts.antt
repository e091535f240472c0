-- ===== src/Controller/Accounts.antt =====
-- src/controller.cc: transactions taken and returned.
use mathlib.Core.Option.{some-injective}
use latest_zsim_dramsim.Prelude.{
  ℕ, suc, ◌+◌, ◌≤◌, ◌<◌, ◌≡◌, refl, ◌∙◌, ap, subst, true, false, Bool, Bool-cases, List, [], ◌∷◌,
  ◌++◌, Option, some, none, ◌⊎◌, inl, inr, arith, if◌then◌else◌, >>=_inv, length, length-append,
  All, leb, ◌==◌, ltb,
}
use latest_zsim_dramsim.Common.{Transaction}
use latest_zsim_dramsim.Config.{Config}
use latest_zsim_dramsim.Stats.{add_value}
use latest_zsim_dramsim.Controller.{
  Controller, count, take_done, return_done_trans, enqueue, complete_next, add_write, add_read,
  add_transaction, minus64,
}
use latest_zsim_dramsim.Controller.Steady.{outstanding}

-- The first complete transaction of a list, with what stands around it.
pub record Done (clk : ℕ) (ts : List Transaction) (t : Transaction) (rest : List Transaction)
    : Type 0 where
  pub before : List Transaction
  pub after : List Transaction
  pub whole : ts ≡ before ++ t ∷ after
  pub left : rest ≡ before ++ after
  pub due : t.complete_cycle ≤ clk
  pub waiting : All (λ u. clk < u.complete_cycle) before

pub take_done-cases :
    (clk : ℕ) (ts : List Transaction)
    → ((take_done clk ts ≡ none) × All (λ u. clk < u.complete_cycle) ts)
      ⊎ ((t : Transaction) × (rest : List Transaction) × (take_done clk ts ≡ some (t, rest))
          × Done clk ts t rest)
unfolding take_done
take_done-cases clk [] = inl (refl, tt)
take_done-cases clk (t ∷ ts) = elim (Bool-cases (leb t.complete_cycle clk)) [
  | inl y ↦ inr (
    t,
    ts,
    rw y refl,
    record { before = []; after = ts; whole = refl; left = refl; due = ground arith; waiting = tt },
  )
  | inr n ↦ elim (take_done-cases clk ts) [
    | inl (e, all) ↦ inl (rw (n, e) refl, (ground arith, all))
    | inr (u, rest, e, out) ↦ inr (
      u,
      t ∷ rest,
      rw (n, e) refl,
      record {
        before = t ∷ out.before;
        after = out.after;
        whole = ap (λ l. t ∷ l) out.whole;
        left = ap (λ l. t ∷ l) out.left;
        due = out.due;
        waiting = (ground arith, out.waiting);
      },
    )
  ]
]

-- `ReturnDoneTrans` returns a transaction exactly when one is complete: the first of the return queue
-- whose time has come, which leaves the queue, the others staying in order.
pub return_done_trans-cases :
    (c : Controller) (clk : ℕ)
    → ((return_done_trans c clk ≡ (none, c)) × All (λ u. clk < u.complete_cycle) c.return_queue)
      ⊎ ((t : Transaction) × ((return_done_trans c clk).0 ≡ some (t.addr, t.is_write))
          × Done clk c.return_queue t (return_done_trans c clk).1.return_queue)
unfolding return_done_trans
return_done_trans-cases c clk = elim (take_done-cases clk c.return_queue) [
  | inl (e, all) ↦ inl (rw (e, return_done_trans) refl, all)
  | inr (t, rest, e, out) ↦ inr (t, rw (e, return_done_trans) refl, rw (e, return_done_trans) out)
]

take_done-length :
    (clk : ℕ) (ts : List Transaction) {r : Transaction × List Transaction}
    → take_done clk ts ≡ some r
    → length ts ≡ suc (length r.1)
unfolding take_done
take_done-length clk [] e = cc
take_done-length clk (t ∷ ts) e = elim (Bool-cases (leb t.complete_cycle clk)) [
  | inl y ↦
      ap (λ (x : Transaction × List Transaction). suc (length x.1)) (some-injective _ _ (rw y at e))
  | inr n ↦
      let (r, e1, e2) = >>=_inv (take_done clk ts) _ (rw n at e) in
      subst (λ (x : Transaction × List Transaction). suc (length ts) ≡ suc (length x.1))
        (some-injective _ _ e2) (ap suc (take_done-length clk ts e1))
]

-- One answer, or none.
abbrev pub answers : Option (ℕ × Bool) → ℕ
answers none = 0
answers (some a) = 1

pub return_done_trans-outstanding :
    (c : Controller) (clk : ℕ)
    → outstanding c ≡ answers (return_done_trans c clk).0 + outstanding (return_done_trans c clk).1
unfolding return_done_trans
return_done_trans-outstanding c clk = elim (take_done-cases clk c.return_queue) [
  | inl (e, _) ↦ rw (e, return_done_trans) (omega arith)
  | inr (t, rest, e, _) ↦
      rw (e, return_done_trans) (ground (arith, take_done-length clk c.return_queue e))
]

module _ (config : Config) where
  appended : (ts : List Transaction) (t : Transaction) → length (ts ++ t ∷ []) ≡ suc (length ts)
  appended ts t = omega (arith, length-append ts (t ∷ []))

  enqueue-outstanding :
      (t : Transaction) (c : Controller) → outstanding (enqueue config t c) ≡ outstanding c
  enqueue-outstanding t c = ground arith

  complete_next-outstanding :
      (t : Transaction) (c : Controller)
      → outstanding (complete_next config t c) ≡ suc (outstanding c)
  complete_next-outstanding t c =
      omega (arith, length-append c.return_queue (record t { complete_cycle = _ } ∷ []))

  add_write-outstanding :
      (t : Transaction) (c : Controller) → outstanding (add_write config t c) ≡ suc (outstanding c)
  unfolding add_write
  add_write-outstanding t c = elim (Bool-cases (count t.addr c.pending_wr_q == 0)) [
    | inl y ↦
        let c' = record c { pending_wr_q = c.pending_wr_q ++ t ∷ [] } in
        rw (y, add_write)
          (complete_next-outstanding t (enqueue config t c') ∙ ap suc (enqueue-outstanding t c'))
    | inr n ↦ rw (n, add_write) (complete_next-outstanding t c)
  ]

  add_read-outstanding :
      (t : Transaction) (c : Controller) → outstanding (add_read config t c) ≡ suc (outstanding c)
  unfolding add_read
  add_read-outstanding t c =
      let c' = record c { pending_rd_q = c.pending_rd_q ++ t ∷ [] } in
      let one : outstanding c' ≡ suc (outstanding c) = omega (arith, appended c.pending_rd_q t) in
      elim (Bool-cases (ltb 0 (count t.addr c.pending_wr_q))) [
        | inl y ↦ rw (y, add_read) (complete_next-outstanding t c)
        | inr n ↦ elim (Bool-cases (count t.addr c'.pending_rd_q == 1)) [
          | inl y' ↦ rw (n, y', add_read) (enqueue-outstanding t c' ∙ one)
          | inr n' ↦ rw (n, n', add_read) one
        ]
      ]

  either_way :
      {n : ℕ} (b : Bool) (c c' : Controller)
      → outstanding c ≡ n
      → outstanding c' ≡ n
      → outstanding (if b then c else c') ≡ n
  either_way true c c' e e' = e
  either_way false c c' e e' = e'

  pub add_transaction-outstanding :
      (c : Controller) (t : Transaction)
      → outstanding (add_transaction config c t) ≡ suc (outstanding c)
  unfolding add_transaction
  add_transaction-outstanding c t =
      let t' = record t { added_cycle = c.clk } in
      let c' = record c {
        stats = add_value "interarrival_latency" (minus64 c.clk c.last_trans_clk) c.stats;
        last_trans_clk = c.clk;
      } in
      either_way t.is_write (add_write config t' c') (add_read config t' c')
        (add_write-outstanding t' c') (add_read-outstanding t' c')
