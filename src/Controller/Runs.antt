-- ===== src/Controller/Runs.antt =====
-- The runs of a controller (src/controller.cc): its operations in any order, with what is taken and
-- returned.
use native.Mathlib.Nat.{le_trans}
use latest_zsim_dramsim.Prelude.{
  ℕ, ◌+◌, ◌≡◌, refl, ◌∙◌, ap, true, false, ◌==◌, ltb, Bool, Bool-cases, inl, inr, List, [], ◌∷◌,
  ◌++◌, Option, some, none, arith, if◌then◌else◌,
}
use latest_zsim_dramsim.Common.{Transaction}
use latest_zsim_dramsim.Config.{Config}
use latest_zsim_dramsim.Timing.{Timing}
use latest_zsim_dramsim.Stats.{add_value}
use latest_zsim_dramsim.Queue.{CommandQueue, new_command_queue}
use latest_zsim_dramsim.Controller.{
  Controller, count, new_controller, count_done, return_done_trans, enqueue, complete_next,
  add_write, add_read, add_transaction, minus64,
}
use latest_zsim_dramsim.Controller.Tick.{tick}
use latest_zsim_dramsim.Controller.Kinds.{
  one_of, count_calls, waiting, count_kind-append, take_done-kind,
}
use latest_zsim_dramsim.Controller.Accounts.{take_done-cases}
use latest_zsim_dramsim.Controller.Cycle.{tick-Steady}
use latest_zsim_dramsim.Controller.Merge.{OneWrite, add_transaction-OneWrite}

-- The answer of `ReturnDoneTrans`, if it has one, before those given so far.
abbrev pub answered : Option (ℕ × Bool) → List (ℕ × Bool) → List (ℕ × Bool)
answered none calls = calls
answered (some call) calls = call ∷ calls

count_done-queues :
    (t : Transaction) (c : Controller)
    → ((count_done t c).pending_rd_q ≡ c.pending_rd_q)
      × ((count_done t c).pending_wr_q ≡ c.pending_wr_q)
count_done-queues t c = (ground arith, ground arith)

module _ (a : ℕ) (w : Bool) where
  return_done_trans-waiting :
      (c : Controller) (clk : ℕ) (calls : List (ℕ × Bool))
      → count_calls a w calls + waiting a w c
        ≡ count_calls a w (answered (return_done_trans c clk).0 calls)
          + waiting a w (return_done_trans c clk).1
  unfolding return_done_trans
  return_done_trans-waiting c clk calls = elim (take_done-cases clk c.return_queue) [
    | inl (e, _) ↦ rw (e, return_done_trans) refl
    | inr (t, rest, e, _) ↦
        rw (e, (count_done-queues t c).0, return_done_trans)
          (omega (arith, take_done-kind a w clk c.return_queue e))
  ]

  module _ (config : Config) where
    enqueue-waiting :
        (t : Transaction) (c : Controller) → waiting a w (enqueue config t c) ≡ waiting a w c
    enqueue-waiting t c = ground arith

    complete_next-waiting :
        (t : Transaction) (c : Controller)
        → waiting a w (complete_next config t c) ≡ one_of a w t.addr t.is_write + waiting a w c
    complete_next-waiting t c =
        omega (arith, count_kind-append a w c.return_queue (record t { complete_cycle = _ } ∷ []))

    add_write-waiting :
        (t : Transaction) (c : Controller)
        → waiting a w (add_write config t c) ≡ one_of a w t.addr t.is_write + waiting a w c
    unfolding add_write
    add_write-waiting t c = elim (Bool-cases (count t.addr c.pending_wr_q == 0)) [
      | inl y ↦
          let c' = record c { pending_wr_q = c.pending_wr_q ++ t ∷ [] } in
          rw (y, add_write)
            (complete_next-waiting t (enqueue config t c')
              ∙ ap (λ n. one_of a w t.addr t.is_write + n) (enqueue-waiting t c'))
      | inr n ↦ rw (n, add_write) (complete_next-waiting t c)
    ]

    add_read-waiting :
        (t : Transaction) (c : Controller)
        → waiting a w (add_read config t c) ≡ one_of a w t.addr t.is_write + waiting a w c
    unfolding add_read
    add_read-waiting t c =
        let c' = record c { pending_rd_q = c.pending_rd_q ++ t ∷ [] } in
        let one : waiting a w c' ≡ one_of a w t.addr t.is_write + waiting a w c =
          omega (arith, count_kind-append a w c.pending_rd_q (t ∷ [])) in
        elim (Bool-cases (ltb 0 (count t.addr c.pending_wr_q))) [
          | inl y ↦ rw (y, add_read) (complete_next-waiting t c)
          | inr n ↦ elim (Bool-cases (count t.addr c'.pending_rd_q == 1)) [
            | inl y' ↦ rw (n, y', add_read) (enqueue-waiting t c' ∙ one)
            | inr n' ↦ rw (n, n', add_read) one
          ]
        ]

    either_way :
        {n : ℕ} (b : Bool) (c c' : Controller)
        → waiting a w c ≡ n
        → waiting a w c' ≡ n
        → waiting a w (if b then c else c') ≡ n
    either_way true c c' e e' = e
    either_way false c c' e e' = e'

    add_transaction-waiting :
        (c : Controller) (t : Transaction)
        → waiting a w (add_transaction config c t) ≡ one_of a w t.addr t.is_write + waiting a w c
    unfolding add_transaction
    add_transaction-waiting c t =
        let t' = record t { added_cycle = c.clk } in
        let c' = record c {
          stats = add_value "interarrival_latency" (minus64 c.clk c.last_trans_clk) c.stats;
          last_trans_clk = c.clk;
        } in
        either_way t.is_write (add_write config t' c') (add_read config t' c')
          (add_write-waiting t' c') (add_read-waiting t' c')

module _ (config : Config) (timing : Timing) where
  -- Every order of a controller's operations, with the address and the direction of each transaction
  -- that it has taken and of each that it has returned, the last one first.
  pub data ControllerRun : List (ℕ × Bool) → List (ℕ × Bool) → Controller → Type 0 where
    start :
        {q : CommandQueue}
        → new_command_queue config.queue_structure ≡ some q
        → ControllerRun [] [] (new_controller config q)
    added :
        {taken returned : List (ℕ × Bool)} {c : Controller} (t : Transaction)
        → ControllerRun taken returned c
        → ControllerRun ((t.addr, t.is_write) ∷ taken) returned (add_transaction config c t)
    asked :
        {taken returned : List (ℕ × Bool)} {c : Controller} (clk : ℕ)
        → ControllerRun taken returned c
        → ControllerRun taken
            (answered (return_done_trans c clk).0 returned)
            (return_done_trans c clk).1
    ticked :
        {taken returned : List (ℕ × Bool)} {c c' : Controller}
        → ControllerRun taken returned c
        → tick config timing c ≡ some c'
        → ControllerRun taken returned c'

  -- In every run of a controller, for every address and direction, as many transactions have been taken
  -- as have been returned, wait for their read command or wait in the return queue. So of the answers
  -- that a callback can tell apart none is lost, none is made up and none is given twice.
  pub no_transaction_lost :
      {taken returned : List (ℕ × Bool)} {c : Controller}
      → ControllerRun taken returned c
      → (a : ℕ) (w : Bool) → count_calls a w taken ≡ count_calls a w returned + waiting a w c
  no_transaction_lost (start e) a w = refl
  no_transaction_lost (added {c = c} t run) a w =
      omega (arith, add_transaction-waiting a w config c t, no_transaction_lost run a w)
  no_transaction_lost (asked {returned = returned} {c = c} clk run) a w =
      no_transaction_lost run a w ∙ return_done_trans-waiting a w c clk returned
  no_transaction_lost (ticked {c = c} run e) a w =
      omega (arith, (tick-Steady config timing c e).each a w, no_transaction_lost run a w)

  return_done_trans-pending :
      (c : Controller) (clk : ℕ) → (return_done_trans c clk).1.pending_wr_q ≡ c.pending_wr_q
  unfolding return_done_trans
  return_done_trans-pending c clk = elim (take_done-cases clk c.return_queue) [
    | inl (e, _) ↦ rw (e, return_done_trans) refl
    | inr (t, rest, e, _) ↦ rw (e, return_done_trans) (count_done-queues t c).1
  ]

  -- In every run of a controller no address ever has two writes pending.
  pub one_pending_write :
      {taken returned : List (ℕ × Bool)} {c : Controller}
      → ControllerRun taken returned c
      → OneWrite c
  unfolding count
  one_pending_write (start e) = record { one = λ addr. omega arith }
  one_pending_write (added {c = c} t run) =
      add_transaction-OneWrite config c t (one_pending_write run)
  one_pending_write (asked {c = c} clk run) = record {
    one = λ addr. rw (return_done_trans-pending c clk) ((one_pending_write run).one addr);
  }
  one_pending_write (ticked {c = c} run e) = record {
    one = λ addr.
        le_trans ((tick-Steady config timing c e).writes addr) ((one_pending_write run).one addr);
  }
