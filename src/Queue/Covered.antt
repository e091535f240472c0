-- ===== src/Queue/Covered.antt =====
-- src/command_queue.cc: `GetCommandToIssue` and the queues that a pending refresh covers.
use mathlib.Core.Option.{some-injective}
use latest_zsim_dramsim.Prelude.{
  ℕ, zero, suc, ◌≡◌, sym, ap, subst, true, false, Bool-cases, inl, inr, some, >>=_inv, arith,
}
use latest_zsim_dramsim.Common.{Command, is_valid, is_read_write}
use latest_zsim_dramsim.Config.{Config}
use latest_zsim_dramsim.Queue.{
  CommandQueue, num_queues, get_queue_index, get_next_queue, erase_from, erase_rw_command,
}
use latest_zsim_dramsim.Queue.Arbiter.{Outside, get_first_ready_in_queue}
use latest_zsim_dramsim.Queue.Issue.{
  Found, is_refreshing, take_out, issue_loop, get_command_to_issue,
}
use latest_zsim_dramsim.Queue.Room.{searched}

-- These are the queues, with another queue at the turn.
abbrev pub at_queue : CommandQueue → ℕ → CommandQueue
at_queue q i = record q { queue_idx = i }

module _ (config : Config) where
  -- A command comes from a queue that no refresh covers: it is what `GetFirstReadyInQueue` picks there,
  -- and what is taken out for it is taken out of the queues as they were.
  pub record FromFree (q : CommandQueue) (found : Found) : Type 0 where
    pub asked : Outside
    pub picked :
        get_first_ready_in_queue config q.clk (q.queues found.queue.queue_idx) asked
        ≡ some (found.cmd, found.outside)
    pub free : is_refreshing (at_queue q found.queue.queue_idx) ≡ false
    pub left : take_out config (at_queue q found.queue.queue_idx) found.cmd ≡ some found.queue

  take_out-queue_idx :
      (q : CommandQueue) (cmd : Command) {q' : CommandQueue}
      → take_out config q cmd ≡ some q'
      → q'.queue_idx ≡ q.queue_idx
  unfolding take_out erase_rw_command
  take_out-queue_idx q cmd {q'} e = elim (Bool-cases (is_read_write cmd)) [
    | inl y ↦
        let (i, e1, e2) =
          >>=_inv (get_queue_index config cmd.rank cmd.bankgroup cmd.bank) _ (rw y at e) in
        let (l, e3, e4) = >>=_inv (erase_from cmd (q.queues i)) _ e2 in
        sym (ap (λ (x : CommandQueue). x.queue_idx) (some-injective _ q' e4))
    | inr n ↦ sym (ap (λ (x : CommandQueue). x.queue_idx) (some-injective q q' (rw n at e)))
  ]

  searched-FromFree :
      (n : ℕ) (q : CommandQueue) (o : Outside) {found : Found}
      → is_refreshing q ≡ false
      → ((o' : Outside) → issue_loop config n q o' ≡ some found → FromFree q found)
      → searched config n q o ≡ some found
      → FromFree q found
  searched-FromFree n q o r again e =
      let ((cmd, o'), e1, e2) =
        >>=_inv (get_first_ready_in_queue config q.clk (q.queues q.queue_idx) o) _ e in
      elim (Bool-cases (is_valid cmd)) [
        | inl y ↦
            let (q', e3, e4) = >>=_inv (take_out config q cmd) _ (rw y at e2) in
            let here = take_out-queue_idx q cmd e3 in
            subst (FromFree q) (some-injective _ _ e4)
              (record { asked = o; picked = rw here e1; free = rw here r; left = rw here e3 })
        | inr n' ↦ again o' (rw n' at e2)
      ]

  -- A move to the next queue changes nothing else.
  next-FromFree :
      (q : CommandQueue) {found : Found}
      → FromFree (get_next_queue config q) found
      → FromFree q found
  unfolding get_next_queue
  next-FromFree q f = record { asked = f.asked; picked = f.picked; free = f.free; left = f.left }

  issue_loop-FromFree :
      (n : ℕ) (q : CommandQueue) (o : Outside) {found : Found}
      → issue_loop config n q o ≡ some found
      → is_valid found.cmd ≡ true
      → FromFree q found
  unfolding issue_loop
  issue_loop-FromFree zero q o e v = absurd (ground arith)
  issue_loop-FromFree (suc n) q o e v =
      let q' = get_next_queue config q in
      next-FromFree q (elim (Bool-cases (is_refreshing q')) [
        | inl y ↦ issue_loop-FromFree n q' o (rw (y, issue_loop) at e) v
        | inr n' ↦
            searched-FromFree n q' o n' (λ o' e'. issue_loop-FromFree n q' o' e' v)
              (rw (n', issue_loop) at e)
      ])

  -- A valid command that `GetCommandToIssue` hands out is the one that `GetFirstReadyInQueue` picks in
  -- the queue at which the search stops. While a refresh is pending, this queue is none of those that it
  -- covers. The command leaves its queue if it is a read or write, and else all queues stay as they are.
  pub covered_queues_wait :
      (q : CommandQueue) (o : Outside) {found : Found}
      → get_command_to_issue config q o ≡ some found
      → is_valid found.cmd ≡ true
      → FromFree q found
  unfolding get_command_to_issue
  covered_queues_wait q o e v = issue_loop-FromFree (num_queues config) q o e v
