-- ===== src/Queue/Room.antt =====
-- src/command_queue.cc: the lengths of the queues under every operation.
use latest_zsim_dramsim.Prelude.{
  ℕ, zero, suc, ◌≤◌, ◌≡◌, ◌≢◌, refl, sym, ap, subst, true, false, ◌==◌, Bool, Bool-cases, List, [],
  ◌∷◌, ◌++◌, Option, some, ◌⊎◌, inl, inr, arith, ◌>>=◌, if◌then◌else◌, >>=_inv, length,
  length-append, ltb, index?,
}
use native.Mathlib.Nat.{le_trans}
use mathlib.Core.Option.{some-injective}
use latest_zsim_dramsim.Common.{Command, is_valid, is_read_write}
use latest_zsim_dramsim.Config.{Config, QueueStructure}
use latest_zsim_dramsim.Channel.{put, put_self, put_ne}
use latest_zsim_dramsim.Queue.{
  CommandQueue, num_queues, new_command_queue, get_queue_index, append_command, add_command,
  will_accept_command, get_next_queue, erase_from, erase_rw_command, get_ref_q_indices, clock_tick,
}
use latest_zsim_dramsim.Queue.Erase.{erase_from-length}
use latest_zsim_dramsim.Queue.Arbiter.{Outside, get_first_ready_in_queue}
use latest_zsim_dramsim.Queue.Issue.{
  Found, is_refreshing, take_out, issue_loop, get_command_to_issue, begin_refresh, end_refresh,
  finish_refresh,
}
use latest_zsim_dramsim.Channel.RefreshQueue.{pending_ref_command}
use latest_zsim_dramsim.Channel.Ready.{get_ready_command}

-- Every queue is within the size of the configuration.
pub record Fits (config : Config) (q : CommandQueue) : Type 0 where
  pub room : (i : ℕ) → length (q.queues i) ≤ config.cmd_queue_size

module _ (config : Config) where
  put-Fits :
      (q : CommandQueue) (i : ℕ) (l : List Command)
      → Fits config q
      → length l ≤ config.cmd_queue_size
      → (k : ℕ) → length (put q.queues i l k) ≤ config.cmd_queue_size
  put-Fits q i l f h k = elim (Bool-cases (k == i)) [ inl y ↦ rw y h | inr n ↦ rw n (f.room k) ]

  appended-length :
      (q : CommandQueue) (i : ℕ) (cmd : Command)
      → ltb (length (q.queues i)) config.cmd_queue_size ≡ true
      → length (q.queues i ++ cmd ∷ []) ≤ config.cmd_queue_size
  appended-length q i cmd y = rw (length-append (q.queues i) (cmd ∷ [])) (ground arith)

  -- The command is the last of queue `i`, or nothing has changed.
  abbrev pub Lengthened : CommandQueue → Command → ℕ → ℕ → Bool → CommandQueue → Type 0
  Lengthened q cmd i r taken q' =
      ((taken ≡ true)
        × (q'.queues i ≡ q.queues i ++ cmd ∷ [])
        × ((k : ℕ) → k ≢ i → q'.queues k ≡ q.queues k)
        × (q'.rank_q_empty r ≡ false))
      ⊎ ((taken ≡ false) × (q' ≡ q))

  added-room :
      (q : CommandQueue) (cmd : Command) (i r : ℕ) (b taken : Bool) (q' : CommandQueue)
      → ltb (length (q.queues i)) config.cmd_queue_size ≡ b
      → Fits config q
      → let out : Bool × CommandQueue =
          if b then (true, append_command config i cmd r q) else (false, q) in
        let got : Bool × CommandQueue = (taken, q') in
        out ≡ got → Fits config q' × (b ≡ taken) × Lengthened q cmd i r taken q'
  added-room q cmd i r true taken q' y f e = (
    subst (Fits config) (ap (λ x. x.1) e)
        (record { room = put-Fits q i (q.queues i ++ cmd ∷ []) f (appended-length q i cmd y) }),
    ap (λ x. x.0) e,
    inl (
      sym (ap (λ x. x.0) e),
      subst (λ (x : CommandQueue). x.queues i ≡ q.queues i ++ cmd ∷ []) (ap (λ x. x.1) e)
          (put_self q.queues i (q.queues i ++ cmd ∷ [])),
      λ k ne.
          subst (λ (x : CommandQueue). x.queues k ≡ q.queues k) (ap (λ x. x.1) e)
            (put_ne q.queues i k (q.queues i ++ cmd ∷ []) ne),
      subst (λ (x : CommandQueue). x.rank_q_empty r ≡ false) (ap (λ x. x.1) e)
          (put_self q.rank_q_empty r false),
    ),
  )
  added-room q cmd i r false taken q' n f e = (
    subst (Fits config) (ap (λ x. x.1) e) f,
    ap (λ x. x.0) e,
    inr (sym (ap (λ x. x.0) e), sym (ap (λ x. x.1) e)),
  )

  -- What `WillAcceptCommand` says is what `AddCommand` does. When it says yes, the command becomes the
  -- last of the queue of its index, all other queues stay as they are, and the command's rank is noted
  -- as not empty; else everything stays as it is. Queues within their size stay within it.
  pub add_command-room :
      (q : CommandQueue) (cmd : Command) {taken : Bool} {q' : CommandQueue}
      → Fits config q
      → add_command config q cmd ≡ some (taken, q')
      → Fits config q'
        × (will_accept_command config q cmd.rank cmd.bankgroup cmd.bank ≡ some taken)
        × ((i : ℕ) × (r : ℕ) × (get_queue_index config cmd.rank cmd.bankgroup cmd.bank ≡ some i)
            × (index? cmd.rank ≡ some r)
            × Lengthened q cmd i r taken q')
  unfolding add_command will_accept_command
  add_command-room q cmd {taken} {q'} f e =
      let (i, e1, e2) = >>=_inv (get_queue_index config cmd.rank cmd.bankgroup cmd.bank) _ e in
      let (r, e3, e4) = >>=_inv (index? cmd.rank) _ e2 in
      let (fits, same, out) = added-room q cmd i r _ taken q' refl f (some-injective _ _ e4) in
      (fits, rw (e1, same), (i, r, e1, e3, out))

  take_out-Fits :
      (q : CommandQueue) (cmd : Command) {q' : CommandQueue}
      → Fits config q
      → take_out config q cmd ≡ some q'
      → Fits config q'
  unfolding take_out erase_rw_command
  take_out-Fits q cmd {q'} f e = elim (Bool-cases (is_read_write cmd)) [
    | inl y ↦
        let (i, e1, e2) =
          >>=_inv (get_queue_index config cmd.rank cmd.bankgroup cmd.bank) _ (rw y at e) in
        let (l, e3, e4) = >>=_inv (erase_from cmd (q.queues i)) _ e2 in
        subst (Fits config) (some-injective _ q' e4) (record {
          room = put-Fits q i l f (le_trans (erase_from-length cmd (q.queues i) e3) (f.room i));
        })
    | inr n ↦ subst (Fits config) (some-injective q q' (rw n at e)) f
  ]

  next-Fits : (q : CommandQueue) → Fits config q → Fits config (get_next_queue config q)
  unfolding get_next_queue
  next-Fits q f = record { room = f.room }

  -- A round at a queue that no refresh covers.
  abbrev pub searched : ℕ → CommandQueue → Outside → Option Found
  searched n q o = do
    (cmd, o') ← get_first_ready_in_queue config q.clk (q.queues q.queue_idx) o
    let rest = issue_loop config n q o'
    if is_valid cmd
        then (take_out config q cmd >>= λ q'. some (record { cmd = cmd; queue = q'; outside = o' }))
        else rest

  searched-Fits :
      (n : ℕ) (q : CommandQueue) (o : Outside) {found : Found}
      → Fits config q
      → ((o' : Outside) → issue_loop config n q o' ≡ some found → Fits config found.queue)
      → searched n q o ≡ some found
      → Fits config found.queue
  searched-Fits n q o f again e =
      let ((cmd, o'), _, e2) =
        >>=_inv (get_first_ready_in_queue config q.clk (q.queues q.queue_idx) o) _ e in
      elim (Bool-cases (is_valid cmd)) [
        | inl y ↦
            let (q', e3, e4) = >>=_inv (take_out config q cmd) _ (rw y at e2) in
            subst (λ (x : Found). Fits config x.queue) (some-injective _ _ e4)
              (take_out-Fits q cmd f e3)
        | inr n' ↦ again o' (rw n' at e2)
      ]

  issue_loop-Fits :
      (n : ℕ) (q : CommandQueue) (o : Outside) {found : Found}
      → Fits config q
      → issue_loop config n q o ≡ some found
      → Fits config found.queue
  unfolding issue_loop
  issue_loop-Fits zero q o f e = subst (λ (x : Found). Fits config x.queue) (some-injective _ _ e) f
  issue_loop-Fits (suc n) q o f e =
      let q' = get_next_queue config q in
      let f' = next-Fits q f in
      elim (Bool-cases (is_refreshing q')) [
        | inl y ↦ issue_loop-Fits n q' o f' (rw (y, issue_loop) at e)
        | inr n' ↦
            searched-Fits n q' o f' (λ o'. issue_loop-Fits n q' o' f') (rw (n', issue_loop) at e)
      ]

  begin-Fits :
      (q : CommandQueue) (ref : Command) {q' : CommandQueue}
      → Fits config q
      → begin_refresh config q ref ≡ some q'
      → Fits config q'
  unfolding get_ref_q_indices
  begin-Fits q ref f e = record { room = λ i. ground (arith, f.room i) }

  end-Fits :
      (q : CommandQueue) (cmd : Command) → Fits config q → Fits config (end_refresh config q cmd)
  end-Fits q cmd f = record { room = λ i. ground (arith, f.room i) }

  finish_refresh-Fits :
      (q : CommandQueue) (o : Outside) {found : Found}
      → Fits config q
      → finish_refresh config q o ≡ some found
      → Fits config found.queue
  unfolding finish_refresh
  finish_refresh-Fits q o f e =
      let (ref, _, e1) = >>=_inv (pending_ref_command o.channel) _ e in
      let (q', begun, e2) = >>=_inv (begin_refresh config q ref) _ e1 in
      let ((cmd, channel), _, e3) = >>=_inv (get_ready_command config o.channel ref q.clk) _ e2 in
      let f' = begin-Fits q ref f begun in
      subst (λ (x : Found). Fits config x.queue) (some-injective _ _ e3) (end-Fits q' cmd f')

  -- Every order of the queue's operations.
  pub data QueueRun : CommandQueue → Type 0 where
    start : {q : CommandQueue} → new_command_queue config.queue_structure ≡ some q → QueueRun q
    added :
        {q q' : CommandQueue} (cmd : Command) {taken : Bool}
        → QueueRun q
        → add_command config q cmd ≡ some (taken, q')
        → QueueRun q'
    issued :
        {q : CommandQueue} (o : Outside) {found : Found}
        → QueueRun q
        → get_command_to_issue config q o ≡ some found
        → QueueRun found.queue
    refreshed :
        {q : CommandQueue} (o : Outside) {found : Found}
        → QueueRun q
        → finish_refresh config q o ≡ some found
        → QueueRun found.queue
    ticked : {q : CommandQueue} → QueueRun q → QueueRun (clock_tick q)

  new-Fits : (t : QueueStructure) {q : CommandQueue} → new_command_queue t ≡ some q → Fits config q
  unfolding new_command_queue
  new-Fits t e = record { room = λ i. ground arith }

  run-Fits : {q : CommandQueue} → QueueRun q → Fits config q
  unfolding get_command_to_issue
  run-Fits (start e) = new-Fits config.queue_structure e
  run-Fits (added {q = q} cmd r e) = (add_command-room q cmd (run-Fits r) e).0
  run-Fits (issued {q = q} o r e) = issue_loop-Fits (num_queues config) q o (run-Fits r) e
  run-Fits (refreshed {q = q} o r e) = finish_refresh-Fits q o (run-Fits r) e
  run-Fits (ticked r) = record { room = (run-Fits r).room }

  -- In every run of the command queues, whatever is added, issued or refreshed, no queue is longer
  -- than the size that the configuration gives.
  pub queues_bounded :
      {q : CommandQueue} → QueueRun q → (i : ℕ) → length (q.queues i) ≤ config.cmd_queue_size
  queues_bounded r = (run-Fits r).room
