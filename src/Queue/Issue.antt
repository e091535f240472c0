-- ===== src/Queue/Issue.antt =====
-- src/command_queue.cc: the command that a channel issues next (`GetCommandToIssue` and
-- `FinishRefresh`).
use latest_zsim_dramsim.Prelude.{
  ℕ, zero, suc, Bool, true, false, ◌&&◌, if◌then◌else◌, [], Option, some, ◌>>=◌,
}
use latest_zsim_dramsim.Common.{Command, no_command, is_valid, is_refresh, is_read_write}
use latest_zsim_dramsim.Config.{Config}
use latest_zsim_dramsim.Channel.RefreshQueue.{pending_ref_command}
use latest_zsim_dramsim.Channel.Ready.{get_ready_command}
use latest_zsim_dramsim.Queue.{
  CommandQueue, num_queues, is_member, get_next_queue, get_ref_q_indices, erase_rw_command,
}
use latest_zsim_dramsim.Queue.Arbiter.{Outside, get_first_ready_in_queue}

-- The command found, the queues, and what they work on.
pub record Found : Type 0 where
  pub cmd : Command
  pub queue : CommandQueue
  pub outside : Outside

-- Queues that a pending refresh covers are passed over.
abbrev pub is_refreshing : CommandQueue → Bool
is_refreshing q = q.is_in_ref && is_member q.queue_idx q.ref_q_indices

module _ (config : Config) where
  -- A read or write leaves its queue when it is issued.
  unfoldable pub take_out : CommandQueue → Command → Option CommandQueue
  unfolding erase_rw_command
  take_out q cmd = if is_read_write cmd then erase_rw_command config q cmd else some q

  -- The loop of `GetCommandToIssue`, with the rounds left.
  unfoldable pub issue_loop : ℕ → CommandQueue → Outside → Option Found
  unfolding take_out get_next_queue get_first_ready_in_queue
  issue_loop zero q o = some (record { cmd = no_command; queue = q; outside = o })
  issue_loop (suc n) q o =
      let q' = get_next_queue config q in
      elim (is_refreshing q') [
        | true ↦ issue_loop n q' o
        | false ↦ (do
          (cmd, o') ← get_first_ready_in_queue config q'.clk (q'.queues q'.queue_idx) o
          let rest = issue_loop n q' o'
          if is_valid cmd
              then (take_out q' cmd >>= λ q''.
                  some (record { cmd = cmd; queue = q''; outside = o' }))
              else rest)
      ]

  -- `CommandQueue::GetCommandToIssue`
  unfoldable pub get_command_to_issue : CommandQueue → Outside → Option Found
  unfolding issue_loop
  get_command_to_issue q o = issue_loop (num_queues config) q o

  abbrev pub begin_refresh : CommandQueue → Command → Option CommandQueue
  begin_refresh q ref =
      if q.is_in_ref
      then some q
      else (get_ref_q_indices config q ref >>= λ q'. some (record q' { is_in_ref = true }))

  abbrev pub end_refresh : CommandQueue → Command → CommandQueue
  end_refresh q cmd =
      if is_refresh cmd then record q { ref_q_indices = []; is_in_ref = false } else q

  -- `CommandQueue::FinishRefresh`
  unfoldable pub finish_refresh : CommandQueue → Outside → Option Found
  unfolding pending_ref_command get_ref_q_indices get_ready_command
  finish_refresh q o = do
    ref ← pending_ref_command o.channel
    q' ← begin_refresh q ref
    (cmd, channel) ← get_ready_command config o.channel ref q.clk
    some
        (record { cmd = cmd; queue = end_refresh q' cmd; outside = record o { channel = channel } })
