-- ===== src/Tests/Controller.antt =====
-- A controller at concrete transactions.
use latest_zsim_dramsim.Prelude.{
  ◌+◌, ◌<◌, ◌≡◌, ◌⊎◌, refl, List, [], ◌∷◌, ◌++◌, length, none, some, All, true, false, arith, ◌==◌,
  if◌then◌else◌,
}
use latest_zsim_dramsim.Common.{Transaction, u64}
use latest_zsim_dramsim.Config.{Config}
use latest_zsim_dramsim.Channel.{new_channel}
use latest_zsim_dramsim.Channel.RefreshQueue.{is_refresh_waiting}
use latest_zsim_dramsim.Queue.{new_command_queue}
use latest_zsim_dramsim.Controller.{
  Controller, count, new_controller, return_done_trans, add_transaction, will_accept_transaction,
}
use latest_zsim_dramsim.Controller.Issue.{finish_reads}
use latest_zsim_dramsim.Controller.Tick.{tick, issue_next, power_rank}
use latest_zsim_dramsim.Refresh.{clock_tick}
use latest_zsim_dramsim.Controller.Accounts.{Done, return_done_trans-cases}
use latest_zsim_dramsim.Controller.Runs.{
  start, added, asked, ticked, no_transaction_lost, one_pending_write,
}
use latest_zsim_dramsim.Controller.Merge.{OneWrite, WithinRoom, add_transaction-room}
use latest_zsim_dramsim.Controller.Finish.{ReadyAt, finish_reads-exact}
use latest_zsim_dramsim.Controller.WakeUp.{asleep_idle-none}
use latest_zsim_dramsim.Tests.Sample.{config, no_queue, timing, a_read, a_write}

abbrev fresh : Controller
fresh = new_controller config no_queue

-- A write is done in the next cycle, so the second question is answered; a read waits beside it.
no_transaction_lost_example : 1 ≡ 1 + 0
unfolding new_command_queue add_transaction return_done_trans tick is_refresh_waiting
no_transaction_lost_example =
    no_transaction_lost config timing
      (asked 1 (
        ticked (asked 0 (added (a_read 128) (added (a_write 64) (start {q = no_queue} refl))))
          refl))
      64 true

-- Two writes of one address.
one_pending_write_example :
    OneWrite (add_transaction config (add_transaction config fresh (a_write 64)) (a_write 64))
unfolding new_command_queue
one_pending_write_example =
    one_pending_write config timing
      (added (a_write 64) (added (a_write 64) (start {q = no_queue} refl)))

-- Two reads of one address and one of another wait.
abbrev waiting : Controller
waiting = record fresh { clk = 7; pending_rd_q = a_read 64 ∷ a_read 128 ∷ a_read 64 ∷ [] }

finish_reads-exact_example :
    (new : List Transaction) × (record (a_read 64) { complete_cycle = 26 }
        ∷ record (a_read 64) { complete_cycle = 26 }
        ∷ []
      ≡ [] ++ new)
    × (length new ≡ 2)
    × (2 ≡ count 64 waiting.pending_rd_q)
    × All (ReadyAt 64 (u64 (7 + 19))) new
    × (count 128 (a_read 128 ∷ []) ≡ (if 128 == 64 then 0 else count 128 waiting.pending_rd_q))
unfolding finish_reads
finish_reads-exact_example = finish_reads-exact config waiting 64 128 refl

-- One transaction is complete at cycle 5, one is not.
abbrev returning : Controller
returning = record fresh {
  return_queue =
      record (a_read 64) { complete_cycle = 9 } ∷ record (a_read 128) { complete_cycle = 5 } ∷ [];
}

return_done_trans-cases_example :
    ((return_done_trans returning 5 ≡ (none, returning))
      × All (λ u. 5 < u.complete_cycle) returning.return_queue)
    ⊎ ((t : Transaction) × ((return_done_trans returning 5).0 ≡ some (t.addr, t.is_write))
        × Done 5 returning.return_queue t (return_done_trans returning 5).1.return_queue)
return_done_trans-cases_example = return_done_trans-cases returning 5

add_transaction-room_example : WithinRoom config (add_transaction config fresh (a_write 64))
unfolding will_accept_transaction
add_transaction-room_example =
    add_transaction-room config fresh (a_write 64)
      (record { unified = omega arith; reads = omega arith; writes = omega arith }) refl

-- Rank 0 sleeps, and a command waits for it.
abbrev asleep : Controller
asleep = record fresh {
  channel = record new_channel { rank_is_sref = λ i. true };
  queue = record no_queue { rank_q_empty = λ i. false };
}

abbrev saving : Config
saving = record config { system = record config.system { enable_self_refresh = true } }

asleep_idle-none_example : tick saving timing asleep ≡ none
unfolding issue_next is_refresh_waiting clock_tick power_rank
asleep_idle-none_example =
    asleep_idle-none saving timing asleep 0 refl refl refl (omega arith) (omega arith) (omega arith)
      refl refl (λ k h. absurd (omega arith))
