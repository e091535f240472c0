-- ===== src/Tests/Queue.antt =====
-- Queues of concrete commands.
use latest_zsim_dramsim.Prelude.{
  ◌≤◌, ◌≡◌, ◌⊎◌, refl, List, [], ◌∷◌, ◌++◌, length, some, none, All, true, false, ◌&&◌, eq_ℤ, pos,
  ℕ, index?, arith,
}
use latest_zsim_dramsim.Common.{read, write, precharge, Command}
use latest_zsim_dramsim.Channel.{ChannelState, Place, place?, modify, put}
use latest_zsim_dramsim.Channel.Ready.{get_ready_command}
use latest_zsim_dramsim.Stats.{new_stats}
use latest_zsim_dramsim.Queue.{
  CommandQueue, get_queue_index, new_command_queue, add_command, will_accept_command, erase_from,
}
use latest_zsim_dramsim.Queue.Erase.{matches, Erased, erase_from-cases}
use latest_zsim_dramsim.Queue.Room.{
  Fits, start, added, Lengthened, add_command-room, queues_bounded,
}
use latest_zsim_dramsim.Queue.Issue.{get_command_to_issue}
use latest_zsim_dramsim.Queue.Covered.{FromFree, covered_queues_wait}
use latest_zsim_dramsim.Queue.Arbiter.{Outside, same_bank, get_first_ready_in_queue}
use latest_zsim_dramsim.Queue.Arbiter.Safety.{conflicts, write_after_reads, precharge_allowed}
use latest_zsim_dramsim.Tests.Sample.{config, no_queue, at, open_bank, open_channel}

abbrev outside : Outside
outside = record { channel = open_channel; stats = new_stats }

-- The channel when both commands have been looked at.
abbrev seen : ChannelState
seen = record open_channel {
  bank_states =
      modify (modify open_channel.bank_states 0 0 1 (λ b. open_bank)) 0 0 0 (λ b. open_bank);
}

-- The channel when the bank notes that a miss closes its row.
abbrev missed : ChannelState
missed = record open_channel {
  bank_states =
      modify open_channel.bank_states 0 0 0 (λ b. record open_bank { precharge_by_refresh = true });
}

-- A read that is not ready yet, and a write.
abbrev two : List Command
two = at read 0 1 5 0 ∷ at write 0 0 5 0 ∷ []

write_after_reads_example :
    (before : List Command) × (it : Command) × (after : List Command) × (asked : ChannelState)
    × (two ≡ before ++ it ∷ after)
    × (get_ready_command config asked it 10 ≡ some (at write 0 0 5 0, seen))
    × All (λ c. conflicts config 10 it c ≡ false) before
unfolding get_first_ready_in_queue
write_after_reads_example = write_after_reads config 10 two outside refl refl

-- The command that closes the row.
abbrev closing : Command
closing = record (at read 0 0 6 0) { cmd_type = precharge }

-- A read of another row.
abbrev miss : List Command
miss = at read 0 0 6 0 ∷ []

precharge_allowed_example :
    (before : List Command) × (it : Command) × (after : List Command) × (asked : ChannelState)
    × (p : Place) × (miss ≡ before ++ it ∷ after)
    × (get_ready_command config asked it 10 ≡ some (closing, missed))
    × (place? config it.addr ≡ some p)
    × All (λ c. same_bank c it ≡ false) before
    × (All
          (λ c. eq_ℤ c.row (missed.bank_states p.i p.j p.k).open_row && same_bank c it ≡ false)
          (it ∷ after)
        ⊎ (4 ≤ (missed.bank_states p.i p.j p.k).row_hit_count))
unfolding get_first_ready_in_queue
precharge_allowed_example = precharge_allowed config 10 miss outside refl refl

erase_from-cases_example :
    ((erase_from (at write 0 0 5 0) two ≡ none)
      × All (λ c. matches (at write 0 0 5 0) c ≡ false) two)
    ⊎ ((rest : List Command) × (erase_from (at write 0 0 5 0) two ≡ some rest)
        × Erased (at write 0 0 5 0) two rest)
erase_from-cases_example = erase_from-cases (at write 0 0 5 0) two

-- The queues with one command added.
abbrev one : CommandQueue
one = record {
  rank_q_empty = put (λ i. true) 0 false;
  queues = put (λ i. []) 0 (at read 0 0 5 0 ∷ []);
  ref_q_indices = [];
  is_in_ref = false;
  queue_idx = 0;
  clk = 0;
}

queues_bounded_example : length (one.queues 0) ≤ 8
unfolding new_command_queue add_command
queues_bounded_example =
    queues_bounded config (added {q' = one} (at read 0 0 5 0) (start {q = no_queue} refl) refl) 0

add_command-room_example :
    Fits config one
    × (will_accept_command config no_queue (pos 0) (pos 0) (pos 0) ≡ some true)
    × ((i : ℕ) × (r : ℕ) × (get_queue_index config (pos 0) (pos 0) (pos 0) ≡ some i)
        × (index? (pos 0) ≡ some r)
        × Lengthened config no_queue (at read 0 0 5 0) i r true one)
unfolding add_command
add_command-room_example =
    add_command-room config no_queue (at read 0 0 5 0) (record { room = λ i. omega arith }) refl

-- A refresh covers queue 1, and queues 1 and 2 have a write each.
abbrev covering : CommandQueue
covering = record no_queue {
  queues = put (put (λ i. []) 1 (at write 0 1 5 0 ∷ [])) 2 (at write 0 2 5 0 ∷ []);
  ref_q_indices = 1 ∷ [];
  is_in_ref = true;
}

-- The channel when the write of queue 2 has been looked at.
abbrev served : Outside
served = record outside {
  channel = record open_channel {
    bank_states = modify open_channel.bank_states 0 0 2 (λ b. open_bank);
  };
}

covered_queues_wait_example : FromFree config covering (record {
  cmd = at write 0 2 5 0;
  queue = record covering { queue_idx = 2; queues = put covering.queues 2 [] };
  outside = served;
})
unfolding get_command_to_issue
covered_queues_wait_example = covered_queues_wait config covering outside refl refl
