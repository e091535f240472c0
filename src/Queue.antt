-- ===== src/Queue.antt =====
-- src/command_queue.h and src/command_queue.cc: the queues of commands that wait for their bank.
pub mod Arbiter
pub mod Erase
pub mod Room
pub mod Covered
pub mod Issue
use latest_zsim_dramsim.Prelude.{
  ℕ, suc, zero, ◌+◌, ◌*◌, ◌/◌, Bool, true, false, not, ◌&&◌, ◌||◌, ◌==◌, ltb, if◌then◌else◌, List,
  [], ◌∷◌, ◌++◌, length, ℤ, index?, eq_ℤ, Option, none, some, ◌>>=◌, for_range,
}
use latest_zsim_dramsim.Common.{Address, Command, CommandType, refresh, same_type, u64}
use latest_zsim_dramsim.Config.{Config, QueueStructure, per_rank, per_bank, other_structure}
use latest_zsim_dramsim.Channel.{put}

-- `ref_q_indices_` is a set, held as the list of its members.
pub record CommandQueue : Type 0 where
  pub rank_q_empty : ℕ → Bool
  pub queues : ℕ → List Command
  pub ref_q_indices : List ℕ
  pub is_in_ref : Bool
  pub queue_idx : ℕ
  pub clk : ℕ

abbrev new_queue : CommandQueue
new_queue = record {
  rank_q_empty = λ _. true;
  queues = λ _. [];
  ref_q_indices = [];
  is_in_ref = false;
  queue_idx = 0;
  clk = 0;
}

-- `CommandQueue::CommandQueue` exits at a structure that it does not know.
unfoldable pub new_command_queue : QueueStructure → Option CommandQueue
new_command_queue per_bank = some new_queue
new_command_queue per_rank = some new_queue
new_command_queue other_structure = none

abbrev pub queue_count : QueueStructure → Config → ℕ
queue_count per_bank c = c.banks * c.ranks
queue_count per_rank c = c.ranks
queue_count other_structure c = 0

abbrev pub is_member : ℕ → List ℕ → Bool
is_member n [] = false
is_member n (m ∷ ms) = (m == n) || is_member n ms

module _ (config : Config) where
  abbrev pub num_queues : ℕ
  num_queues = queue_count config.queue_structure config

  abbrev index_in : QueueStructure → ℤ → ℤ → ℤ → Option ℕ
  index_in per_rank rank bankgroup bank = index? rank
  index_in _ rank bankgroup bank = do
    r ← index? rank
    g ← index? bankgroup
    b ← index? bank
    some (r * config.banks + g * config.banks_per_group + b)

  -- `CommandQueue::GetQueueIndex`, with the range of `queues_`.
  unfoldable pub get_queue_index : ℤ → ℤ → ℤ → Option ℕ
  get_queue_index rank bankgroup bank = do
    i ← index_in config.queue_structure rank bankgroup bank
    if ltb i num_queues then some i else none

  -- `CommandQueue::WillAcceptCommand`
  unfoldable pub will_accept_command : CommandQueue → ℤ → ℤ → ℤ → Option Bool
  unfolding get_queue_index
  will_accept_command q rank bankgroup bank = do
    i ← get_queue_index rank bankgroup bank
    some (ltb (length (q.queues i)) config.cmd_queue_size)

  -- `CommandQueue::QueueEmpty`
  unfoldable pub queue_empty : CommandQueue → Bool
  unfolding for_range
  queue_empty q = for_range num_queues 0 (λ i e. e && (length (q.queues i) == 0)) true

  -- `CommandQueue::QueueUsage`
  unfoldable pub queue_usage : CommandQueue → ℕ
  unfolding for_range
  queue_usage q = for_range num_queues 0 (λ i usage. usage + length (q.queues i)) 0

  abbrev pub append_command : ℕ → Command → ℕ → CommandQueue → CommandQueue
  append_command i cmd r q = record q {
    queues = put q.queues i (q.queues i ++ cmd ∷ []);
    rank_q_empty = put q.rank_q_empty r false;
  }

  -- `CommandQueue::AddCommand`; the Boolean says whether there was room.
  unfoldable pub add_command : CommandQueue → Command → Option (Bool × CommandQueue)
  unfolding get_queue_index
  add_command q cmd = do
    i ← get_queue_index cmd.rank cmd.bankgroup cmd.bank
    r ← index? cmd.rank
    some (
        if ltb (length (q.queues i)) config.cmd_queue_size
        then (true, append_command i cmd r q)
        else (false, q))

  -- `CommandQueue::GetNextQueue` moves on to the next queue, round robin.
  unfoldable pub get_next_queue : CommandQueue → CommandQueue
  get_next_queue q =
      let i : ℕ = q.queue_idx + 1 in record q { queue_idx = if i == num_queues then 0 else i }

  abbrev ref_indices : QueueStructure → Command → List ℕ → List ℕ
  ref_indices per_bank ref set =
      for_range num_queues 0
        (λ i set'. if eq_ℤ (ℤ.pos (i / config.banks)) ref.rank then i ∷ set' else set') set
  ref_indices _ ref set = elim (index? ref.rank) [ some r ↦ r ∷ set | none ↦ set ]

  -- `CommandQueue::GetRefQIndices`
  unfoldable pub get_ref_q_indices : CommandQueue → Command → Option CommandQueue
  unfolding get_queue_index for_range
  get_ref_q_indices q ref =
      if same_type ref.cmd_type refresh
      then some
          (record q { ref_q_indices = ref_indices config.queue_structure ref q.ref_q_indices })
      else (do
        i ← get_queue_index ref.rank ref.bankgroup ref.bank
        some (record q { ref_q_indices = i ∷ q.ref_q_indices }))

-- The loop of `EraseRWCommand`; a command that is not there ends the process.
unfoldable pub erase_from : Command → List Command → Option (List Command)
erase_from cmd [] = none
erase_from cmd (c ∷ cs) =
    if (cmd.hex_addr == c.hex_addr) && same_type cmd.cmd_type c.cmd_type
    then some cs
    else (erase_from cmd cs >>= λ rest. some (c ∷ rest))

-- `CommandQueue::EraseRWCommand`
unfoldable pub erase_rw_command : Config → CommandQueue → Command → Option CommandQueue
unfolding get_queue_index erase_from
erase_rw_command config q cmd = do
  i ← get_queue_index config cmd.rank cmd.bankgroup cmd.bank
  rest ← erase_from cmd (q.queues i)
  some (record q { queues = put q.queues i rest })

-- `CommandQueue::ClockTick`
abbrev pub clock_tick : CommandQueue → CommandQueue
clock_tick q = record q { clk = u64 (q.clk + 1) }
