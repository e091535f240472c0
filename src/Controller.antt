-- ===== src/Controller.antt =====
-- src/controller.h and src/controller.cc: the controller of one channel, its transaction queues and
-- what it accepts and returns. The two multimaps from addresses are lists in the order of
-- insertion. The vectors are reserved at `trans_queue_size` and the caller asks before it adds, so
-- that size is their capacity.
pub mod Issue
pub mod Schedule
pub mod Tick
pub mod Accounts
pub mod Steady
pub mod Kinds
pub mod Times
pub mod Runs
pub mod Scheduled
pub mod Cycle
pub mod WakeUp
pub mod Merge
pub mod Finish
use latest_zsim_dramsim.Prelude.{
  ℕ, suc, ◌+◌, ◌-◌, ◌^◌, Bool, true, false, not, ◌&&◌, ◌||◌, ◌==◌, ltb, leb, if◌then◌else◌, List,
  [], ◌∷◌, ◌++◌, length, ℤ, pos, Option, none, some, ◌>>=◌,
}
use latest_zsim_dramsim.Common.{
  CommandType, read, read_precharge, write, write_precharge, Command, Transaction, u64,
}
use latest_zsim_dramsim.Config.{Config}
use latest_zsim_dramsim.Config.Mapping.{address_mapping}
use latest_zsim_dramsim.Channel.{ChannelState, new_channel}
use latest_zsim_dramsim.Queue.{CommandQueue, new_command_queue}
use latest_zsim_dramsim.Refresh.{Refresh, new_refresh}
use latest_zsim_dramsim.Stats.{Stats, new_stats, increment, add_value}

pub record Controller : Type 0 where
  pub clk : ℕ
  pub stats : Stats
  pub channel : ChannelState
  pub queue : CommandQueue
  pub refresh : Refresh
  pub concurrent_serve : ℕ
  pub is_active_cycles : Bool
  pub read_cmds : ℕ
  pub write_cmds : ℕ
  pub read_row_hits : ℕ
  pub write_row_hits : ℕ
  pub unified_queue : List Transaction
  pub read_queue : List Transaction
  pub write_buffer : List Transaction
  pub pending_rd_q : List Transaction
  pub pending_wr_q : List Transaction
  pub return_queue : List Transaction
  pub last_trans_clk : ℕ
  pub write_draining : ℤ

-- `Controller::Controller`
abbrev pub new_controller : Config → CommandQueue → Controller
new_controller config q = record {
  clk = 0;
  stats = new_stats;
  channel = new_channel;
  queue = q;
  refresh = new_refresh config;
  concurrent_serve = 0;
  is_active_cycles = false;
  read_cmds = 0;
  write_cmds = 0;
  read_row_hits = 0;
  write_row_hits = 0;
  unified_queue = [];
  read_queue = [];
  write_buffer = [];
  pending_rd_q = [];
  pending_wr_q = [];
  return_queue = [];
  last_trans_clk = 0;
  write_draining = pos 0;
}

-- `multimap::count`: how many transactions wait for an address.
unfoldable pub count : ℕ → List Transaction → ℕ
count addr [] = 0
count addr (t ∷ ts) = if t.addr == addr then suc (count addr ts) else count addr ts

-- `clk_ - added_cycle`, an unsigned difference.
abbrev pub minus64 : ℕ → ℕ → ℕ
minus64 a b = u64 (a + (2 ^ 64 - b))

-- The loop of `ReturnDoneTrans`: the first transaction that is complete, and the others.
unfoldable pub take_done : ℕ → List Transaction → Option (Transaction × List Transaction)
take_done clk [] = none
take_done clk (t ∷ ts) =
    if leb t.complete_cycle clk
    then some (t, ts)
    else (take_done clk ts >>= λ (u, rest). some (u, t ∷ rest))

abbrev pub count_done : Transaction → Controller → Controller
count_done t c =
    if t.is_write then record c { stats = increment "num_writes_done" c.stats } else record c {
      stats =
          add_value "read_latency" (minus64 c.clk t.added_cycle)
            (increment "num_reads_done" c.stats);
    }

-- `Controller::ReturnDoneTrans`; `none` stands for the pair (-1, -1).
unfoldable pub return_done_trans : Controller → ℕ → Option (ℕ × Bool) × Controller
unfolding take_done increment add_value
return_done_trans c clk = elim (take_done clk c.return_queue) [
  | none ↦ (none, c)
  | some (t, rest) ↦ (some (t.addr, t.is_write), record (count_done t c) { return_queue = rest })
]

module _ (config : Config) where
  -- `Controller::WillAcceptTransaction`
  unfoldable pub will_accept_transaction : Controller → Bool → Bool
  will_accept_transaction c is_write =
      if config.unified_queue
      then ltb (length c.unified_queue) config.trans_queue_size
      else if not is_write
      then ltb (length c.read_queue) config.trans_queue_size
      else ltb (length c.write_buffer) config.trans_queue_size

  -- A transaction enters the queue that it will be scheduled from.
  abbrev pub enqueue : Transaction → Controller → Controller
  enqueue t c =
      if config.unified_queue
      then record c { unified_queue = c.unified_queue ++ t ∷ [] }
      else if t.is_write
      then record c { write_buffer = c.write_buffer ++ t ∷ [] }
      else record c { read_queue = c.read_queue ++ t ∷ [] }

  -- A transaction that needs no command is done in the next cycle.
  abbrev pub complete_next : Transaction → Controller → Controller
  complete_next t c = record c {
    return_queue = c.return_queue ++ record t { complete_cycle = u64 (c.clk + 1) } ∷ [];
  }

  -- A write is merged with one that waits for the same address.
  unfoldable pub add_write : Transaction → Controller → Controller
  unfolding count
  add_write t c = complete_next t (
      if count t.addr c.pending_wr_q == 0
      then enqueue t (record c { pending_wr_q = c.pending_wr_q ++ t ∷ [] })
      else c)

  -- A read is served from the writes that wait, or waits itself; only the first of an address
  -- enters the queue.
  unfoldable pub add_read : Transaction → Controller → Controller
  unfolding count
  add_read t c =
      if ltb 0 (count t.addr c.pending_wr_q)
      then complete_next t c
      else (let c' = record c { pending_rd_q = c.pending_rd_q ++ t ∷ [] } in
          if count t.addr c'.pending_rd_q == 1 then enqueue t c' else c')

  -- `Controller::AddTransaction`
  unfoldable pub add_transaction : Controller → Transaction → Controller
  unfolding add_write add_read add_value
  add_transaction c trans =
      let t = record trans { added_cycle = c.clk } in
      let c' = record c {
        stats = add_value "interarrival_latency" (minus64 c.clk c.last_trans_clk) c.stats;
        last_trans_clk = c.clk;
      } in
      if t.is_write then add_write t c' else add_read t c'

  abbrev pub command_type : Bool → Bool → CommandType
  command_type close_page is_write =
      if close_page
      then (if is_write then write_precharge else read_precharge)
      else (if is_write then write else read)

  -- `Controller::TransToCommand`
  unfoldable pub trans_to_command : Transaction → Command
  unfolding address_mapping
  trans_to_command t = record {
    cmd_type = command_type config.close_page t.is_write;
    addr = address_mapping config t.addr;
    hex_addr = t.addr;
  }
