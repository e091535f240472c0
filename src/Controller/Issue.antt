-- ===== src/Controller/Issue.antt =====
-- src/controller.cc: a command is issued (`IssueCommand` and `UpdateCommandStats`).
use latest_zsim_dramsim.Prelude.{
  ℕ, ◌+◌, Bool, true, false, not, ◌==◌, if◌then◌else◌, List, [], ◌∷◌, ◌++◌, map, Option, none, some,
  ◌>>=◌,
}
use latest_zsim_dramsim.Common.{
  CommandType, read, read_precharge, write, write_precharge, activate, precharge, refresh_bank,
  refresh, sref_enter, sref_exit, Command, Transaction, u64,
}
use latest_zsim_dramsim.Bank.{BankState}
use latest_zsim_dramsim.Config.{Config}
use latest_zsim_dramsim.Timing.{Timing}
use latest_zsim_dramsim.Channel.{ChannelState, Place, modify, place?}
use latest_zsim_dramsim.Channel.Update.{update_timing_and_states}
use latest_zsim_dramsim.Stats.{Stats, increment, add_value}
use latest_zsim_dramsim.Controller.{Controller, count, minus64}

-- The pending reads of an address leave the map, in order, for the return queue.
unfoldable pub reads_of : ℕ → List Transaction → List Transaction
reads_of addr [] = []
reads_of addr (t ∷ ts) = if t.addr == addr then t ∷ reads_of addr ts else reads_of addr ts

unfoldable pub reads_except : ℕ → List Transaction → List Transaction
reads_except addr [] = []
reads_except addr (t ∷ ts) =
    if t.addr == addr then reads_except addr ts else t ∷ reads_except addr ts

-- `find` and `erase`: the first transaction of an address, and the map without it.
unfoldable pub take_addr : ℕ → List Transaction → Option (Transaction × List Transaction)
take_addr addr [] = none
take_addr addr (t ∷ ts) =
    if t.addr == addr then some (t, ts) else (take_addr addr ts >>= λ (u, rest). some (u, t ∷ rest))

module _ (config : Config) where
  abbrev pub completed_at : ℕ → Transaction → Transaction
  completed_at cycle t = record t { complete_cycle = cycle }

  -- The reads that wait for the command's address are returned together; that there is none ends
  -- the process.
  unfoldable pub finish_reads : Controller → ℕ → Option (ℕ × Controller)
  unfolding count reads_of reads_except
  finish_reads c addr =
      let num_reads = count addr c.pending_rd_q in
      let cycle : ℕ = u64 (c.clk + config.read_delay) in
      if num_reads == 0
      then none
      else some (
        num_reads,
        record c {
          return_queue = c.return_queue ++ map (completed_at cycle) (reads_of addr c.pending_rd_q);
          pending_rd_q = reads_except addr c.pending_rd_q;
        },
      )

  -- The write that waits for the command's address is taken out.
  unfoldable pub finish_write : Controller → ℕ → Option (ℕ × Controller)
  unfolding take_addr add_value
  finish_write c addr = do
    (t, rest) ← take_addr addr c.pending_wr_q
    some (
      1,
      record c {
        stats =
            add_value "write_latency" (u64 (minus64 c.clk t.added_cycle + config.write_delay))
              c.stats;
        pending_wr_q = rest;
      },
    )

  -- The first part of `IssueCommand`: the transactions that the command completes, and how many.
  unfoldable pub finish_transactions : CommandType → Controller → Command → Option (ℕ × Controller)
  unfolding finish_reads finish_write
  finish_transactions read c cmd = finish_reads c cmd.hex_addr
  finish_transactions read_precharge c cmd = finish_reads c cmd.hex_addr
  finish_transactions write c cmd = finish_write c cmd.hex_addr
  finish_transactions write_precharge c cmd = finish_write c cmd.hex_addr
  finish_transactions _ c cmd = some (0, c)

  -- Whether the bank has served its row before.
  abbrev pub is_row_hit : Controller → Place → Bool
  is_row_hit c p = not ((c.channel.bank_states p.i p.j p.k).row_hit_count == 0)

  abbrev pub count_read : ℕ → Bool → Controller → Controller
  count_read n hit c =
      let c' = record c {
        stats = increment "num_read_cmds" c.stats;
        read_cmds = u64 (c.read_cmds + n);
      } in
      if hit
      then record c' {
        stats = increment "num_read_row_hits" c'.stats;
        read_row_hits = u64 (c.read_row_hits + n);
      }
      else c'

  abbrev pub count_write : ℕ → Bool → Controller → Controller
  count_write n hit c =
      let c' = record c {
        stats = increment "num_write_cmds" c.stats;
        write_cmds = u64 (c.write_cmds + n);
      } in
      if hit
      then record c' {
        stats = increment "num_write_row_hits" c'.stats;
        write_row_hits = u64 (c.write_row_hits + n);
      }
      else c'

  abbrev pub bump : Controller → Stats → Controller
  bump c stats = record c { stats = stats }

  -- `Controller::UpdateCommandStats`
  unfoldable pub update_command_stats : CommandType → Controller → Command → ℕ → Option Controller
  unfolding increment
  update_command_stats read c cmd n = do
    p ← place? config cmd.addr
    some (count_read n (is_row_hit c p) c)
  update_command_stats read_precharge c cmd n = do
    p ← place? config cmd.addr
    some (count_read n (is_row_hit c p) c)
  update_command_stats write c cmd n = do
    p ← place? config cmd.addr
    some (count_write n (is_row_hit c p) c)
  update_command_stats write_precharge c cmd n = do
    p ← place? config cmd.addr
    some (count_write n (is_row_hit c p) c)
  update_command_stats activate c cmd n = some (bump c (increment "num_act_cmds" c.stats))
  update_command_stats precharge c cmd n = some (bump c (increment "num_pre_cmds" c.stats))
  update_command_stats refresh c cmd n = some (bump c (increment "num_ref_cmds" c.stats))
  update_command_stats refresh_bank c cmd n = some (bump c (increment "num_refb_cmds" c.stats))
  update_command_stats sref_enter c cmd n = some (bump c (increment "num_srefe_cmds" c.stats))
  update_command_stats sref_exit c cmd n = some (bump c (increment "num_srefx_cmds" c.stats))
  update_command_stats CommandType.size c cmd n = none

  -- The last part of `IssueCommand`: which bank is in service, and until when.
  abbrev pub serve : CommandType → ℕ → BankState → BankState
  serve read clk b = record b { in_serve = true; serve_end_cycle = u64 (clk + config.read_delay) }
  serve read_precharge clk b = record b {
    in_serve = true;
    serve_end_cycle = u64 (clk + config.read_delay);
  }
  serve activate clk b = if not b.activate_by_who then record b { in_serve = true } else b
  serve precharge clk b = if b.precharge_by_refresh then record b { in_serve = true } else b
  serve _ clk b = b

  abbrev pub is_served : CommandType → Bool
  is_served read = true
  is_served read_precharge = true
  is_served activate = true
  is_served precharge = true
  is_served _ = false

  unfoldable pub mark_service : ChannelState → Command → ℕ → Option ChannelState
  mark_service s cmd clk =
      if is_served cmd.cmd_type
      then (do
        p ← place? config cmd.addr
        some (record s { bank_states = modify s.bank_states p.i p.j p.k (serve cmd.cmd_type clk) }))
      else some s

-- `Controller::IssueCommand`
unfoldable pub issue_command : Config → Timing → Controller → Command → Option Controller
unfolding finish_transactions update_command_stats update_timing_and_states mark_service
issue_command config timing c cmd = do
  (n, c1) ← finish_transactions config cmd.cmd_type c cmd
  c2 ← update_command_stats config cmd.cmd_type c1 cmd n
  s ← update_timing_and_states config timing c2.channel cmd c2.clk
  s' ← mark_service config s cmd c2.clk
  some (record c2 { channel = s' })
