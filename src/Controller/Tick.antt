-- ===== src/Controller/Tick.antt =====
-- src/controller.cc: one cycle of a controller (`ClockTick` and `Calculate_stats`).
use latest_zsim_dramsim.Prelude.{
  ℕ, ◌+◌, Bool, true, false, not, ◌&&◌, ◌==◌, ltb, leb, if◌then◌else◌, pos, Option, none, some,
  ◌>>=◌, for_range, for_range?,
}
use latest_zsim_dramsim.Common.{
  CommandType, sref_enter, sref_exit, Command, no_address, no_command, is_valid, is_read_write, u64,
}
use latest_zsim_dramsim.Bank.{BankState, is_row_closed}
use latest_zsim_dramsim.Config.{Config}
use latest_zsim_dramsim.Timing.{Timing}
use latest_zsim_dramsim.Channel.{Grid, modify, put, is_all_bank_idle_in_rank, in_serve_bank_num}
use latest_zsim_dramsim.Channel.RefreshQueue.{is_refresh_waiting, no_hex_addr}
use latest_zsim_dramsim.Channel.Ready.{get_ready_command}
use latest_zsim_dramsim.Queue.{clock_tick}
use latest_zsim_dramsim.Queue.Arbiter.{Outside}
use latest_zsim_dramsim.Queue.Issue.{Found, get_command_to_issue, finish_refresh}
use latest_zsim_dramsim.Refresh
use latest_zsim_dramsim.Stats.{increment, increment_vec}
use latest_zsim_dramsim.Controller.{Controller}
use latest_zsim_dramsim.Controller.Issue.{issue_command}
use latest_zsim_dramsim.Controller.Schedule.{schedule_transaction}

abbrev pub outside : Controller → Outside
outside c = record { channel = c.channel; stats = c.stats }

-- The controller after a search for a command.
abbrev pub searched : Controller → Found → Controller
searched c f = record c { queue = f.queue; channel = f.outside.channel; stats = f.outside.stats }

-- The bank is no longer served once its time is over, or its row is closed.
abbrev pub expire_service : ℕ → BankState → BankState
expire_service clk b =
    let b' = if clk == u64 (b.serve_end_cycle + 1) then record b { in_serve = false } else b in
    if is_row_closed b' then record b' { in_serve = false } else b'

module _ (config : Config) where
  unfoldable pub expire_rank : ℕ → ℕ → Grid → Grid
  unfolding for_range
  expire_rank clk i g =
      for_range config.bankgroups 0
        (λ j g'.
          for_range config.banks_per_group 0 (λ k g''. modify g'' i j k (expire_service clk)) g')
        g

  -- The body of the loop of `Calculate_stats` over the ranks.
  unfoldable pub calculate_rank : ℕ → Controller → Controller
  unfolding expire_rank in_serve_bank_num
  calculate_rank i c =
      let s = record c.channel { bank_states = expire_rank c.clk i c.channel.bank_states } in
      let c' = record c { channel = s } in
      let serving = in_serve_bank_num config s i in
      if ltb 0 serving
      then record c' {
        is_active_cycles = true;
        concurrent_serve = u64 (c.concurrent_serve + serving);
      }
      else c'

  -- `Controller::Calculate_stats`
  unfoldable pub calculate_stats : Controller → Controller
  unfolding for_range calculate_rank
  calculate_stats c =
      for_range config.ranks 0 calculate_rank
        (record c { is_active_cycles = false; concurrent_serve = 0 })

  -- The power statistics of one rank.
  unfoldable pub power_rank : ℕ → Controller → Controller
  unfolding is_all_bank_idle_in_rank increment_vec
  power_rank i c =
      let s = c.channel in
      if s.rank_is_sref i
      then record c { stats = increment_vec "sref_cycles" i c.stats }
      else if is_all_bank_idle_in_rank config s i
      then record c {
        stats = increment_vec "all_bank_idle_cycles" i c.stats;
        channel = record s {
          rank_idle_cycles = put s.rank_idle_cycles i (s.rank_idle_cycles i + 1);
        };
      }
      else record c {
        stats = increment_vec "rank_active_cycles" i c.stats;
        channel = record s { rank_idle_cycles = put s.rank_idle_cycles i 0 };
      }

  -- A refresh goes first, if one is pending and ready; then the queues.
  unfoldable pub next_command : Controller → Option (Command × Controller)
  unfolding finish_refresh get_command_to_issue
  next_command c = do
    (cmd, c') ←
        if is_refresh_waiting c.channel
        then (finish_refresh config c.queue (outside c) >>= λ f. some (f.cmd, searched c f))
        else some (no_command, c)
    if is_valid cmd
        then some (cmd, c')
        else (get_command_to_issue config c'.queue (outside c') >>= λ f.
            some (f.cmd, searched c' f))

  -- The command that moves a rank into or out of self-refresh, where it should.
  abbrev pub sref_type : Controller → ℕ → Option CommandType
  sref_type c i =
      if c.channel.rank_is_sref i
      then (if not (c.queue.rank_q_empty i) then some sref_exit else none)
      else if c.queue.rank_q_empty i && leb config.sref_threshold (c.channel.rank_idle_cycles i)
      then some sref_enter
      else none

  abbrev pub sref_command : CommandType → ℕ → Command
  sref_command t i = record {
    cmd_type = t;
    addr = record no_address { rank = pos i };
    hex_addr = no_hex_addr;
  }

-- Both are reads or writes, or neither is.
abbrev pub same_kind : Command → Command → Bool
same_kind a b = if is_read_write a then is_read_write b else not (is_read_write b)

module _ (config : Config) (timing : Timing) where
  -- A second command in the cycle, on HBM, if one of the two is a read or write and one is not.
  unfoldable pub dual_command : Command → Controller → Option Controller
  unfolding get_command_to_issue issue_command increment
  dual_command cmd c = do
    f ← get_command_to_issue config c.queue (outside c)
    let c' = searched c f
    let second = f.cmd
    if is_valid second && not (same_kind second cmd)
        then (issue_command config timing c' second >>= λ c''.
            some (record c'' { stats = increment "hbm_dual_cmds" c''.stats }))
        else some c'

  -- The command of the cycle; the Boolean says that one was issued.
  unfoldable pub issue_next : Controller → Option (Bool × Controller)
  unfolding next_command issue_command dual_command
  issue_next c = do
    (cmd, c1) ← next_command config c
    if is_valid cmd
        then (do
          c2 ← issue_command config timing c1 cmd
          c3 ← if config.enable_hbm_dual_cmd then dual_command cmd c2 else some c2
          some (true, c3))
        else some (false, c1)

  -- One rank of the self-refresh loop; the Boolean says that the loop has ended by its `break`.
  unfoldable pub sref_rank : ℕ → Bool × Controller → Option (Bool × Controller)
  unfolding get_ready_command issue_command
  sref_rank i (true, c) = some (true, c)
  sref_rank i (false, c) = elim (sref_type config c i) [
    | none ↦ some (false, c)
    | some t ↦ (do
      (cmd, channel) ← get_ready_command config c.channel (sref_command config t i) c.clk
      let c' = record c { channel = channel }
      if is_valid cmd
          then (issue_command config timing c' cmd >>= λ c''. some (true, c''))
          else some (false, c'))
  ]

  unfoldable pub self_refresh : Controller → Option Controller
  unfolding for_range? sref_rank
  self_refresh c = for_range? config.ranks 0 sref_rank (false, c) >>= λ r. some r.1

  -- `Controller::ClockTick`
  unfoldable pub tick : Controller → Option Controller
  unfolding Refresh.clock_tick issue_next for_range power_rank self_refresh calculate_stats
      schedule_transaction increment
  tick c = do
    (r, s) ← Refresh.clock_tick config c.refresh c.channel
    (issued, c1) ← issue_next (record c { refresh = r; channel = s })
    let c2 = for_range config.ranks 0 (power_rank config) c1
    c3 ← if config.enable_self_refresh && not issued then self_refresh c2 else some c2
    c4 ← schedule_transaction config (calculate_stats config c3)
    some (record c4 {
      clk = u64 (c4.clk + 1);
      queue = clock_tick c4.queue;
      stats = increment "num_cycles" c4.stats;
    })
