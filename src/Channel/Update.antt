-- ===== src/Channel/Update.antt =====
-- src/channel_state.cc: what an issued command does to the banks (`UpdateState` and
-- `UpdateTimingAndStates`).
pub mod Branches
use latest_zsim_dramsim.Prelude.{ℕ, true, false, if◌then◌else◌, Option, some, ◌>>=◌, for_range?}
use latest_zsim_dramsim.Common.{
  CommandType, refresh, sref_enter, sref_exit, Command, is_rank_cmd, is_refresh,
}
use latest_zsim_dramsim.Bank
use latest_zsim_dramsim.Config.{Config}
use latest_zsim_dramsim.Timing.{Timing}
use latest_zsim_dramsim.Channel.{Grid, ChannelState, modify, Place, put, rank?, place?}
use latest_zsim_dramsim.Channel.RefreshQueue.{rank_need_refresh, bank_need_refresh}
use latest_zsim_dramsim.Channel.Delays.{update_timing}

-- `bank_states_[i][j][k].UpdateState(cmd)`
unfoldable pub update_bank : Command → Place → Grid → Option Grid
unfolding Bank.update_state
update_bank cmd p g = do
  b ← Bank.update_state (g p.i p.j p.k) cmd
  some (modify g p.i p.j p.k (λ _. b))

module _ (config : Config) where
  unfoldable pub update_banks : Command → ℕ → Grid → Option Grid
  unfolding for_range? update_bank
  update_banks cmd i g =
      for_range? config.bankgroups 0
        (λ j g'.
          for_range? config.banks_per_group 0
            (λ k g''. update_bank cmd (record { i = i; j = j; k = k }) g'') g')
        g

  -- The bookkeeping of a rank command, behind the banks.
  abbrev pub settle_rank : CommandType → ℕ → Command → ChannelState → ChannelState
  settle_rank refresh i cmd s = rank_need_refresh s cmd.rank false
  settle_rank sref_enter i cmd s = record s { rank_is_sref = put s.rank_is_sref i true }
  settle_rank sref_exit i cmd s = record s { rank_is_sref = put s.rank_is_sref i false }
  settle_rank _ i cmd s = s

  abbrev pub settle_bank : Command → ChannelState → ChannelState
  settle_bank cmd s =
      if is_refresh cmd then bank_need_refresh s cmd.rank cmd.bankgroup cmd.bank false else s

  unfoldable pub update_rank_state : ChannelState → Command → Option ChannelState
  unfolding update_banks rank_need_refresh
  update_rank_state s cmd = do
    i ← rank? config cmd.rank
    g ← update_banks cmd i s.bank_states
    some (settle_rank cmd.cmd_type i cmd (record s { bank_states = g }))

  unfoldable pub update_bank_state : ChannelState → Command → Option ChannelState
  unfolding update_bank bank_need_refresh
  update_bank_state s cmd = do
    p ← place? config cmd.addr
    g ← update_bank cmd p s.bank_states
    some (settle_bank cmd (record s { bank_states = g }))

  -- `ChannelState::UpdateState`
  unfoldable pub update_state : ChannelState → Command → Option ChannelState
  unfolding update_rank_state update_bank_state
  update_state s cmd = if is_rank_cmd cmd then update_rank_state s cmd else update_bank_state s cmd

-- `ChannelState::UpdateTimingAndStates`
unfoldable pub update_timing_and_states :
    Config → Timing → ChannelState → Command → ℕ → Option ChannelState
unfolding update_state update_timing
update_timing_and_states config timing s cmd clk = do
  s' ← update_state config s cmd
  update_timing config timing s' cmd clk
