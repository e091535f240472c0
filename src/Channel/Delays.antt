-- ===== src/Channel/Delays.antt =====
-- src/channel_state.cc: what an issued command makes the other commands wait (`UpdateTiming`).
pub mod Dispatch
pub mod Slower
pub mod Bounds
pub mod Separation
pub mod RefreshBank
use latest_zsim_dramsim.Prelude.{
  ℕ, suc, ◌+◌, ◌-◌, ◌%◌, ◌^◌, not, ◌==◌, if◌then◌else◌, [], ◌∷◌, ℤ, pos, negsuc, Option, none, some,
  ◌>>=◌, for_range,
}
use latest_zsim_dramsim.Common.{CommandType, activate, refresh, sref_enter, sref_exit, Command, u64}
use latest_zsim_dramsim.Bank
use latest_zsim_dramsim.Bank.{BankState}
use latest_zsim_dramsim.Config.{Config}
use latest_zsim_dramsim.Timing.{Timing, Delays}
use latest_zsim_dramsim.Channel.{Grid, ChannelState, modify, Place, rank?, place?}
use latest_zsim_dramsim.Channel.Windows.{update_activation_times}

-- `clk + cmd_timing.second`: an `int` added to a `uint64_t`.
abbrev pub add_time : ℕ → ℤ → ℕ
add_time clk (pos d) = u64 (clk + d)
add_time clk (negsuc d) = u64 (clk + (2 ^ 64 - suc d % 2 ^ 64))

-- The loop over a table's entries, on one bank.
unfoldable pub apply_delays : Delays → ℕ → BankState → BankState
apply_delays [] clk b = b
apply_delays ((t, d) ∷ ds) clk b = apply_delays ds clk (Bank.update_timing b t (add_time clk d))

abbrev pub delay_bank : Delays → ℕ → ℕ → ℕ → ℕ → Grid → Grid
delay_bank ds clk i j k g = modify g i j k (apply_delays ds clk)

-- `UpdateSameBankTiming`
unfoldable pub update_same_bank_timing : Place → Delays → ℕ → Grid → Grid
unfolding apply_delays
update_same_bank_timing p ds clk g = delay_bank ds clk p.i p.j p.k g

module _ (config : Config) where
  -- `UpdateOtherBanksSameBankgroupTiming`
  unfoldable pub update_other_banks_same_bankgroup_timing : Place → Delays → ℕ → Grid → Grid
  unfolding for_range apply_delays
  update_other_banks_same_bankgroup_timing p ds clk g =
      for_range config.banks_per_group 0
        (λ k h. if not (k == p.k) then delay_bank ds clk p.i p.j k h else h) g

  -- The loop over the banks of a bank group.
  unfoldable pub update_bankgroup_timing : ℕ → ℕ → Delays → ℕ → Grid → Grid
  unfolding for_range apply_delays
  update_bankgroup_timing i j ds clk g =
      for_range config.banks_per_group 0 (λ k h. delay_bank ds clk i j k h) g

  -- `UpdateOtherBankgroupsSameRankTiming`
  unfoldable pub update_other_bankgroups_same_rank_timing : Place → Delays → ℕ → Grid → Grid
  unfolding for_range update_bankgroup_timing
  update_other_bankgroups_same_rank_timing p ds clk g =
      for_range config.bankgroups 0
        (λ j h. if not (j == p.j) then update_bankgroup_timing p.i j ds clk h else h) g

  -- `UpdateSameRankTiming`
  unfoldable pub update_same_rank_timing : ℕ → Delays → ℕ → Grid → Grid
  unfolding for_range update_bankgroup_timing
  update_same_rank_timing i ds clk g =
      for_range config.bankgroups 0 (λ j h. update_bankgroup_timing i j ds clk h) g

  -- `UpdateOtherRanksTiming`
  unfoldable pub update_other_ranks_timing : Place → Delays → ℕ → Grid → Grid
  unfolding for_range update_same_rank_timing
  update_other_ranks_timing p ds clk g =
      for_range config.ranks 0
        (λ i h. if not (i == p.i) then update_same_rank_timing i ds clk h else h) g

module _ (config : Config) (timing : Timing) where
  -- The bank cases of the `switch`, behind the activation window's one.
  unfoldable pub update_bank_timing : ChannelState → Command → ℕ → Place → ChannelState
  unfolding update_same_bank_timing update_other_banks_same_bankgroup_timing
      update_other_bankgroups_same_rank_timing update_other_ranks_timing
  update_bank_timing s cmd clk p =
      let t = cmd.cmd_type in
      let g = update_same_bank_timing p (timing.same_bank t) clk s.bank_states in
      let g' =
        update_other_banks_same_bankgroup_timing config p (timing.other_banks_same_bankgroup t) clk
          g in
      let g'' =
        update_other_bankgroups_same_rank_timing config p (timing.other_bankgroups_same_rank t) clk
          g' in
      record s { bank_states = update_other_ranks_timing config p (timing.other_ranks t) clk g'' }

  unfoldable pub update_rank_timing : ChannelState → Command → ℕ → ℕ → ChannelState
  unfolding update_same_rank_timing
  update_rank_timing s cmd clk i = record s {
    bank_states =
        update_same_rank_timing config i (timing.same_rank cmd.cmd_type) clk s.bank_states;
  }

  -- The `switch` of `UpdateTiming`; an ACTIVATE falls through to the other bank commands.
  unfoldable pub dispatch_timing : CommandType → ChannelState → Command → ℕ → Option ChannelState
  unfolding update_bank_timing update_rank_timing update_activation_times
  dispatch_timing activate s cmd clk = do
    p ← place? config cmd.addr
    some (update_bank_timing (update_activation_times config s p.i clk) cmd clk p)
  dispatch_timing refresh s cmd clk = do
    i ← rank? config cmd.rank
    some (update_rank_timing s cmd clk i)
  dispatch_timing sref_enter s cmd clk = do
    i ← rank? config cmd.rank
    some (update_rank_timing s cmd clk i)
  dispatch_timing sref_exit s cmd clk = do
    i ← rank? config cmd.rank
    some (update_rank_timing s cmd clk i)
  dispatch_timing CommandType.size s cmd clk = none
  dispatch_timing _ s cmd clk = do p ← place? config cmd.addr; some (update_bank_timing s cmd clk p)

  -- `ChannelState::UpdateTiming`
  unfoldable pub update_timing : ChannelState → Command → ℕ → Option ChannelState
  unfolding dispatch_timing
  update_timing s cmd clk = dispatch_timing cmd.cmd_type s cmd clk
