-- ===== src/Channel/Delays/Dispatch.antt =====
-- The `switch` of `UpdateTiming` (src/channel_state.cc) taken apart.
use mathlib.Core.Option.{some-injective}
use latest_zsim_dramsim.Prelude.{ℕ, ◌≡◌, refl, sym, Bool, true, false, some, ◌>>=◌, >>=_inv}
use latest_zsim_dramsim.Common.{
  CommandType, activate, refresh, sref_enter, sref_exit, Command, rank_type,
}
use latest_zsim_dramsim.Config.{Config}
use latest_zsim_dramsim.Timing.{Timing}
use latest_zsim_dramsim.Channel.{ChannelState, Place, rank?, place?}
use latest_zsim_dramsim.Channel.Windows.{update_activation_times}
use latest_zsim_dramsim.Channel.Delays.{
  update_bank_timing, update_rank_timing, dispatch_timing, update_timing,
}

abbrev pub activates : CommandType → Bool
activates activate = true
activates _ = false

module _ (config : Config) where
  -- The state with an ACTIVATE entered in the windows of its rank.
  abbrev pub entered : CommandType → ℕ → ℕ → ChannelState → ChannelState
  entered activate i clk s = update_activation_times config s i clk
  entered _ i clk s = s

module _ (config : Config) (timing : Timing) where
  -- What `UpdateTiming` comes to, by the kind of the command.
  pub data Timed (t : CommandType) (s : ChannelState) (cmd : Command) (clk : ℕ) (s' : ChannelState)
      : Type 0 where
    bank :
        (p : Place)
        → rank_type t ≡ false
        → place? config cmd.addr ≡ some p
        → s' ≡ update_bank_timing config timing (entered config t p.i clk s) cmd clk p
        → Timed t s cmd clk s'
    rank :
        (i : ℕ)
        → rank_type t ≡ true
        → rank? config cmd.rank ≡ some i
        → s' ≡ update_rank_timing config timing s cmd clk i
        → Timed t s cmd clk s'

  bank_case :
      (t : CommandType) (s : ChannelState) (cmd : Command) (clk : ℕ) {s' : ChannelState}
      → rank_type t ≡ false
      → (place? config cmd.addr >>= λ p.
          some (update_bank_timing config timing (entered config t p.i clk s) cmd clk p))
        ≡ some s'
      → Timed t s cmd clk s'
  bank_case t s cmd clk r e =
      let (p, placed, e') = >>=_inv (place? config cmd.addr) _ e in
      bank p r placed (sym (some-injective _ _ e'))

  rank_case :
      (t : CommandType) (s : ChannelState) (cmd : Command) (clk : ℕ) {s' : ChannelState}
      → rank_type t ≡ true
      → (rank? config cmd.rank >>= λ i. some (update_rank_timing config timing s cmd clk i))
        ≡ some s'
      → Timed t s cmd clk s'
  rank_case t s cmd clk r e =
      let (i, ranked, e') = >>=_inv (rank? config cmd.rank) _ e in
      rank i r ranked (sym (some-injective _ _ e'))

  pub dispatch-Timed :
      (t : CommandType) (s : ChannelState) (cmd : Command) (clk : ℕ) {s' : ChannelState}
      → dispatch_timing config timing t s cmd clk ≡ some s'
      → Timed t s cmd clk s'
  unfolding dispatch_timing
  dispatch-Timed activate s cmd clk e = bank_case activate s cmd clk refl e
  dispatch-Timed refresh s cmd clk e = rank_case refresh s cmd clk refl e
  dispatch-Timed sref_enter s cmd clk e = rank_case sref_enter s cmd clk refl e
  dispatch-Timed sref_exit s cmd clk e = rank_case sref_exit s cmd clk refl e
  dispatch-Timed CommandType.size s cmd clk e = cc
  dispatch-Timed CommandType.read s cmd clk e = bank_case _ s cmd clk refl e
  dispatch-Timed CommandType.read_precharge s cmd clk e = bank_case _ s cmd clk refl e
  dispatch-Timed CommandType.write s cmd clk e = bank_case _ s cmd clk refl e
  dispatch-Timed CommandType.write_precharge s cmd clk e = bank_case _ s cmd clk refl e
  dispatch-Timed CommandType.precharge s cmd clk e = bank_case _ s cmd clk refl e
  dispatch-Timed CommandType.refresh_bank s cmd clk e = bank_case _ s cmd clk refl e

  pub update_timing-Timed :
      (s : ChannelState) (cmd : Command) (clk : ℕ) {s' : ChannelState}
      → update_timing config timing s cmd clk ≡ some s'
      → Timed cmd.cmd_type s cmd clk s'
  unfolding update_timing
  update_timing-Timed s cmd clk e = dispatch-Timed cmd.cmd_type s cmd clk e
