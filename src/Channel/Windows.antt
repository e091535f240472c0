-- ===== src/Channel/Windows.antt =====
-- src/channel_state.cc: the windows of four and of thirty-two activations of a rank.
pub mod Spacing
use latest_zsim_dramsim.Prelude.{
  ℕ, ◌+◌, Bool, true, false, not, ◌&&◌, ltb, leb, if◌then◌else◌, List, [], ◌∷◌, ◌++◌, length,
}
use latest_zsim_dramsim.Common.{u64}
use latest_zsim_dramsim.Config.{Config, is_gddr}
use latest_zsim_dramsim.Channel.{ChannelState, put}

-- `IsFAWReady` and `Is32AWReady` on the vector of a rank, with the size of the window.
unfoldable pub is_window_ready : ℕ → List ℕ → ℕ → Bool
is_window_ready size [] curr_time = true
is_window_ready size (t ∷ ts) curr_time = not (ltb curr_time t && leb size (length (t ∷ ts)))

-- The first entry goes once its time has passed.
unfoldable pub drop_expired : List ℕ → ℕ → List ℕ
drop_expired [] curr_time = []
drop_expired (t ∷ ts) curr_time = if leb t curr_time then ts else t ∷ ts

-- One activation entered in the vector of a rank.
unfoldable pub push_window : List ℕ → ℕ → ℕ → List ℕ
unfolding drop_expired
push_window w delay curr_time = drop_expired w curr_time ++ u64 (curr_time + delay) ∷ []

module _ (config : Config) where
  -- `ChannelState::IsFAWReady`
  unfoldable pub is_faw_ready : ChannelState → ℕ → ℕ → Bool
  unfolding is_window_ready
  is_faw_ready s rank curr_time = is_window_ready 4 (s.four_aw rank) curr_time

  -- `ChannelState::Is32AWReady`
  unfoldable pub is_32aw_ready : ChannelState → ℕ → ℕ → Bool
  unfolding is_window_ready
  is_32aw_ready s rank curr_time = is_window_ready 32 (s.thirty_two_aw rank) curr_time

  -- `ChannelState::ActivationWindowOk`
  unfoldable pub activation_window_ok : ChannelState → ℕ → ℕ → Bool
  unfolding is_faw_ready is_32aw_ready
  activation_window_ok s rank curr_time =
      let tfaw_ok = is_faw_ready s rank curr_time in
      if is_gddr config
      then (if not tfaw_ok then false else is_32aw_ready s rank curr_time)
      else tfaw_ok

  -- `ChannelState::UpdateActivationTimes`
  unfoldable pub update_activation_times : ChannelState → ℕ → ℕ → ChannelState
  unfolding push_window
  update_activation_times s rank curr_time =
      let s' = record s {
        four_aw = put s.four_aw rank (push_window (s.four_aw rank) config.t_faw curr_time);
      } in
      if is_gddr config
      then record s' {
        thirty_two_aw =
            put s.thirty_two_aw rank (push_window (s.thirty_two_aw rank) config.t_32aw curr_time);
      }
      else s'
