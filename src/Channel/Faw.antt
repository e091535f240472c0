-- ===== src/Channel/Faw.antt =====
-- Any order of questions and commands that a channel sees (src/channel_state.cc): the activations of a
-- rank.
use latest_zsim_dramsim.Prelude.{
  ℕ, ◌+◌, ◌^◌, ◌≤◌, ◌<◌, ◌≡◌, ◌≢◌, ◌⊎◌, inl, inr, sym, ◌∙◌, subst, Bool, true, false, ◌&&◌, ◌==◌,
  List, [], ◌∷◌, ◌++◌, Option, some, none, All, get_elem?, arith, if◌then◌else◌,
}
use mathlib.Core.Option.{some-injective}
use native.Mathlib.Decide.{ℕ_discrete}
use latest_zsim_dramsim.Common.{Command}
use latest_zsim_dramsim.Config.{Config}
use latest_zsim_dramsim.Timing.{Timing}
use latest_zsim_dramsim.Channel.{ChannelState, new_channel, rank?, put, put_self, put_ne}
use latest_zsim_dramsim.Channel.Windows.{
  activation_window_ok, is_faw_ready, is_window_ready, push_window,
}
use latest_zsim_dramsim.Channel.Windows.Spacing.{
  Covers, Spaced, Covers-nil, push_window-Covers, push_window-Spaced,
}
use latest_zsim_dramsim.Channel.Ready.{get_ready_command}
use latest_zsim_dramsim.Channel.Delays.Dispatch.{activates}
use latest_zsim_dramsim.Channel.Update.{update_timing_and_states}
use latest_zsim_dramsim.Channel.Activation.{get_ready_command-window, update-four_aw}

-- The command activates a bank of the rank.
abbrev pub at_rank : ℕ → Option ℕ → Bool
at_rank rank none = false
at_rank rank (some i) = i == rank

module _ (config : Config) (timing : Timing) (rank : ℕ) where
  -- The times of the rank's activations, oldest first.
  abbrev pub noted : Command → ℕ → List ℕ → List ℕ
  noted c clk history =
      if activates c.cmd_type && at_rank rank (rank? config c.rank)
      then history ++ clk ∷ []
      else history

  -- A channel is asked for ready commands, and executes valid ones that it has handed out, at times
  -- that do not fall and stay clear of the end of the clock. Whatever else is done to it leaves the
  -- windows alone.
  pub data ChannelRun : List ℕ → ChannelState → Type 0 where
    start : ChannelRun [] new_channel
    asked :
        {h : List ℕ} {s s' : ChannelState} (cmd c : Command) (clk : ℕ)
        → ChannelRun h s
        → get_ready_command config s cmd clk ≡ some (c, s')
        → ChannelRun h s'
    issued :
        {h : List ℕ} {s s' s'' : ChannelState} (cmd c : Command) (clk : ℕ)
        → ChannelRun h s
        → All (λ t. t ≤ clk) h
        → clk + config.t_faw < 2 ^ 64
        → get_ready_command config s cmd clk ≡ some (c, s')
        → update_timing_and_states config timing s' c clk ≡ some s''
        → ChannelRun (noted c clk h) s''
    other :
        {h : List ℕ} {s s' : ChannelState}
        → ChannelRun h s
        → s'.four_aw ≡ s.four_aw
        → ChannelRun h s'

  abbrev Fine : List ℕ → (ℕ → List ℕ) → Type 0
  Fine h fw = Covers 4 config.t_faw h (fw rank) × Spaced 4 config.t_faw h

  window_of_ok :
      (s : ChannelState) (i clk : ℕ)
      → activation_window_ok config s i clk ≡ true
      → is_window_ready 4 (s.four_aw i) clk ≡ true
  unfolding activation_window_ok is_faw_ready
  window_of_ok s i clk e = ground arith

  push-Fine :
      (h : List ℕ) (fw : ℕ → List ℕ) (clk : ℕ)
      → Fine h fw
      → All (λ t. t ≤ clk) h
      → clk + config.t_faw < 2 ^ 64
      → is_window_ready 4 (fw rank) clk ≡ true
      → Fine (h ++ clk ∷ []) (put fw rank (push_window (fw rank) config.t_faw clk))
  push-Fine h fw clk f m b r =
      subst (λ w. Covers 4 config.t_faw (h ++ clk ∷ []) w × Spaced 4 config.t_faw (h ++ clk ∷ []))
        (sym (put_self fw rank (push_window (fw rank) config.t_faw clk)))
        (
          push_window-Covers 4 config.t_faw clk (omega arith) f.0 b r,
          push_window-Spaced 4 config.t_faw clk (omega arith) f.0 m r f.1,
        )

  noted_here :
      (h : List ℕ) (c : Command) (clk i : ℕ)
      → activates c.cmd_type ≡ true
      → rank? config c.rank ≡ some i
      → i ≡ rank
      → noted c clk h ≡ h ++ clk ∷ []
  noted_here h c clk i y r e = rw (y, r) (ground arith)

  noted_elsewhere :
      (h : List ℕ) (c : Command) (clk i : ℕ)
      → activates c.cmd_type ≡ true
      → rank? config c.rank ≡ some i
      → i ≢ rank
      → noted c clk h ≡ h
  noted_elsewhere h c clk i y r e = rw (y, r) (ground arith)

  issued-Fine :
      (h : List ℕ) (s s'' : ChannelState) (c : Command) (clk : ℕ)
      → Fine h s.four_aw
      → All (λ t. t ≤ clk) h
      → clk + config.t_faw < 2 ^ 64
      → ((activates c.cmd_type ≡ false)
          ⊎ ((i : ℕ) × (rank? config c.rank ≡ some i)
              × (activation_window_ok config s i clk ≡ true)))
      → ((activates c.cmd_type ≡ false) × (s''.four_aw ≡ s.four_aw))
        ⊎ ((i : ℕ) × (activates c.cmd_type ≡ true)
            × (rank? config c.rank ≡ some i)
            × (s''.four_aw ≡ put s.four_aw i (push_window (s.four_aw i) config.t_faw clk)))
      → Fine (noted c clk h) s''.four_aw
  issued-Fine h s s'' c clk f m b (inl n) (inl (_, q)) = rw (n, q) f
  issued-Fine h s s'' c clk f m b (inr _) (inl (n, q)) = rw (n, q) f
  issued-Fine h s s'' c clk f m b (inl n) (inr (i, y, r, q)) = absurd (cc)
  issued-Fine h s s'' c clk f m b (inr (i, r, ok)) (inr (i', y, r', q)) =
      elim (ℕ_discrete i' rank) [
        | yes e ↦
            let ready =
              subst (λ j. is_window_ready 4 (s.four_aw j) clk ≡ true)
                (some-injective i i' (sym r ∙ r') ∙ e) (window_of_ok s i clk ok) in
            subst (Fine (noted c clk h)) (sym q) (
              subst (λ l. Fine l (put s.four_aw i' (push_window (s.four_aw i') config.t_faw clk)))
                (sym (noted_here h c clk i' y r' e))
                (subst
                  (λ j.
                    Fine (h ++ clk ∷ [])
                      (put s.four_aw j (push_window (s.four_aw j) config.t_faw clk)))
                  (sym e) (push-Fine h s.four_aw clk f m b ready)))
        | no e ↦ subst (Fine (noted c clk h)) (sym q) (
            subst (λ l. Fine l (put s.four_aw i' (push_window (s.four_aw i') config.t_faw clk)))
              (sym (noted_elsewhere h c clk i' y r' e))
              (subst (λ w. Covers 4 config.t_faw h w × Spaced 4 config.t_faw h)
                (sym (put_ne s.four_aw i' rank _ (λ x. e (sym x)))) f))
      ]

  run-Fine : {h : List ℕ} {s : ChannelState} → ChannelRun h s → Fine h s.four_aw
  run-Fine start = (Covers-nil 4 config.t_faw, λ i t t' g g'. cc)
  run-Fine (asked cmd c clk run e) =
      rw ((get_ready_command-window config _ cmd clk e).0) (run-Fine run)
  run-Fine (issued {h = h} {s = s} {s' = s'} {s'' = s''} cmd c clk run m b e u) =
      let (same, w) = get_ready_command-window config s cmd clk e in
      issued-Fine h s' s'' c clk (subst (Fine h) (sym same) (run-Fine run)) m b w
        (update-four_aw config timing s' c clk u)
  run-Fine (other {h = h} run e) = subst (Fine h) (sym e) (run-Fine run)

  -- In every run of a channel, an activation of a rank comes at least `tFAW` cycles after the one
  -- that stands four before it: no five activations of a rank fall within `tFAW` cycles.
  pub four_activate_window :
      {h : List ℕ} {s : ChannelState}
      → ChannelRun h s
      → (i t t' : ℕ) → get_elem? h i ≡ some t
      → get_elem? h (i + 4) ≡ some t'
      → t + config.t_faw ≤ t'
  four_activate_window run = (run-Fine run).1
