-- ===== src/Channel/Apart.antt =====
-- Any order of questions and commands that a channel sees (src/channel_state.cc): the time between two
-- commands.
use latest_zsim_dramsim.Prelude.{
  ℕ, ◌≤◌, ◌≡◌, sym, ◌∙◌, subst, true, false, ℤ, inl, inr, some, arith, >>=_inv,
}
use native.Mathlib.Nat.{le_refl, le_trans}
use mathlib.Core.Option.{some-injective}
use latest_zsim_dramsim.Bank.Times.{required-cmd_timing}
use latest_zsim_dramsim.Common.{Address, Command, rank_type, is_valid, is_rank_cmd}
use latest_zsim_dramsim.Bank.Due.{ready_valid}
use latest_zsim_dramsim.Config.{Config}
use latest_zsim_dramsim.Timing.{Timing}
use latest_zsim_dramsim.Channel.{ChannelState, Place, rank?, place?}
use latest_zsim_dramsim.Channel.Ready.{get_ready_command}
use latest_zsim_dramsim.Channel.Ready.Rounds.{get_ready_branch, bank_ready_inv}
use latest_zsim_dramsim.Channel.Update.{update_state, update_timing_and_states}
use latest_zsim_dramsim.Channel.Keeps.{
  get_ready_command-Slower, update_timing_and_states-Slower, bank_ready-inv, checked-state,
}
use latest_zsim_dramsim.Controller.{Controller}
use latest_zsim_dramsim.Controller.Tick.{tick}
use latest_zsim_dramsim.Controller.Cycle.{tick-Steady}
use latest_zsim_dramsim.Channel.Delays.{add_time}
use latest_zsim_dramsim.Channel.Delays.Slower.{Slower, Slower-refl, Slower-trans}
use latest_zsim_dramsim.Channel.Delays.Bounds.{Entry}
use latest_zsim_dramsim.Channel.Delays.Separation.{InRange, update_timing-rank_delay}

place?-InRange :
    (config : Config) (a : Address) {p : Place} → place? config a ≡ some p → InRange config p
place?-InRange config a e = record {
  rank = ground arith;
  bankgroup = ground arith;
  bank = ground arith;
}

place?-rank :
    (config : Config) (a : Address) {p : Place}
    → place? config a ≡ some p
    → rank? config a.rank ≡ some p.i
place?-rank config a e = ground arith

-- A valid command of the bank branch comes at its time.
bank_branch-due :
    (config : Config) (s : ChannelState) (cmd : Command) (clk : ℕ) {c : Command} {s' : ChannelState}
    (q : Place)
    → is_rank_cmd cmd ≡ false
    → place? config cmd.addr ≡ some q
    → get_ready_command config s cmd clk ≡ some (c, s')
    → is_valid c ≡ true
    → (s.bank_states q.i q.j q.k).cmd_timing c.cmd_type ≤ clk
bank_branch-due config s cmd clk {c} q n placed e v = elim (get_ready_branch config s cmd clk e) [
  | inl (y, _) ↦ absurd cc
  | inr (_, e') ↦
      let (p, (c0, s0), placed', asked, checked) = bank_ready_inv config s cmd clk e' in
      let same = (checked-state config p.i clk (c0, s0) checked).1 v in
      let (b, asked', _) = bank_ready-inv s p cmd clk asked in
      let (required, _, due) =
        ready_valid (s.bank_states p.i p.j p.k) cmd clk asked'
          (subst (λ x. is_valid x ≡ true) same v) in
      subst (λ x. (s.bank_states x.i x.j x.k).cmd_timing c.cmd_type ≤ clk)
        (some-injective p q (sym placed' ∙ placed))
        (subst (λ x. (s.bank_states p.i p.j p.k).cmd_timing x.cmd_type ≤ clk) (sym same)
          (subst (λ f. f c0.cmd_type ≤ clk) (required-cmd_timing _ _ _ cmd required) due))
]

module _ (config : Config) (timing : Timing) where
  -- Whatever a channel is asked and whatever it executes, whole cycles of a controller that has the
  -- channel, and all that leaves the times of its banks alone.
  pub data Later (s : ChannelState) : ChannelState → Type 0 where
    here : Later s s
    asked :
        {t t' : ChannelState} (cmd c : Command) (clk : ℕ)
        → Later s t
        → get_ready_command config t cmd clk ≡ some (c, t')
        → Later s t'
    executed :
        {t t' : ChannelState} (cmd : Command) (clk : ℕ)
        → Later s t
        → update_timing_and_states config timing t cmd clk ≡ some t'
        → Later s t'
    cycled :
        (c c' : Controller)
        → Later s c.channel
        → tick config timing c ≡ some c'
        → Later s c'.channel
    other :
        {t t' : ChannelState}
        → Later s t
        → ((i j k : ℕ) → (t'.bank_states i j k).cmd_timing ≡ (t.bank_states i j k).cmd_timing)
        → Later s t'

  Later-Slower : {s t : ChannelState} → Later s t → Slower s.bank_states t.bank_states
  Later-Slower {s = s} here = Slower-refl s.bank_states
  Later-Slower (asked {t = t} cmd c clk l e) =
      Slower-trans (Later-Slower l) (get_ready_command-Slower config t cmd clk e)
  Later-Slower (executed {t = t} cmd clk l e) =
      Slower-trans (Later-Slower l) (update_timing_and_states-Slower config timing t cmd clk e)
  Later-Slower (cycled c c' l e) =
      Slower-trans (Later-Slower l) (tick-Steady config timing c e).times
  Later-Slower (other l e) =
      Slower-trans (Later-Slower l) (record { time = λ i j k t. rw (e i j k) (le_refl _) })

  -- When a channel has executed a command of a whole rank at time `clk` (a refresh, a self-refresh
  -- entry or exit), and its table has a delay `d` to a second command, then, whatever the channel is
  -- asked or executes in between and whatever cycles its controller goes through, it hands the second
  -- command out for any bank of that rank at no time before `clk + d`.
  pub rank_commands_apart :
      (s : ChannelState) (cmd : Command) (clk : ℕ) (q : Place) (d : ℤ) {s1 s2 s3 : ChannelState}
      (cmd' c : Command) (clk' : ℕ)
      → update_timing_and_states config timing s cmd clk ≡ some s1
      → rank_type cmd.cmd_type ≡ true
      → rank? config cmd.rank ≡ some q.i
      → Later s1 s2
      → is_rank_cmd cmd' ≡ false
      → place? config cmd'.addr ≡ some q
      → get_ready_command config s2 cmd' clk' ≡ some (c, s3)
      → is_valid c ≡ true
      → Entry c.cmd_type d (timing.same_rank cmd.cmd_type)
      → add_time clk d ≤ clk'
  unfolding update_timing_and_states
  rank_commands_apart s cmd clk q d {s2 = s2} cmd' c clk' e y ranked l n' placed' e' v entry =
      let (t, updated, timed) = >>=_inv (update_state config s cmd) _ e in
      le_trans
        (update_timing-rank_delay config timing t cmd clk q c.cmd_type d timed y ranked
          (place?-InRange config cmd'.addr placed') entry)
        (le_trans ((Later-Slower l).time q.i q.j q.k c.cmd_type)
          (bank_branch-due config s2 cmd' clk' q n' placed' e' v))
