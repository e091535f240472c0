-- ===== src/Channel/Delays/Separation.antt =====
-- The delay tables between two banks, and what `UpdateTiming` does with them (src/channel_state.cc).
use latest_zsim_dramsim.Prelude.{
  ℕ, ◌<◌, ◌≡◌, refl, sym, ◌∙◌, subst, true, false, ◌==◌, ℤ, some, arith, if◌then◌else◌,
}
use native.Mathlib.Nat.{le_trans}
use native.Mathlib.Decide.{ℕ_discrete}
use mathlib.Core.Option.{some-injective}
use latest_zsim_dramsim.Common.{CommandType, Command, rank_type}
use latest_zsim_dramsim.Config.{Config}
use latest_zsim_dramsim.Timing.{Timing, Delays}
use latest_zsim_dramsim.Channel.{Grid, ChannelState, Place, rank?, place?}
use latest_zsim_dramsim.Channel.Windows.{update_activation_times}
use latest_zsim_dramsim.Channel.Delays.{
  add_time, update_same_bank_timing, update_other_banks_same_bankgroup_timing,
  update_other_bankgroups_same_rank_timing, update_same_rank_timing, update_other_ranks_timing,
  update_bank_timing, update_rank_timing, update_timing,
}
use latest_zsim_dramsim.Channel.Delays.Dispatch.{entered, bank, rank, update_timing-Timed}
use latest_zsim_dramsim.Channel.Delays.Slower.{
  Slower, Slower-refl, Slower-trans, same_bank-keep, other_banks-keep, other_bankgroups-keep,
  other_ranks-keep, same_rank-keep,
}
use latest_zsim_dramsim.Channel.Delays.Bounds.{
  Entry, Held, same_bank-reach, other_banks-reach, other_bankgroups-reach, same_rank-reach,
  other_ranks-reach,
}

-- The bank is one of the configuration's.
pub record InRange (config : Config) (q : Place) : Type 0 where
  pub rank : q.i < config.ranks
  pub bankgroup : q.j < config.bankgroups
  pub bank : q.k < config.banks_per_group

-- The delays that a bank command at the first bank puts on the second.
abbrev pub between : Timing → CommandType → Place → Place → Delays
between timing t p q =
    if q.i == p.i
    then (if q.j == p.j
        then (if q.k == p.k then timing.same_bank t else timing.other_banks_same_bankgroup t)
        else timing.other_bankgroups_same_rank t)
    else timing.other_ranks t

module _ (config : Config) (timing : Timing) where
  -- The four loops of a bank command, one after the other.
  module _ (t : CommandType) (clk : ℕ) (p : Place) (g : Grid) where
    abbrev g1 : Grid
    g1 = update_same_bank_timing p (timing.same_bank t) clk g

    abbrev g2 : Grid
    g2 =
        update_other_banks_same_bankgroup_timing config p (timing.other_banks_same_bankgroup t) clk
          g1

    abbrev g3 : Grid
    g3 =
        update_other_bankgroups_same_rank_timing config p (timing.other_bankgroups_same_rank t) clk
          g2

    abbrev g4 : Grid
    g4 = update_other_ranks_timing config p (timing.other_ranks t) clk g3

    step2 : Slower g1 g2
    step2 = other_banks-keep config g1 _ clk p g1 (Slower-refl g1)

    step3 : Slower g2 g3
    step3 = other_bankgroups-keep config g2 _ clk p g2 (Slower-refl g2)

    step4 : Slower g3 g4
    step4 = other_ranks-keep config g3 _ clk p g3 (Slower-refl g3)

    all-Slower : Slower g g4
    all-Slower =
        Slower-trans (same_bank-keep config g _ clk p g (Slower-refl g))
          (Slower-trans step2 (Slower-trans step3 step4))

    later :
        {h h' : Grid} {n : ℕ} {q : Place} {u : CommandType}
        → Slower h h'
        → Held n q u h
        → Held n q u h'
    later {q = q} {u = u} s r = le_trans r (s.time q.i q.j q.k u)

    all-reach :
        (q : Place) (u : CommandType) (d : ℤ)
        → InRange config q
        → Entry u d (between timing t p q)
        → Held (add_time clk d) q u g4
    all-reach q u d r e = elim (ℕ_discrete q.i p.i) [
      | no ni ↦
          other_ranks-reach config q u d _ clk (ground arith) p ni r.rank r.bankgroup r.bank g3
      | yes ei ↦ elim (ℕ_discrete q.j p.j) [
        | no nj ↦
            later step4 (
              other_bankgroups-reach config q u d _ clk (ground arith) p ei nj r.bankgroup r.bank
                g2)
        | yes ej ↦ elim (ℕ_discrete q.k p.k) [
          | no nk ↦ later step4 (
              later step3
                (other_banks-reach config q u d _ clk (ground arith) p ei ej nk r.bank g1))
          | yes ek ↦ later step4 (
              later step3
                (later step2 (same_bank-reach config q u d _ clk (ground arith) p ei ej ek g)))
        ]
      ]
    ]

  pub entered-bank_states :
      (t : CommandType) (i clk : ℕ) (s : ChannelState)
      → (entered config t i clk s).bank_states ≡ s.bank_states
  unfolding update_activation_times
  entered-bank_states CommandType.activate i clk s = ground arith
  entered-bank_states _ i clk s = refl

  -- `UpdateTiming` makes no command of any bank wait less.
  pub update_timing-Slower :
      (s : ChannelState) (cmd : Command) (clk : ℕ) {s' : ChannelState}
      → update_timing config timing s cmd clk ≡ some s'
      → Slower s.bank_states s'.bank_states
  unfolding update_bank_timing update_rank_timing
  update_timing-Slower s cmd clk e = elim (update_timing-Timed config timing s cmd clk e) [
    | bank p r placed e' ↦ rw e' (
        subst
          (λ g.
            Slower g (g4 cmd.cmd_type clk p (entered config cmd.cmd_type p.i clk s).bank_states))
          (entered-bank_states cmd.cmd_type p.i clk s)
          (all-Slower cmd.cmd_type clk p (entered config cmd.cmd_type p.i clk s).bank_states))
    | rank i r ranked e' ↦ rw e' (
        same_rank-keep config s.bank_states (timing.same_rank cmd.cmd_type) clk i s.bank_states
          (Slower-refl s.bank_states))
  ]

  -- Once a command at one bank has been entered, any bank waits at least the delay that the tables
  -- have between the two.
  pub update_timing-bank_delay :
      (s : ChannelState) (cmd : Command) (clk : ℕ) (p q : Place) (t : CommandType) (d : ℤ)
      {s' : ChannelState}
      → update_timing config timing s cmd clk ≡ some s'
      → rank_type cmd.cmd_type ≡ false
      → place? config cmd.addr ≡ some p
      → InRange config q
      → Entry t d (between timing cmd.cmd_type p q)
      → Held (add_time clk d) q t s'.bank_states
  unfolding update_bank_timing update_rank_timing
  update_timing-bank_delay s cmd clk p q t d e n placed r entry =
      elim (update_timing-Timed config timing s cmd clk e) [
        | bank p' _ placed' e' ↦ rw e' (
            all-reach cmd.cmd_type clk p' _ q t d r (
              subst (λ x. Entry t d (between timing cmd.cmd_type x q))
                (some-injective p p' (sym placed ∙ placed')) entry))
        | rank i y _ _ ↦ absurd cc
      ]

  -- The same for a command of a whole rank and every bank of it.
  pub update_timing-rank_delay :
      (s : ChannelState) (cmd : Command) (clk : ℕ) (q : Place) (t : CommandType) (d : ℤ)
      {s' : ChannelState}
      → update_timing config timing s cmd clk ≡ some s'
      → rank_type cmd.cmd_type ≡ true
      → rank? config cmd.rank ≡ some q.i
      → InRange config q
      → Entry t d (timing.same_rank cmd.cmd_type)
      → Held (add_time clk d) q t s'.bank_states
  unfolding update_bank_timing update_rank_timing
  update_timing-rank_delay s cmd clk q t d e y ranked r entry =
      elim (update_timing-Timed config timing s cmd clk e) [
        | bank _ n _ _ ↦ absurd cc
        | rank i _ ranked' e' ↦ rw e' (
            subst
              (λ j. Held (add_time clk d) q t (
                update_same_rank_timing config j (timing.same_rank cmd.cmd_type) clk s.bank_states))
              (some-injective q.i i (sym ranked ∙ ranked'))
              (same_rank-reach config q t d _ clk entry r.bankgroup r.bank s.bank_states))
      ]
