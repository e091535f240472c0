-- ===== src/Channel/Delays/RefreshBank.antt =====
-- What a bank refresh makes its own bank wait (src/channel_state.cc and src/timing.cc).
use latest_zsim_dramsim.Prelude.{
  ℕ, ◌≡◌, refl, sym, ◌∙◌, subst, true, false, not, ◌==◌, Bool, some, [], arith, ◌⊎◌, inl, inr, ap,
  if◌then◌else◌, for_range_keep,
}
use mathlib.Core.Option.{some-injective}
use latest_zsim_dramsim.Common.{CommandType, Command, refresh_bank}
use latest_zsim_dramsim.Bank.{BankState}
use latest_zsim_dramsim.Config.{Config}
use latest_zsim_dramsim.Timing.{Delays, new_timing}
use latest_zsim_dramsim.Channel.{Grid, ChannelState, Place, place?}
use latest_zsim_dramsim.Channel.Delays.{
  apply_delays, delay_bank, update_same_bank_timing, update_other_banks_same_bankgroup_timing,
  update_bankgroup_timing, update_other_bankgroups_same_rank_timing, update_same_rank_timing,
  update_other_ranks_timing, update_bank_timing, update_rank_timing, update_timing,
}
use latest_zsim_dramsim.Channel.Delays.Dispatch.{entered, bank, rank, update_timing-Timed}
use latest_zsim_dramsim.Channel.Delays.Separation.{entered-bank_states}

-- A round of a loop under a test.
round_at :
    (p : Place) (x : BankState) (t : Bool) (h h' : Grid)
    → h p.i p.j p.k ≡ x
    → (t ≡ true → h' p.i p.j p.k ≡ x)
    → (if t then h' else h) p.i p.j p.k ≡ x
round_at p x true h h' e f = f refl
round_at p x false h h' e f = e

module _ (config : Config) (ds : Delays) (clk : ℕ) (p : Place) (x : BankState) where
  abbrev Here : Grid → Type 0
  Here h = h p.i p.j p.k ≡ x

  other_banks-Here :
      (h : Grid) → Here h → Here (update_other_banks_same_bankgroup_timing config p ds clk h)
  unfolding update_other_banks_same_bankgroup_timing
  other_banks-Here h e =
      for_range_keep Here _
        (λ k h' e'. round_at p x (not (k == p.k)) h' _ e' (λ t. elsewhere h' k e' t))
        config.banks_per_group 0 h e
    where
      elsewhere :
          (h' : Grid) (k : ℕ)
          → Here h'
          → not (k == p.k) ≡ true
          → Here (delay_bank ds clk p.i p.j k h')
      elsewhere h' k e' t = ground arith

  group-Here :
      (i j : ℕ) (h : Grid)
      → ((i == p.i) ≡ false) ⊎ ((j == p.j) ≡ false)
      → Here h
      → Here (update_bankgroup_timing config i j ds clk h)
  unfolding update_bankgroup_timing
  group-Here i j h n e =
      for_range_keep Here _ (λ k h' e'. elsewhere k h' e') config.banks_per_group 0 h e
    where
      elsewhere : (k : ℕ) (h' : Grid) → Here h' → Here (delay_bank ds clk i j k h')
      elsewhere k h' e' = ground arith

  other_bankgroups-Here :
      (h : Grid) → Here h → Here (update_other_bankgroups_same_rank_timing config p ds clk h)
  unfolding update_other_bankgroups_same_rank_timing
  other_bankgroups-Here h e =
      for_range_keep Here _
        (λ j h' e'.
          round_at p x (not (j == p.j)) h' _ e' (λ t. group-Here p.i j h' (inr (ground arith)) e'))
        config.bankgroups 0 h e

  rank-Here :
      (i : ℕ) (h : Grid)
      → (i == p.i) ≡ false
      → Here h
      → Here (update_same_rank_timing config i ds clk h)
  unfolding update_same_rank_timing
  rank-Here i h n e =
      for_range_keep Here _ (λ j h' e'. group-Here i j h' (inl n) e') config.bankgroups 0 h e

  other_ranks-Here : (h : Grid) → Here h → Here (update_other_ranks_timing config p ds clk h)
  unfolding update_other_ranks_timing
  other_ranks-Here h e =
      for_range_keep Here _
        (λ i h' e'. round_at p x (not (i == p.i)) h' _ e' (λ t. rank-Here i h' (ground arith) e'))
        config.ranks 0 h e

-- Where a place of the channel is changed by a function that does nothing.
unchanged :
    (clk : ℕ) (p : Place) (g : Grid)
    → update_same_bank_timing p [] clk g p.i p.j p.k ≡ g p.i p.j p.k
unfolding update_same_bank_timing apply_delays
unchanged clk p g = ground arith

-- The four loops of a bank refresh, at its own bank.
loops-here :
    (config : Config) (u : CommandType) (clk : ℕ) (p : Place) (g : Grid)
    → u ≡ refresh_bank
    → let timing = new_timing config in
      let g1 = update_same_bank_timing p (timing.same_bank u) clk g in
      let g2 =
        update_other_banks_same_bankgroup_timing config p
          (timing.other_banks_same_bankgroup u)
          clk
          g1 in
      let g3 =
        update_other_bankgroups_same_rank_timing config p
          (timing.other_bankgroups_same_rank u)
          clk
          g2 in
      update_other_ranks_timing config p (timing.other_ranks u) clk g3 p.i p.j p.k ≡ g p.i p.j p.k
unfolding new_timing
loops-here config u clk p g e =
    let x = g p.i p.j p.k in
    let here : update_same_bank_timing p ((new_timing config).same_bank u) clk g p.i p.j p.k ≡ x =
      rw e (unchanged clk p g) in
    other_ranks-Here config _ clk p x _
      (other_bankgroups-Here config _ clk p x _ (other_banks-Here config _ clk p x _ here))

-- A bank refresh holds its own bank back from nothing: with the tables of the configuration,
-- entering it leaves the bank that is refreshed exactly as it was, whatever `tRFCb` is.
pub refresh_bank-unheld :
    (config : Config) (s : ChannelState) (cmd : Command) (clk : ℕ) (p : Place) {s' : ChannelState}
    → update_timing config (new_timing config) s cmd clk ≡ some s'
    → cmd.cmd_type ≡ refresh_bank
    → place? config cmd.addr ≡ some p
    → s'.bank_states p.i p.j p.k ≡ s.bank_states p.i p.j p.k
unfolding update_bank_timing update_rank_timing
refresh_bank-unheld config s cmd clk p e t placed =
    elim (update_timing-Timed config (new_timing config) s cmd clk e) [
      | bank p' _ placed' e' ↦
          let here : p ≡ p' = some-injective p p' (sym placed ∙ placed') in
          rw e' (
            subst
              (λ y.
                (update_bank_timing config (new_timing config)
                    (entered config cmd.cmd_type y.i clk s) cmd clk y).bank_states
                  p.i p.j p.k
                ≡ s.bank_states p.i p.j p.k)
              here
              (loops-here config cmd.cmd_type clk p
                  (entered config cmd.cmd_type p.i clk s).bank_states t
                ∙ ap (λ (g : Grid). g p.i p.j p.k)
                    (entered-bank_states config (new_timing config) cmd.cmd_type p.i clk s)))
      | rank _ y _ _ ↦ absurd (ground arith)
    ]
