-- ===== src/Channel/Delays/Bounds.antt =====
-- Which banks each loop of `UpdateTiming` reaches (src/channel_state.cc).
use latest_zsim_dramsim.Prelude.{
  ℕ, ◌≤◌, ◌<◌, ◌≡◌, ◌≢◌, subst, Bool, true, not, ◌==◌, if◌then◌else◌, [], ◌∷◌, ℤ, ◌⊎◌, inl, inr,
  arith, for_range_reach,
}
use native.Mathlib.Nat.{le_trans}
use latest_zsim_dramsim.Common.{CommandType, same_type_refl}
use latest_zsim_dramsim.Bank
use latest_zsim_dramsim.Bank.{BankState}
use latest_zsim_dramsim.Config.{Config}
use latest_zsim_dramsim.Timing.{Delays}
use latest_zsim_dramsim.Channel.{Grid, Place, modify}
use latest_zsim_dramsim.Channel.Delays.{
  add_time, apply_delays, delay_bank, update_same_bank_timing,
  update_other_banks_same_bankgroup_timing, update_bankgroup_timing,
  update_other_bankgroups_same_rank_timing, update_same_rank_timing, update_other_ranks_timing,
}
use latest_zsim_dramsim.Channel.Delays.Slower.{
  Slower, Slower-refl, apply_delays-slower, delay_bank-keep, bankgroup-keep, other_bank_round-keep,
  other_group_round-keep, other_rank_round-keep,
}

-- The table has the entry.
abbrev pub Entry : CommandType → ℤ → Delays → Type 0
Entry t d [] = ⊥
Entry t d ((u, e) ∷ ds) = ((t ≡ u) × (d ≡ e)) ⊎ Entry t d ds

-- The bank may not be given the command before the time.
abbrev pub Held : ℕ → Place → CommandType → Grid → Type 0
Held n q t g = n ≤ (g q.i q.j q.k).cmd_timing t

update_timing-reach :
    (b : BankState) (t : CommandType) (n : ℕ) → n ≤ (Bank.update_timing b t n).cmd_timing t
unfolding Bank.update_timing
update_timing-reach b t n = rw (same_type_refl t) (omega arith)

pub apply_delays-reach :
    (t : CommandType) (d : ℤ) (ds : Delays) (clk : ℕ) (b : BankState)
    → Entry t d ds
    → add_time clk d ≤ (apply_delays ds clk b).cmd_timing t
unfolding apply_delays
apply_delays-reach t d [] clk b e = elim e [ ]
apply_delays-reach t d ((u, f) ∷ ds) clk b (inl (p, q)) =
    rw (p, q)
      (le_trans (update_timing-reach b u (add_time clk f))
        (apply_delays-slower ds clk (Bank.update_timing b u (add_time clk f)) u))
apply_delays-reach t d ((u, f) ∷ ds) clk b (inr e) = apply_delays-reach t d ds clk _ e

modify-here :
    (g : Grid) (i j k : ℕ) (f : BankState → BankState) → modify g i j k f i j k ≡ f (g i j k)
modify-here g i j k f = ground arith

module _ (config : Config) (q : Place) (t : CommandType) (d : ℤ) (ds : Delays) (clk : ℕ)
    (entry : Entry t d ds) where
  abbrev Reached : Grid → Type 0
  Reached = Held (add_time clk d) q t

  Reached-Slower : {g h : Grid} → Slower g h → Reached g → Reached h
  Reached-Slower s r = le_trans r (s.time q.i q.j q.k t)

  delay_bank-reach : (h : Grid) → Reached (delay_bank ds clk q.i q.j q.k h)
  delay_bank-reach h =
      rw (modify-here h q.i q.j q.k (apply_delays ds clk))
        (apply_delays-reach t d ds clk (h q.i q.j q.k) entry)

  pub bankgroup-reach :
      q.k < config.banks_per_group
      → (h : Grid) → Reached (update_bankgroup_timing config q.i q.j ds clk h)
  unfolding update_bankgroup_timing
  bankgroup-reach lt h =
      for_range_reach Reached (λ k h'. delay_bank ds clk q.i q.j k h') q.k delay_bank-reach
        (λ k h'. Reached-Slower (delay_bank-keep config h' ds clk q.i q.j k h' (Slower-refl h')))
        config.banks_per_group 0 h (omega arith) (omega arith)

  -- A round of a loop under a test, where the test holds.
  round_when : (b : Bool) (h h' : Grid) → b ≡ true → Reached h' → Reached (if b then h' else h)
  round_when b h h' e r = rw e r

  other : (m n : ℕ) → m ≢ n → not (m == n) ≡ true
  other m n h = ground arith

  pub same_bank-reach :
      (p : Place)
      → q.i ≡ p.i
      → q.j ≡ p.j
      → q.k ≡ p.k
      → (h : Grid) → Reached (update_same_bank_timing p ds clk h)
  unfolding update_same_bank_timing
  same_bank-reach p ei ej ek h =
      subst (λ i. Reached (delay_bank ds clk i p.j p.k h)) ei
        (subst (λ j. Reached (delay_bank ds clk q.i j p.k h)) ej
          (subst (λ k. Reached (delay_bank ds clk q.i q.j k h)) ek (delay_bank-reach h)))

  pub same_rank-reach :
      q.j < config.bankgroups
      → q.k < config.banks_per_group
      → (h : Grid) → Reached (update_same_rank_timing config q.i ds clk h)
  unfolding update_same_rank_timing
  same_rank-reach lj lk h =
      for_range_reach Reached _ q.j (bankgroup-reach lk)
        (λ j h'. Reached-Slower (bankgroup-keep config h' ds clk q.i j h' (Slower-refl h')))
        config.bankgroups 0 h (omega arith) (omega arith)

  module _ (p : Place) where
    pub other_banks-reach :
        q.i ≡ p.i
        → q.j ≡ p.j
        → q.k ≢ p.k
        → q.k < config.banks_per_group
        → (h : Grid) → Reached (update_other_banks_same_bankgroup_timing config p ds clk h)
    unfolding update_other_banks_same_bankgroup_timing
    other_banks-reach ei ej nk lt h =
        for_range_reach Reached _ q.k
          (λ h'. round_when (not (q.k == p.k)) h' _ (other q.k p.k nk) (
            subst (λ i. Reached (delay_bank ds clk i p.j q.k h')) ei
              (subst (λ j. Reached (delay_bank ds clk q.i j q.k h')) ej (delay_bank-reach h'))))
          (λ k h'. Reached-Slower (other_bank_round-keep config h' ds clk p k h' (Slower-refl h')))
          config.banks_per_group 0 h (omega arith) (omega arith)

    pub other_bankgroups-reach :
        q.i ≡ p.i
        → q.j ≢ p.j
        → q.j < config.bankgroups
        → q.k < config.banks_per_group
        → (h : Grid) → Reached (update_other_bankgroups_same_rank_timing config p ds clk h)
    unfolding update_other_bankgroups_same_rank_timing
    other_bankgroups-reach ei nj lj lk h =
        for_range_reach Reached _ q.j
          (λ h'. round_when (not (q.j == p.j)) h' _ (other q.j p.j nj) (
            subst (λ i. Reached (update_bankgroup_timing config i q.j ds clk h')) ei
              (bankgroup-reach lk h')))
          (λ j h'. Reached-Slower (other_group_round-keep config h' ds clk p j h' (Slower-refl h')))
          config.bankgroups 0 h (omega arith) (omega arith)

    pub other_ranks-reach :
        q.i ≢ p.i
        → q.i < config.ranks
        → q.j < config.bankgroups
        → q.k < config.banks_per_group
        → (h : Grid) → Reached (update_other_ranks_timing config p ds clk h)
    unfolding update_other_ranks_timing
    other_ranks-reach ni li lj lk h =
        for_range_reach Reached _ q.i
          (λ h'. round_when (not (q.i == p.i)) h' _ (other q.i p.i ni) (same_rank-reach lj lk h'))
          (λ i h'. Reached-Slower (other_rank_round-keep config h' ds clk p i h' (Slower-refl h')))
          config.ranks 0 h (omega arith) (omega arith)
