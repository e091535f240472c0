-- ===== src/Channel/Delays/Slower.antt =====
-- The times of the banks before and after `UpdateTiming` (src/channel_state.cc).
use latest_zsim_dramsim.Prelude.{
  ℕ, ◌≤◌, ◌≡◌, Bool, true, false, not, ◌==◌, if◌then◌else◌, [], ◌∷◌, ◌⊎◌, inl, inr, arith,
  for_range_keep, Bool-cases,
}
use native.Mathlib.Nat.{le_refl, le_trans}
use latest_zsim_dramsim.Common.{CommandType}
use latest_zsim_dramsim.Bank
use latest_zsim_dramsim.Bank.{BankState}
use latest_zsim_dramsim.Config.{Config}
use latest_zsim_dramsim.Timing.{Delays}
use latest_zsim_dramsim.Channel.{Grid, Place, modify, at_place}
use latest_zsim_dramsim.Channel.Delays.{
  add_time, apply_delays, delay_bank, update_same_bank_timing,
  update_other_banks_same_bankgroup_timing, update_bankgroup_timing,
  update_other_bankgroups_same_rank_timing, update_same_rank_timing, update_other_ranks_timing,
}

-- No command may be issued earlier than before.
abbrev pub SlowerBank : BankState → BankState → Type 0
SlowerBank b b' = (t : CommandType) → b.cmd_timing t ≤ b'.cmd_timing t

pub record Slower (g g' : Grid) : Type 0 where
  pub time : (i j k : ℕ) → SlowerBank (g i j k) (g' i j k)

pub Slower-refl : (g : Grid) → Slower g g
Slower-refl g = record { time = λ i j k t. le_refl _ }

pub Slower-trans : {g h k : Grid} → Slower g h → Slower h k → Slower g k
Slower-trans p q = record { time = λ i j k t. le_trans (p.time i j k t) (q.time i j k t) }

update_timing-slower :
    (b : BankState) (t : CommandType) (n : ℕ) → SlowerBank b (Bank.update_timing b t n)
unfolding Bank.update_timing
update_timing-slower b t n u = ground arith

pub apply_delays-slower :
    (ds : Delays) (clk : ℕ) (b : BankState) → SlowerBank b (apply_delays ds clk b)
unfolding apply_delays
apply_delays-slower [] clk b t = le_refl _
apply_delays-slower ((u, d) ∷ ds) clk b t =
    le_trans (update_timing-slower b u (add_time clk d) t)
      (apply_delays-slower ds clk (Bank.update_timing b u (add_time clk d)) t)

-- A grid with one bank changed, read at a bank.
pub modify_cases :
    (g : Grid) (i j k : ℕ) (f : BankState → BankState) (i' j' k' : ℕ)
    → ((i' ≡ i) × (j' ≡ j) × (k' ≡ k) × (modify g i j k f i' j' k' ≡ f (g i' j' k')))
      ⊎ (modify g i j k f i' j' k' ≡ g i' j' k')
modify_cases g i j k f i' j' k' = elim (Bool-cases (at_place i j k i' j' k')) [
  | inl y ↦ inl (ground arith, ground arith, ground arith, rw y)
  | inr n ↦ inr (rw n)
]

slower_at :
    (g : Grid) (i j k : ℕ) (f : BankState → BankState) (i' j' k' : ℕ)
    → SlowerBank (g i j k) (f (g i j k))
    → SlowerBank (g i' j' k') (modify g i j k f i' j' k')
slower_at g i j k f i' j' k' h = elim (modify_cases g i j k f i' j' k') [
  | inl (p, q, r, e) ↦ rw (e, p, q, r) h
  | inr e ↦ rw e (λ t. le_refl _)
]

pub modify-Slower :
    (g : Grid) (i j k : ℕ) (f : BankState → BankState)
    → SlowerBank (g i j k) (f (g i j k))
    → Slower g (modify g i j k f)
modify-Slower g i j k f h = record { time = λ i' j' k'. slower_at g i j k f i' j' k' h }

module _ (config : Config) (g : Grid) (ds : Delays) (clk : ℕ) where
  pub delay_bank-keep : (i j k : ℕ) (h : Grid) → Slower g h → Slower g (delay_bank ds clk i j k h)
  delay_bank-keep i j k h s =
      Slower-trans s
        (modify-Slower h i j k (apply_delays ds clk) (apply_delays-slower ds clk (h i j k)))

  -- A round of a loop under a test.
  when-keep : (b : Bool) (h h' : Grid) → Slower g h → Slower g h' → Slower g (if b then h' else h)
  when-keep true h h' p q = q
  when-keep false h h' p q = p

  pub bankgroup-keep :
      (i j : ℕ) (h : Grid) → Slower g h → Slower g (update_bankgroup_timing config i j ds clk h)
  unfolding update_bankgroup_timing
  bankgroup-keep i j h s =
      for_range_keep (Slower g) (λ k h'. delay_bank ds clk i j k h')
        (λ k h'. delay_bank-keep i j k h') config.banks_per_group 0 h s

  pub other_bank_round-keep :
      (p : Place) (k : ℕ) (h : Grid)
      → Slower g h
      → Slower g (if not (k == p.k) then delay_bank ds clk p.i p.j k h else h)
  other_bank_round-keep p k h s = when-keep (not (k == p.k)) h _ s (delay_bank-keep p.i p.j k h s)

  pub other_banks-keep :
      (p : Place) (h : Grid)
      → Slower g h
      → Slower g (update_other_banks_same_bankgroup_timing config p ds clk h)
  unfolding update_other_banks_same_bankgroup_timing
  other_banks-keep p h s =
      for_range_keep (Slower g) _ (other_bank_round-keep p) config.banks_per_group 0 h s

  pub other_group_round-keep :
      (p : Place) (j : ℕ) (h : Grid)
      → Slower g h
      → Slower g (if not (j == p.j) then update_bankgroup_timing config p.i j ds clk h else h)
  other_group_round-keep p j h s = when-keep (not (j == p.j)) h _ s (bankgroup-keep p.i j h s)

  pub other_bankgroups-keep :
      (p : Place) (h : Grid)
      → Slower g h
      → Slower g (update_other_bankgroups_same_rank_timing config p ds clk h)
  unfolding update_other_bankgroups_same_rank_timing
  other_bankgroups-keep p h s =
      for_range_keep (Slower g) _ (other_group_round-keep p) config.bankgroups 0 h s

  pub same_rank-keep :
      (i : ℕ) (h : Grid) → Slower g h → Slower g (update_same_rank_timing config i ds clk h)
  unfolding update_same_rank_timing
  same_rank-keep i h s =
      for_range_keep (Slower g) _ (λ j. bankgroup-keep i j) config.bankgroups 0 h s

  pub other_rank_round-keep :
      (p : Place) (i : ℕ) (h : Grid)
      → Slower g h
      → Slower g (if not (i == p.i) then update_same_rank_timing config i ds clk h else h)
  other_rank_round-keep p i h s = when-keep (not (i == p.i)) h _ s (same_rank-keep i h s)

  pub other_ranks-keep :
      (p : Place) (h : Grid) → Slower g h → Slower g (update_other_ranks_timing config p ds clk h)
  unfolding update_other_ranks_timing
  other_ranks-keep p h s = for_range_keep (Slower g) _ (other_rank_round-keep p) config.ranks 0 h s

  pub same_bank-keep :
      (p : Place) (h : Grid) → Slower g h → Slower g (update_same_bank_timing p ds clk h)
  unfolding update_same_bank_timing
  same_bank-keep p h s = delay_bank-keep p.i p.j p.k h s
