-- ===== src/Channel.antt =====
-- src/channel_state.h and src/channel_state.cc: the banks of one channel. Each vector has its size
-- from the configuration and keeps it, so it is a function of its indices here, beside a check of
-- the range; an index out of range is `none`.
pub mod Windows
pub mod Delays
pub mod Ready
pub mod Update
pub mod Activation
pub mod Faw
pub mod Keeps
pub mod Apart
pub mod RefreshQueue
use latest_zsim_dramsim.Prelude.{
  ◌≡◌, ◌≢◌, arith, ℕ, ◌+◌, ◌-◌, ◌%◌, ◌^◌, Bool, true, false, not, ◌&&◌, ◌||◌, ◌==◌, ltb,
  if◌then◌else◌, List, [], ◌∷◌, ℤ, pos, negsuc, index?, eq_ℤ, Option, none, some, ◌>>=◌, for_range,
  suc,
}
use latest_zsim_dramsim.Common.{Address, Command}
use latest_zsim_dramsim.Bank.{BankState, new_bank, is_row_open}
use latest_zsim_dramsim.Config.{Config}

abbrev pub Grid : Type 0
Grid = ℕ → ℕ → ℕ → BankState

pub record ChannelState : Type 0 where
  pub rank_idle_cycles : ℕ → ℕ
  pub rank_is_sref : ℕ → Bool
  pub bank_states : Grid
  pub refresh_q : List Command
  pub four_aw : ℕ → List ℕ
  pub thirty_two_aw : ℕ → List ℕ

-- `ChannelState::ChannelState`
abbrev pub new_channel : ChannelState
new_channel = record {
  rank_idle_cycles = λ _. 0;
  rank_is_sref = λ _. false;
  bank_states = λ _ _ _. new_bank;
  refresh_q = [];
  four_aw = λ _. [];
  thirty_two_aw = λ _. [];
}

-- One place of a vector written.
abbrev pub put {ℓ} : {A : Type ℓ} (v : ℕ → A) (i : ℕ) (a : A) → ℕ → A
put v i a k = if k == i then a else v k

pub put_self {ℓ} : {A : Type ℓ} (v : ℕ → A) (i : ℕ) (a : A) → put v i a i ≡ a
put_self v i a = ground arith

pub put_ne {ℓ} : {A : Type ℓ} (v : ℕ → A) (i k : ℕ) (a : A) → k ≢ i → put v i a k ≡ v k
put_ne v i k a h = ground arith

abbrev pub at_place : ℕ → ℕ → ℕ → ℕ → ℕ → ℕ → Bool
at_place i j k i' j' k' = (i' == i) && ((j' == j) && (k' == k))

-- One bank of the grid changed.
abbrev pub modify : Grid → ℕ → ℕ → ℕ → (BankState → BankState) → Grid
modify g i j k f i' j' k' = let b = g i' j' k' in if at_place i j k i' j' k' then f b else b

-- The three indices of a bank.
pub record Place : Type 0 where
  pub i : ℕ
  pub j : ℕ
  pub k : ℕ

module _ (config : Config) where
  abbrev pub rank? : ℤ → Option ℕ
  rank? r = do i ← index? r; if ltb i config.ranks then some i else none

  -- `bank_states_[rank][bankgroup][bank]` is there.
  abbrev pub place? : Address → Option Place
  place? a = do
    i ← rank? a.rank
    j ← index? a.bankgroup
    k ← index? a.bank
    if ltb j config.bankgroups && ltb k config.banks_per_group
        then some (record { i = i; j = j; k = k })
        else none

  -- `ChannelState::IsAllBankIdleInRank`
  unfoldable pub is_all_bank_idle_in_rank : ChannelState → ℕ → Bool
  unfolding for_range
  is_all_bank_idle_in_rank s i =
      for_range config.bankgroups 0
        (λ j idle.
          for_range config.banks_per_group 0
            (λ k idle'. idle' && not (is_row_open (s.bank_states i j k))) idle)
        true

  -- `ChannelState::InServeBankNum`
  unfoldable pub in_serve_bank_num : ChannelState → ℕ → ℕ
  unfolding for_range
  in_serve_bank_num s i =
      for_range config.bankgroups 0
        (λ j count.
          for_range config.banks_per_group 0
            (λ k count'. if (s.bank_states i j k).in_serve then count' + 1 else count') count)
        0

-- `ChannelState::IsRWPendingOnRef`, at a bank that is there.
unfoldable pub is_rw_pending_on_ref : ChannelState → Place → Command → Bool
is_rw_pending_on_ref s p cmd =
    let b = s.bank_states p.i p.j p.k in
    is_row_open b && ((b.row_hit_count == 0) && eq_ℤ b.open_row cmd.row)
