-- ===== src/Channel/RefreshQueue.antt =====
-- src/channel_state.h and src/channel_state.cc: the refreshes that wait to be issued.
pub mod Pending
use latest_zsim_dramsim.Prelude.{
  ℕ, ◌-◌, ◌^◌, Bool, true, false, ◌&&◌, if◌then◌else◌, List, [], ◌∷◌, ◌++◌, ℤ, eq_ℤ, Option, none,
  some,
}
use latest_zsim_dramsim.Common.{no_address, Command, refresh, refresh_bank}
use latest_zsim_dramsim.Channel.{ChannelState}

-- The `uint64_t` of -1.
abbrev pub no_hex_addr : ℕ
no_hex_addr = 2 ^ 64 - 1

-- The loop that erases the first command that passes the test.
unfoldable pub erase_first : (Command → Bool) → List Command → List Command
erase_first test [] = []
erase_first test (c ∷ cs) = if test c then cs else c ∷ erase_first test cs

abbrev pub rank_refresh : ℤ → Command
rank_refresh rank = record {
  cmd_type = refresh;
  addr = record no_address { rank = rank };
  hex_addr = no_hex_addr;
}

abbrev pub bank_refresh : ℤ → ℤ → ℤ → Command
bank_refresh rank bankgroup bank = record {
  cmd_type = refresh_bank;
  addr = record no_address { rank = rank; bankgroup = bankgroup; bank = bank };
  hex_addr = no_hex_addr;
}

abbrev pub at_rank : ℤ → Command → Bool
at_rank rank c = eq_ℤ c.rank rank

abbrev pub at_bank : ℤ → ℤ → ℤ → Command → Bool
at_bank rank bankgroup bank c = eq_ℤ c.rank rank && (eq_ℤ c.bankgroup bankgroup && eq_ℤ c.bank bank)

-- `ChannelState::RankNeedRefresh`
unfoldable pub rank_need_refresh : ChannelState → ℤ → Bool → ChannelState
unfolding erase_first
rank_need_refresh s rank need =
    if need
    then record s { refresh_q = s.refresh_q ++ rank_refresh rank ∷ [] }
    else record s { refresh_q = erase_first (at_rank rank) s.refresh_q }

-- `ChannelState::BankNeedRefresh`
unfoldable pub bank_need_refresh : ChannelState → ℤ → ℤ → ℤ → Bool → ChannelState
unfolding erase_first
bank_need_refresh s rank bankgroup bank need =
    if need
    then record s { refresh_q = s.refresh_q ++ bank_refresh rank bankgroup bank ∷ [] }
    else record s { refresh_q = erase_first (at_bank rank bankgroup bank) s.refresh_q }

-- `ChannelState::IsRefreshWaiting`
unfoldable pub is_refresh_waiting : ChannelState → Bool
is_refresh_waiting s = elim s.refresh_q [ [] ↦ false | c ∷ cs ↦ true ]

-- `ChannelState::PendingRefCommand`: the front of the vector, which must not be empty.
unfoldable pub pending_ref_command : ChannelState → Option Command
pending_ref_command s = elim s.refresh_q [ [] ↦ none | c ∷ cs ↦ some c ]
