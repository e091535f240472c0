-- ===== src/Channel/RefreshQueue/Pending.antt =====
-- A refresh that is asked for and then done (src/channel_state.cc).
use latest_zsim_dramsim.Prelude.{
  ◌≡◌, refl, ap, true, false, Bool, List, [], ◌∷◌, ◌++◌, ℤ, eq_ℤ_refl, All,
}
use latest_zsim_dramsim.Common.{Command}
use latest_zsim_dramsim.Channel.{ChannelState}
use latest_zsim_dramsim.Channel.RefreshQueue.{
  erase_first, rank_refresh, bank_refresh, at_rank, at_bank, rank_need_refresh, bank_need_refresh,
}

-- The command appended last goes, where no earlier one passes the test.
erase_first-append :
    (test : Command → Bool) (cs : List Command) (c : Command)
    → All (λ d. test d ≡ false) cs
    → test c ≡ true
    → erase_first test (cs ++ c ∷ []) ≡ cs
unfolding erase_first
erase_first-append test [] c n y = rw y refl
erase_first-append test (d ∷ cs) c n y =
    rw (n.0) (ap (λ l. d ∷ l) (erase_first-append test cs c n.1 y))

-- A rank refresh that is asked for and then done leaves the waiting refreshes as they were, where
-- no other refresh of the rank waits.
pub rank_need_refresh-twice :
    (s : ChannelState) (rank : ℤ)
    → All (λ c. at_rank rank c ≡ false) s.refresh_q
    → rank_need_refresh (rank_need_refresh s rank true) rank false ≡ s
unfolding rank_need_refresh
rank_need_refresh-twice s rank h =
    ap (λ q. record s { refresh_q = q })
      (erase_first-append (at_rank rank) s.refresh_q (rank_refresh rank) h (eq_ℤ_refl rank))

-- A bank refresh that is asked for and then done leaves the waiting refreshes as they were, where
-- no other refresh of the bank waits.
pub bank_need_refresh-twice :
    (s : ChannelState) (rank bankgroup bank : ℤ)
    → All (λ c. at_bank rank bankgroup bank c ≡ false) s.refresh_q
    → bank_need_refresh (bank_need_refresh s rank bankgroup bank true) rank bankgroup bank false ≡ s
unfolding bank_need_refresh
bank_need_refresh-twice s rank bankgroup bank h =
    ap (λ q. record s { refresh_q = q })
      (erase_first-append (at_bank rank bankgroup bank) s.refresh_q
        (bank_refresh rank bankgroup bank) h
        (rw (eq_ℤ_refl rank, eq_ℤ_refl bankgroup, eq_ℤ_refl bank) refl))
