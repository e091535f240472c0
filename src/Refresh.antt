-- ===== src/Refresh.antt =====
-- src/refresh.h and src/refresh.cc: when a refresh is asked for, and of which rank or bank.
pub mod Rotation
use latest_zsim_dramsim.Prelude.{
  ℕ, suc, zero, ◌+◌, ◌%◌, ◌/◌, Bool, true, not, ◌&&◌, ◌==◌, ltb, if◌then◌else◌, pos, Option, none,
  some, ◌>>=◌,
}
use latest_zsim_dramsim.Common.{u64}
use latest_zsim_dramsim.Config.{
  Config, RefreshPolicy, rank_level_simultaneous, rank_level_staggered, bank_level_staggered,
}
use latest_zsim_dramsim.Channel.{ChannelState}
use latest_zsim_dramsim.Channel.RefreshQueue.{rank_need_refresh, bank_need_refresh}

pub record Refresh : Type 0 where
  pub clk : ℕ
  pub refresh_interval : ℕ
  pub next_rank : ℕ
  pub next_bg : ℕ
  pub next_bank : ℕ

abbrev pub interval : RefreshPolicy → Config → ℕ
interval rank_level_simultaneous c = c.t_refi
interval bank_level_staggered c = c.t_refib
interval _ c = c.t_refi / c.ranks

-- `Refresh::Refresh`
abbrev pub new_refresh : Config → Refresh
new_refresh c = record {
  clk = 0;
  refresh_interval = interval c.refresh_policy c;
  next_rank = 0;
  next_bg = 0;
  next_bank = 0;
}

module _ (config : Config) where
  abbrev pub iterate_bank : Refresh → Refresh
  iterate_bank r =
      let bg : ℕ = (r.next_bg + 1) % config.bankgroups in
      let bank : ℕ = (r.next_bank + 1) % config.banks_per_group in
      let r' = record r { next_bg = bg } in
      if bg == 0
      then (if bank == 0
          then record r' { next_bank = bank; next_rank = (r.next_rank + 1) % config.ranks }
          else record r' { next_bank = bank })
      else r'

  -- `Refresh::IterateNext`
  unfoldable pub iterate_next : RefreshPolicy → Refresh → Option Refresh
  iterate_next rank_level_staggered r =
      some (record r { next_rank = (r.next_rank + 1) % config.ranks })
  iterate_next bank_level_staggered r = some (iterate_bank r)
  iterate_next _ r = none

  -- The loop of the simultaneous policy, from rank `i` on; it ends at the first rank served.
  unfoldable pub refresh_first_awake : ℕ → ℕ → ChannelState → ChannelState
  refresh_first_awake zero i s = s
  refresh_first_awake (suc n) i s =
      let rest = refresh_first_awake n (i + 1) s in
      if not (s.rank_is_sref i) then rank_need_refresh s (pos i) true else rest

  -- `Refresh::InsertRefresh`
  unfoldable pub insert_refresh :
      RefreshPolicy → Refresh → ChannelState → Option (Refresh × ChannelState)
  unfolding iterate_next refresh_first_awake
  insert_refresh rank_level_simultaneous r s = some (r, refresh_first_awake config.ranks 0 s)
  insert_refresh rank_level_staggered r s = do
    r' ← iterate_next rank_level_staggered r
    some (
      r',
      if not (s.rank_is_sref r.next_rank) then rank_need_refresh s (pos r.next_rank) true else s,
    )
  insert_refresh bank_level_staggered r s = do
    r' ← iterate_next bank_level_staggered r
    some (
      r',
      if not (s.rank_is_sref r.next_rank)
          then bank_need_refresh s (pos r.next_rank) (pos r.next_bg) (pos r.next_bank) true
          else s,
    )
  insert_refresh _ r s = none

  -- A refresh is due at every multiple of the interval but 0. (An interval of 0 is a division by
  -- zero.)
  abbrev pub is_due : Refresh → Bool
  is_due r = (r.clk % r.refresh_interval == 0) && ltb 0 r.clk

  -- `Refresh::ClockTick`
  unfoldable pub clock_tick : Refresh → ChannelState → Option (Refresh × ChannelState)
  unfolding insert_refresh
  clock_tick r s = if r.refresh_interval == 0 then none else (do
    (r', s') ← if is_due r then insert_refresh config.refresh_policy r s else some (r, s)
    some (record r' { clk = u64 (r.clk + 1) }, s'))
