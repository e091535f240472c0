-- ===== src/Stats.antt =====
-- src/simple_stats.h and src/simple_stats.cc: the counters of one epoch. The tables are maps from
-- names, so functions of the name here; printing is not modelled.
pub mod Histogram
pub mod Totals
use Prim.Native.String.{String}
use text.Mathlib.Text.{◌==◌ as str_eq}
use latest_zsim_dramsim.Prelude.{ℕ, ◌+◌, ◌==◌, if◌then◌else◌}
use latest_zsim_dramsim.Common.{u64}

pub record Stats : Type 0 where
  pub epoch_counters : String → ℕ
  pub epoch_vec_counters : String → ℕ → ℕ
  pub epoch_histo_counts : String → ℕ → ℕ

abbrev pub new_stats : Stats
new_stats = record {
  epoch_counters = λ _. 0;
  epoch_vec_counters = λ _ _. 0;
  epoch_histo_counts = λ _ _. 0;
}

-- `SimpleStats::Increment`
unfoldable pub increment : String → Stats → Stats
increment name s = record s {
  epoch_counters = λ n. if str_eq n name then u64 (s.epoch_counters n + 1) else s.epoch_counters n;
}

-- `SimpleStats::IncrementVec`
unfoldable pub increment_vec : String → ℕ → Stats → Stats
increment_vec name place s = record s {
  epoch_vec_counters = λ n i.
      let v = s.epoch_vec_counters n i in
      if str_eq n name then (if i == place then u64 (v + 1) else v) else v;
}

-- `SimpleStats::AddValue`, of a value that fits an `int`: one that is not there yet, or was counted 0
-- times, is counted once.
unfoldable pub add_value : String → ℕ → Stats → Stats
add_value name value s = record s {
  epoch_histo_counts = λ n v.
      let count = s.epoch_histo_counts n v in
      if str_eq n name then (if v == value then u64 (count + 1) else count) else count;
}
