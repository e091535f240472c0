-- ===== src/Stats/Totals.antt =====
-- The totals of src/simple_stats.h and src/simple_stats.cc: what `UpdateEpochStats`, `UpdateFinalStats`
-- and `Reset` do to the counters, the vectors and the counts of the histograms.
pub mod Tally
use Prim.Native.String.{String}
use latest_zsim_dramsim.Prelude.{ℕ, ◌+◌}
use latest_zsim_dramsim.Common.{u64}
use latest_zsim_dramsim.Stats.{Stats, new_stats}

pub record Totals : Type 0 where
  pub epoch : Stats
  pub counters : String → ℕ
  pub vec_counters : String → ℕ → ℕ
  pub histo_counts : String → ℕ → ℕ

abbrev pub new_totals : Totals
new_totals = record {
  epoch = new_stats;
  counters = λ _. 0;
  vec_counters = λ _ _. 0;
  histo_counts = λ _ _. 0;
}

-- `SimpleStats::UpdateCounters`
unfoldable pub update_counters : Totals → Totals
update_counters t = record t {
  counters = λ n. u64 (t.counters n + t.epoch.epoch_counters n);
  vec_counters = λ n i. u64 (t.vec_counters n i + t.epoch.epoch_vec_counters n i);
}

-- The overall counts of `SimpleStats::UpdateHistoBins`: a value that is not there counts 0.
unfoldable pub update_histo_counts : Totals → Totals
update_histo_counts t = record t {
  histo_counts = λ n v. u64 (t.histo_counts n v + t.epoch.epoch_histo_counts n v);
}

-- `SimpleStats::UpdateFinalStats`, which leaves what the epoch counted.
unfoldable pub update_final_stats : Totals → Totals
update_final_stats t = update_histo_counts (update_counters t)

-- `SimpleStats::UpdateEpochStats`
unfoldable pub update_epoch_stats : Totals → Totals
update_epoch_stats t = record (update_histo_counts (update_counters t)) { epoch = new_stats }

-- `SimpleStats::Reset`, of the counters and the counts.
unfoldable pub reset : Totals → Totals
reset t = new_totals

-- `GetReadCmds`, `GetWriteCmds`, `GetReadRowHits` and `GetWriteRowHits`
unfoldable pub get_read_cmds : Totals → ℕ
get_read_cmds t = t.counters "num_reads_done"

unfoldable pub get_write_cmds : Totals → ℕ
get_write_cmds t = t.counters "num_writes_done"

unfoldable pub get_read_row_hits : Totals → ℕ
get_read_row_hits t = t.counters "num_read_row_hits"

unfoldable pub get_write_row_hits : Totals → ℕ
get_write_row_hits t = t.counters "num_write_row_hits"
