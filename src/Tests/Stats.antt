-- ===== src/Tests/Stats.antt =====
-- The statistics at concrete values.
use latest_zsim_dramsim.Prelude.{ℕ, List, ◌≡◌, refl, [], ◌∷◌, some, arith}
use latest_zsim_dramsim.Common.{u64}
use latest_zsim_dramsim.Stats.Totals.{update_final_stats}
use latest_zsim_dramsim.Stats.Totals.Tally.{
  incremented, incremented_vec, value_added, epoch_printed, was_reset, Event, after,
  update_final_stats-tally,
}
use latest_zsim_dramsim.Stats.Histogram.{
  Bounds, HistoCount, init_histo, epoch_bins, get_read_latency,
}
use latest_zsim_dramsim.Stats.Histogram.Latency.{overall, get_read_latency-sum}
use latest_zsim_dramsim.Stats.Histogram.Bins.{labelled_count, Even, epoch_bins-labelled}

-- Two epochs, with a latency of both.
get_read_latency-sum_example :
    get_read_latency (overall ((30 ∷ 41 ∷ []) ∷ (30 ∷ 30 ∷ []) ∷ [])) ≡ u64 131
get_read_latency-sum_example = get_read_latency-sum ((30 ∷ 41 ∷ []) ∷ (30 ∷ 30 ∷ []) ∷ [])

-- The bounds of the read latency.
abbrev bounds : Bounds
bounds = record { start_val = 0; end_val = 200; bin_width = 20; num_bins = 10 }

bounds_made : init_histo 0 200 10 ≡ some bounds
unfolding init_histo
bounds_made = refl

bounds-Even : Even bounds
bounds-Even = record { wide = omega arith; whole = omega arith }

abbrev counts : HistoCount
counts = (30, 7) ∷ (200, 2) ∷ (39, 1) ∷ (250, 4) ∷ []

epoch_bins-labelled_example :
    (bins : ℕ → ℕ) × (epoch_bins bounds counts ≡ some bins)
    × ((k : ℕ) → bins k ≡ u64 (labelled_count bounds k counts))
epoch_bins-labelled_example = epoch_bins-labelled bounds counts bounds-Even

-- A call before the reset, and two after it in different epochs; the last one first.
abbrev calls : List Event
calls =
    incremented "num_cycles"
    ∷ incremented_vec "sref_cycles" 1
    ∷ epoch_printed
    ∷ incremented "num_cycles"
    ∷ value_added "read_latency" 7
    ∷ was_reset
    ∷ incremented "num_cycles"
    ∷ []

update_final_stats-tally_example :
    ((update_final_stats (after calls)).counters "num_cycles" ≡ 2)
    × ((update_final_stats (after calls)).vec_counters "num_cycles" 1 ≡ 0)
    × ((update_final_stats (after calls)).histo_counts "num_cycles" 1 ≡ 0)
update_final_stats-tally_example = update_final_stats-tally calls "num_cycles" 1
