-- ===== src/Stats/Histogram.antt =====
-- The histograms of src/simple_stats.cc. The counts of a histogram, an unordered map from values, are a
-- list of values with their counts, each value once.
pub mod Latency
pub mod Bins
use latest_zsim_dramsim.Prelude.{
  ℕ, suc, ◌+◌, ◌-◌, ◌*◌, ◌/◌, ltb, ◌==◌, if◌then◌else◌, List, [], ◌∷◌, Option, none, some, ◌>>=◌,
}
use latest_zsim_dramsim.Common.{u64}

abbrev pub HistoCount : Type 0
HistoCount = List (ℕ × ℕ)

-- A value that is not there yet comes in with its count, another is counted that often more.
unfoldable pub add_count : ℕ → ℕ → HistoCount → HistoCount
add_count value count [] = (value, count) ∷ []
add_count value count ((v, c) ∷ counts) =
    let rest = add_count value count counts in
    if v == value then (v, u64 (c + count)) ∷ counts else (v, c) ∷ rest

-- `SimpleStats::AddValue`
abbrev pub count_value : ℕ → HistoCount → HistoCount
count_value value counts = add_count value 1 counts

-- The overall counts, from those of an epoch: the second loop of `UpdateHistoBins`.
unfoldable pub merge_counts : HistoCount → HistoCount → HistoCount
unfolding add_count
merge_counts [] final_counts = final_counts
merge_counts ((value, count) ∷ epoch_counts) final_counts =
    merge_counts epoch_counts (add_count value count final_counts)

-- The loop of `GetReadLatency`.
unfoldable pub accumulate : ℕ → HistoCount → ℕ
accumulate accu_sum [] = accu_sum
accumulate accu_sum ((value, count) ∷ counts) =
    accumulate (u64 (accu_sum + u64 (value * count))) counts

-- `SimpleStats::GetReadLatency`, of the counts of the read latencies.
unfoldable pub get_read_latency : HistoCount → ℕ
unfolding accumulate
get_read_latency counts = accumulate 0 counts

-- The bounds and the bins of `InitHistoStat`.
pub record Bounds : Type 0 where
  pub start_val : ℕ
  pub end_val : ℕ
  pub bin_width : ℕ
  pub num_bins : ℕ

-- `InitHistoStat`; no bins end the process at the division.
unfoldable pub init_histo : ℕ → ℕ → ℕ → Option Bounds
init_histo start_val end_val num_bins =
    if num_bins == 0
    then none
    else some (record {
      start_val = start_val;
      end_val = end_val;
      bin_width = (end_val - start_val) / num_bins;
      num_bins = num_bins;
    })

-- The bin of a value; a width of 0 ends the process at the division.
unfoldable pub bin_index : Bounds → ℕ → Option ℕ
bin_index b value =
    if ltb value b.start_val
    then some 0
    else if ltb b.end_val value
    then some (b.num_bins + 1)
    else if b.bin_width == 0
    then none
    else some ((value - b.start_val) / b.bin_width + 1)

-- The first loop of `UpdateHistoBins`, for one histogram. An index past the bins is out of the vector.
unfoldable pub fill_bins : Bounds → HistoCount → (ℕ → ℕ) → Option (ℕ → ℕ)
unfolding bin_index
fill_bins b [] bins = some bins
fill_bins b ((value, count) ∷ counts) bins = do
  index ← bin_index b value
  let bins' : ℕ → ℕ = λ k. if k == index then u64 (bins k + count) else bins k
  if ltb index (b.num_bins + 2) then fill_bins b counts bins' else none

-- The bins of an epoch, which are cleared before.
abbrev pub epoch_bins : Bounds → HistoCount → Option (ℕ → ℕ)
epoch_bins b counts = fill_bins b counts (λ k. 0)
