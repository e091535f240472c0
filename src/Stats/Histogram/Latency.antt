-- ===== src/Stats/Histogram/Latency.antt =====
-- The sum of the read latencies (src/simple_stats.cc).
use latest_zsim_dramsim.Prelude.{
  ℕ, ◌+◌, ◌*◌, ◌/◌, ◌%◌, ◌^◌, ◌<◌, ◌≡◌, refl, ap, sym, ◌∙◌, ◌==◌, Bool-cases, inl, inr, List, [],
  ◌∷◌, arith,
}
use native.Mathlib.Nat.{add-mul-mod_self_right, mul-add, mul_assoc, mul_comm, div-add-mod}
use latest_zsim_dramsim.Common.{u64}
use latest_zsim_dramsim.Stats.Histogram.{
  HistoCount, add_count, count_value, merge_counts, accumulate, get_read_latency,
}

-- The values times their counts, without wrapping.
abbrev weight : HistoCount → ℕ
weight [] = 0
weight ((v, c) ∷ counts) = v * c + weight counts

-- A factor may wrap before a product does.
mul-u64 : (v c : ℕ) → u64 (v * u64 c) ≡ u64 (v * c)
mul-u64 v c =
    let m = 2 ^ 64 in
    let whole : m * (c / m) + c % m ≡ c = div-add-mod c m in
    let swap : v * (m * (c / m)) ≡ v * (c / m) * m =
      ap (λ x. v * x) (mul_comm m (c / m)) ∙ sym (mul_assoc v (c / m) m) in
    let spread : v * c ≡ v * (c % m) + v * (c / m) * m =
      ap (λ x. v * x) (sym whole) ∙ mul-add v (m * (c / m)) (c % m) ∙ omega (arith, swap) in
    sym (ap (λ x. x % m) spread ∙ add-mul-mod_self_right (v * (c % m)) (v * (c / m)) m)

-- Terms may wrap before a sum does.
sum-u64 : (a b a' b' : ℕ) → u64 a ≡ u64 a' → u64 b ≡ u64 b' → u64 (a + b) ≡ u64 (a' + b')
sum-u64 a b a' b' e e' = omega (arith, e, e')

accumulate-weight :
    (acc : ℕ) (counts : HistoCount)
    → acc < 2 ^ 64
    → accumulate acc counts ≡ u64 (acc + weight counts)
unfolding accumulate
accumulate-weight acc [] h = omega arith
accumulate-weight acc ((v, c) ∷ counts) h =
    omega (arith, accumulate-weight (u64 (acc + u64 (v * c))) counts (omega arith))

add_count-weight :
    (value count : ℕ) (counts : HistoCount)
    → u64 (weight (add_count value count counts)) ≡ u64 (value * count + weight counts)
unfolding add_count
add_count-weight value count [] = refl
add_count-weight value count ((v, c) ∷ counts) = elim (Bool-cases (v == value)) [
  | inl y ↦
      let same : v ≡ value = ground arith in
      let more : v * (c + count) ≡ v * c + value * count =
        mul-add v c count ∙ ap (λ x. v * c + x * count) same in
      rw y (omega (arith, mul-u64 v (c + count), more))
  | inr n ↦ rw n (omega (arith, add_count-weight value count counts))
]

merge_counts-weight :
    (epoch final : HistoCount)
    → u64 (weight (merge_counts epoch final)) ≡ u64 (weight epoch + weight final)
unfolding merge_counts
merge_counts-weight [] final = omega arith
merge_counts-weight ((v, c) ∷ epoch) final =
    omega (arith, merge_counts-weight epoch (add_count v c final), add_count-weight v c final)

-- The histogram of the values recorded in an epoch, the last one first.
abbrev pub record_all : List ℕ → HistoCount
record_all [] = []
record_all (value ∷ values) = count_value value (record_all values)

-- The overall histogram after epochs, the last one first.
abbrev pub overall : List (List ℕ) → HistoCount
overall [] = []
overall (values ∷ epochs) = merge_counts (record_all values) (overall epochs)

abbrev pub sum : List ℕ → ℕ
sum [] = 0
sum (value ∷ values) = value + sum values

abbrev pub sum_all : List (List ℕ) → ℕ
sum_all [] = 0
sum_all (values ∷ epochs) = sum values + sum_all epochs

record_all-weight : (values : List ℕ) → u64 (weight (record_all values)) ≡ u64 (sum values)
record_all-weight [] = refl
record_all-weight (value ∷ values) =
    omega (arith, add_count-weight value 1 (record_all values), record_all-weight values)

overall-weight : (epochs : List (List ℕ)) → u64 (weight (overall epochs)) ≡ u64 (sum_all epochs)
overall-weight [] = refl
overall-weight (values ∷ epochs) = omega (
  arith,
  merge_counts-weight (record_all values) (overall epochs),
  record_all-weight values,
  overall-weight epochs,
)

-- When values have been counted in any number of epochs, each of which was merged into the overall
-- counts, `GetReadLatency` of these is the sum of all the values modulo 2^64.
pub get_read_latency-sum :
    (epochs : List (List ℕ)) → get_read_latency (overall epochs) ≡ u64 (sum_all epochs)
unfolding get_read_latency
get_read_latency-sum epochs =
    omega (arith, accumulate-weight 0 (overall epochs) (omega arith), overall-weight epochs)
