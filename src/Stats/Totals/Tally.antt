-- ===== src/Stats/Totals/Tally.antt =====
-- The totals of the statistics against a tally of what was counted (src/simple_stats.cc).
use Prim.Native.String.{String}
use text.Mathlib.Text.{◌==◌ as str_eq}
use latest_zsim_dramsim.Prelude.{
  ℕ, ◌+◌, ◌≡◌, refl, ◌==◌, if◌then◌else◌, List, [], ◌∷◌, Bool, true, false, ◌&&◌, Bool-cases, inl,
  inr, arith,
}
use latest_zsim_dramsim.Common.{u64}
use latest_zsim_dramsim.Stats.{increment, increment_vec, add_value}
use latest_zsim_dramsim.Stats.Totals.{
  Totals, new_totals, update_counters, update_histo_counts, update_final_stats, update_epoch_stats,
  reset,
}

-- The calls that write the statistics.
pub data Event : Type 0 where
  incremented : String → Event
  incremented_vec : String → ℕ → Event
  value_added : String → ℕ → Event
  epoch_printed : Event
  was_reset : Event

-- A call on the statistics.
abbrev pub call : Event → Totals → Totals
call (incremented name) t = record t { epoch = increment name t.epoch }
call (incremented_vec name place) t = record t { epoch = increment_vec name place t.epoch }
call (value_added name value) t = record t { epoch = add_value name value t.epoch }
call epoch_printed t = update_epoch_stats t
call was_reset t = reset t

-- The statistics after calls, the last one first.
abbrev pub after : List Event → Totals
after [] = new_totals
after (e ∷ es) = call e (after es)

-- What a call counts: one for the entry that it names.
abbrev counts_name : String → Event → Bool
counts_name n (incremented name) = str_eq n name
counts_name n (incremented_vec name place) = false
counts_name n (value_added name value) = false
counts_name n epoch_printed = false
counts_name n was_reset = false

abbrev counts_place : String → ℕ → Event → Bool
counts_place n i (incremented name) = false
counts_place n i (incremented_vec name place) = str_eq n name && i == place
counts_place n i (value_added name value) = false
counts_place n i epoch_printed = false
counts_place n i was_reset = false

abbrev counts_value : String → ℕ → Event → Bool
counts_value n v (incremented name) = false
counts_value n v (incremented_vec name place) = false
counts_value n v (value_added name value) = str_eq n name && v == value
counts_value n v epoch_printed = false
counts_value n v was_reset = false

abbrev is_reset : Event → Bool
is_reset (incremented name) = false
is_reset (incremented_vec name place) = false
is_reset (value_added name value) = false
is_reset epoch_printed = false
is_reset was_reset = true

-- How many of the calls since the last `Reset` pass a test.
abbrev since_reset : (Event → Bool) → List Event → ℕ
since_reset test [] = 0
since_reset test (e ∷ es) =
    let rest = since_reset test es in if is_reset e then 0 else if test e then rest + 1 else rest

abbrev pub count_tally : String → List Event → ℕ
count_tally n es = since_reset (counts_name n) es

abbrev pub place_tally : String → ℕ → List Event → ℕ
place_tally n i es = since_reset (counts_place n i) es

abbrev pub value_tally : String → ℕ → List Event → ℕ
value_tally n v es = since_reset (counts_value n v) es

-- How an entry of the totals and of the epoch stands to its count.
counters-tally :
    (n : String) (es : List Event)
    → u64 ((after es).counters n + (after es).epoch.epoch_counters n) ≡ u64 (count_tally n es)
unfolding increment increment_vec add_value update_epoch_stats update_histo_counts update_counters
    reset
counters-tally n [] = refl
counters-tally n (incremented name ∷ es) = elim (Bool-cases (str_eq n name)) [
  | inl y ↦ rw y (omega (arith, counters-tally n es))
  | inr m ↦ rw m (counters-tally n es)
]
counters-tally n (incremented_vec name place ∷ es) = counters-tally n es
counters-tally n (value_added name value ∷ es) = counters-tally n es
counters-tally n (epoch_printed ∷ es) = omega (arith, counters-tally n es)
counters-tally n (was_reset ∷ es) = refl

vec_counters-tally :
    (n : String) (i : ℕ) (es : List Event)
    → u64 ((after es).vec_counters n i + (after es).epoch.epoch_vec_counters n i)
      ≡ u64 (place_tally n i es)
unfolding increment increment_vec add_value update_epoch_stats update_histo_counts update_counters
    reset
vec_counters-tally n i [] = refl
vec_counters-tally n i (incremented name ∷ es) = vec_counters-tally n i es
vec_counters-tally n i (incremented_vec name place ∷ es) = elim (Bool-cases (str_eq n name)) [
  | inl y ↦ elim (Bool-cases (i == place)) [
    | inl z ↦ rw (y, z) (omega (arith, vec_counters-tally n i es))
    | inr m ↦ rw (y, m) (vec_counters-tally n i es)
  ]
  | inr m ↦ rw m (vec_counters-tally n i es)
]
vec_counters-tally n i (value_added name value ∷ es) = vec_counters-tally n i es
vec_counters-tally n i (epoch_printed ∷ es) = omega (arith, vec_counters-tally n i es)
vec_counters-tally n i (was_reset ∷ es) = refl

histo_counts-tally :
    (n : String) (v : ℕ) (es : List Event)
    → u64 ((after es).histo_counts n v + (after es).epoch.epoch_histo_counts n v)
      ≡ u64 (value_tally n v es)
unfolding increment increment_vec add_value update_epoch_stats update_histo_counts update_counters
    reset
histo_counts-tally n v [] = refl
histo_counts-tally n v (incremented name ∷ es) = histo_counts-tally n v es
histo_counts-tally n v (incremented_vec name place ∷ es) = histo_counts-tally n v es
histo_counts-tally n v (value_added name value ∷ es) = elim (Bool-cases (str_eq n name)) [
  | inl y ↦ elim (Bool-cases (v == value)) [
    | inl z ↦ rw (y, z) (omega (arith, histo_counts-tally n v es))
    | inr m ↦ rw (y, m) (histo_counts-tally n v es)
  ]
  | inr m ↦ rw m (histo_counts-tally n v es)
]
histo_counts-tally n v (epoch_printed ∷ es) = omega (arith, histo_counts-tally n v es)
histo_counts-tally n v (was_reset ∷ es) = refl

-- After any calls of `Increment`, `IncrementVec`, `AddValue`, `UpdateEpochStats` and `Reset`, what
-- `UpdateFinalStats` leaves in the counters, the vectors and the overall counts of the histograms is
-- how often each name, place or value was counted since the last `Reset`, modulo 2^64, whatever the
-- epochs were.
pub update_final_stats-tally :
    (es : List Event) (n : String) (k : ℕ)
    → ((update_final_stats (after es)).counters n ≡ u64 (count_tally n es))
      × ((update_final_stats (after es)).vec_counters n k ≡ u64 (place_tally n k es))
      × ((update_final_stats (after es)).histo_counts n k ≡ u64 (value_tally n k es))
unfolding update_final_stats update_histo_counts update_counters
update_final_stats-tally es n k =
    (counters-tally n es, vec_counters-tally n k es, histo_counts-tally n k es)
