-- ===== src/Stats/Histogram/Bins.antt =====
-- The bins of a histogram and their labels (src/simple_stats.cc).
use latest_zsim_dramsim.Prelude.{
  ℕ, zero, suc, ◌+◌, ◌-◌, ◌*◌, ◌/◌, ◌^◌, ◌≤◌, ◌<◌, ◌≡◌, refl, ap, ◌∙◌, ltb, leb, ◌==◌,
  if◌then◌else◌, Bool, false, ◌&&◌, Bool-cases, inl, inr, [], ◌∷◌, some, arith, lt→ltb,
}
use native.Mathlib.Decide.{ℕ_discrete}
use native.Mathlib.Nat.{div-mul-le_self, lt-div-mul-add, mul-le-mul_right, suc-mul}
use latest_zsim_dramsim.Common.{u64}
use latest_zsim_dramsim.Stats.Histogram.{Bounds, HistoCount, bin_index, fill_bins, epoch_bins}

-- A value has the label of a bin: the first bin has what is below the start, the last one what is not
-- below the end, and bin k + 1 the k-th stretch of a width from the start on.
abbrev pub labelled : Bounds → ℕ → ℕ → Bool
labelled b zero value = ltb value b.start_val
labelled b (suc k) value =
    if k == b.num_bins
    then leb b.end_val value
    else ltb k b.num_bins
      && leb (b.start_val + k * b.bin_width) value
      && ltb value (b.start_val + k * b.bin_width + b.bin_width)

-- The counts of the values with the label.
abbrev pub labelled_count : Bounds → ℕ → HistoCount → ℕ
labelled_count b k [] = 0
labelled_count b k ((value, count) ∷ counts) =
    (if labelled b k value then count else 0) + labelled_count b k counts

-- The width goes into the range as often as there are bins.
pub record Even (b : Bounds) : Type 0 where
  pub wide : 0 < b.bin_width
  pub whole : b.start_val + b.num_bins * b.bin_width ≡ b.end_val

-- A stretch ends no later than a later one begins.
stretch_le : (k n w : ℕ) → k < n → k * w + w ≤ n * w
stretch_le k n w h =
    let le : suc k * w ≤ n * w = mul-le-mul_right w (omega arith) in omega (arith, suc-mul k w)

module _ (b : Bounds) (value : ℕ) (e : Even b) where
  below_labelled : value < b.start_val → (k : ℕ) → labelled b k value ≡ (k == 0)
  below_labelled h zero = ground arith
  below_labelled h (suc k) =
      let start_le : b.start_val ≤ b.end_val = omega (arith, e.whole) in ground arith

  above_labelled : b.end_val < value → (k : ℕ) → labelled b k value ≡ (k == b.num_bins + 1)
  above_labelled h zero =
      let start_le : b.start_val ≤ b.end_val = omega (arith, e.whole) in ground arith
  above_labelled h (suc k) = elim (Bool-cases (ltb k b.num_bins)) [
    | inl y ↦
        let inside : k < b.num_bins = ground arith in
        let stretch = stretch_le k b.num_bins b.bin_width inside in
        let past : b.start_val + k * b.bin_width + b.bin_width ≤ value =
          omega (arith, e.whole, stretch, h) in
        ground arith
    | inr n ↦ ground arith
  ]

  module _ (lo : b.start_val ≤ value) (hi : value ≤ b.end_val) where
    abbrev stretch : ℕ
    stretch = (value - b.start_val) / b.bin_width

    starts : b.start_val + stretch * b.bin_width ≤ value
    starts = omega (arith, div-mul-le_self (value - b.start_val) b.bin_width, lo)

    ends : value < b.start_val + stretch * b.bin_width + b.bin_width
    ends =
        let l : value - b.start_val < stretch * b.bin_width + b.bin_width = lt-div-mul-add e.wide in
        omega (arith, l, lo)

    stretch-le : stretch ≤ b.num_bins
    stretch-le = elim (Bool-cases (ltb b.num_bins stretch)) [
      | inl y ↦
          let over : b.num_bins < stretch = ground arith in
          absurd (
            omega
              (arith, stretch_le b.num_bins stretch b.bin_width over, starts, e.whole, e.wide, hi))
      | inr n ↦ ground arith
    ]

    between_labelled : (k : ℕ) → labelled b k value ≡ (k == stretch + 1)
    between_labelled zero = ground arith
    between_labelled (suc k) = elim (Bool-cases (ltb k stretch)) [
      | inl y ↦
          let before : k < stretch = ground arith in
          let gap = stretch_le k stretch b.bin_width before in
          let past : b.start_val + k * b.bin_width + b.bin_width ≤ value =
            omega (arith, gap, starts) in
          let inside = stretch-le in ground arith
      | inr n ↦ elim (Bool-cases (ltb stretch k)) [
        | inl y ↦
            let after : stretch < k = ground arith in
            let gap = stretch_le stretch k b.bin_width after in
            let early : value < b.start_val + k * b.bin_width = omega (arith, gap, ends) in
            let not_last : k ≡ b.num_bins → value < b.end_val = λ last.
              let same : k * b.bin_width ≡ b.num_bins * b.bin_width =
                ap (λ x. x * b.bin_width) last in
              omega (arith, same, early, e.whole) in
            elim (ℕ_discrete k b.num_bins) [
              | yes last ↦ let inside = not_last last in ground arith
              | no other ↦ ground arith
            ]
        | inr m ↦
            let here : k ≡ stretch = ground arith in
            let same : k * b.bin_width ≡ stretch * b.bin_width = ap (λ x. x * b.bin_width) here in
            let from : b.start_val + k * b.bin_width ≤ value = omega (arith, same, starts) in
            let to : value < b.start_val + k * b.bin_width + b.bin_width =
              omega (arith, same, ends) in
            elim (ℕ_discrete k b.num_bins) [
              | yes last ↦
                  let full : k * b.bin_width ≡ b.num_bins * b.bin_width =
                    ap (λ x. x * b.bin_width) last in
                  let ended : b.end_val ≤ value = omega (arith, full, from, e.whole) in ground arith
              | no other ↦
                  let more : k < b.num_bins = omega (arith, stretch-le, here, other) in ground arith
            ]
      ]
    ]

bin_index-labelled :
    (b : Bounds) (value : ℕ)
    → Even b
    → (i : ℕ) × (bin_index b value ≡ some i)
      × (i < b.num_bins + 2)
      × ((k : ℕ) → labelled b k value ≡ (k == i))
unfolding bin_index
bin_index-labelled b value e = elim (Bool-cases (ltb value b.start_val)) [
  | inl y ↦ (0, rw y refl, omega arith, below_labelled b value e (ground arith))
  | inr n ↦ elim (Bool-cases (ltb b.end_val value)) [
    | inl y ↦ (b.num_bins + 1, rw (n, y) refl, omega arith, above_labelled b value e (ground arith))
    | inr m ↦
        let lo : b.start_val ≤ value = ground arith in
        let hi : value ≤ b.end_val = ground arith in
        let w : (b.bin_width == 0) ≡ false = ground (arith, e.wide) in
        (
          (value - b.start_val) / b.bin_width + 1,
          rw (n, m, w) refl,
          omega (arith, stretch-le b value e lo hi),
          between_labelled b value e lo hi,
        )
  ]
]

fill_bins-labelled :
    (b : Bounds)
    → Even b
    → (counts : HistoCount) (bins : ℕ → ℕ) → ((k : ℕ) → bins k < 2 ^ 64)
    → (bins' : ℕ → ℕ) × (fill_bins b counts bins ≡ some bins')
      × ((k : ℕ) → bins' k ≡ u64 (bins k + labelled_count b k counts))
unfolding fill_bins
fill_bins-labelled b e [] bins small = (bins, refl, λ k. omega (arith, small k))
fill_bins-labelled b e ((value, count) ∷ counts) bins small =
    let (i, made, inside, label) = bin_index-labelled b value e in
    let next : ℕ → ℕ = λ k. if k == i then u64 (bins k + count) else bins k in
    let (bins', rest, sums) = fill_bins-labelled b e counts next (λ k. ground (arith, small k)) in
    (
      bins',
      rw (made, lt→ltb i (b.num_bins + 2) inside) rest,
      λ k. sums k ∙ rw (label k) (ground arith),
    )

-- Where the range is the width times the number of bins, and the width is not 0, every value has a bin
-- of its histogram, and `UpdateHistoBins` gives each bin the sum, modulo 2^64, of the counts of the
-- values with its label.
pub epoch_bins-labelled :
    (b : Bounds) (counts : HistoCount)
    → Even b
    → (bins : ℕ → ℕ) × (epoch_bins b counts ≡ some bins)
      × ((k : ℕ) → bins k ≡ u64 (labelled_count b k counts))
epoch_bins-labelled b counts e =
    let (bins, made, sums) = fill_bins-labelled b e counts (λ k. 0) (λ k. omega arith) in
    (bins, made, λ k. omega (arith, sums k))
