-- ===== src/Config/Setup/Sizes.antt =====
-- The logarithm of src/common.cc and the size of a channel in src/configuration.cc.
use latest_zsim_dramsim.Prelude.{
  ℕ, zero, suc, ◌+◌, ◌*◌, ◌/◌, ◌^◌, ◌≤◌, ◌<◌, ◌⊎◌, ◌≡◌, refl, ltb, ◌==◌, false, Bool-cases, inl,
  inr, some, arith,
}
use native.Mathlib.Nat.{two-pow-succ, pow-zero, div-mul-le_self, lt-div-mul-add, le-div_iff_mul-le}
use latest_zsim_dramsim.Config.{Shape}
use latest_zsim_dramsim.Config.Setup.{halve, log_base2, Size, megs_per_rank, calculate_size}

halve-bounds :
    (fuel p i : ℕ)
    → p < fuel
    → 0 < p
    → (k : ℕ) × (halve fuel p i ≡ some (i + k)) × (2 ^ k ≤ p) × (p < 2 ^ suc k)
unfolding halve
halve-bounds zero p i h more = absurd (omega arith)
halve-bounds (suc fuel) p i h more = elim (Bool-cases (ltb 1 p)) [
  | inl y ↦
      let big : 1 < p = ground arith in
      let (k, e, lo, hi) = halve-bounds fuel (p / 2) (i + 1) (omega arith) (omega arith) in
      let sum : i + 1 + k ≡ i + suc k = omega arith in
      (
        suc k,
        rw (y, e, sum) refl,
        omega (arith, two-pow-succ k, lo),
        omega (arith, two-pow-succ (suc k), hi),
      )
  | inr n ↦
      let one : p ≡ 1 = ground arith in
      let sum : i ≡ i + 0 = omega arith in
      (0, rw (n, ← sum) refl, omega (arith, pow-zero 2), omega (arith, pow-zero 2, two-pow-succ 0))
]

-- `LogBase2` ends on every positive number, with the exponent of the greatest power of two that is not
-- above it.
pub log_base2-bounds :
    (n : ℕ) → 0 < n → (k : ℕ) × (log_base2 n ≡ some k) × (2 ^ k ≤ n) × (n < 2 ^ suc k)
unfolding log_base2
log_base2-bounds n more =
    let (k, e, lo, hi) = halve-bounds (suc n) n 0 (omega arith) more in
    let sum : 0 + k ≡ k = omega arith in (k, rw sum at e, lo, hi)

pub rank_there : (a b : ℕ) → 0 < b → b ≤ a → 0 < a / b
rank_there a b h le = (le-div_iff_mul-le {k = b} {x = 1} {y = a} h).1 (omega arith)

-- For a device of some width whose ranks have some megabytes, `CalculateSize` leaves at least one rank
-- and a channel of that many ranks: one rank if the wanted size is less than a rank, and else the
-- greatest whole number of ranks within the wanted size.
pub calculate_size-ranks :
    (s : Shape) (wanted : ℕ)
    → 0 < s.device_width
    → 0 < megs_per_rank s
    → (z : Size) × (calculate_size s wanted ≡ some z)
      × (0 < z.ranks)
      × (z.channel_size ≡ z.ranks * megs_per_rank s)
      × (wanted < z.channel_size + megs_per_rank s)
      × ((z.ranks ≡ 1) ⊎ (z.channel_size ≤ wanted))
unfolding calculate_size
calculate_size-ranks s wanted wide big =
    let w : (s.device_width == 0) ≡ false = ground arith in
    elim (Bool-cases (ltb wanted (megs_per_rank s))) [
      | inl y ↦
          let z : Size = record {
            devices_per_rank = s.bus_width / s.device_width;
            ranks = 1;
            channel_size = megs_per_rank s;
          } in
          (z, rw (w, y) refl, omega arith, omega arith, ground arith, inl refl)
      | inr n ↦
          let m : (megs_per_rank s == 0) ≡ false = ground arith in
          let z : Size = record {
            devices_per_rank = s.bus_width / s.device_width;
            ranks = wanted / megs_per_rank s;
            channel_size = wanted / megs_per_rank s * megs_per_rank s;
          } in
          (
            z,
            rw (w, n, m) refl,
            rank_there wanted (megs_per_rank s) big (ground arith),
            refl,
            lt-div-mul-add big,
            inr (div-mul-le_self wanted (megs_per_rank s)),
          )
    ]
