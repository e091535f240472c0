-- ===== src/Config/Masks.antt =====
-- A mask of the address mapping keeps the low bits (src/configuration.cc).
use Prim.Native.Nat.{bit_and, digits, bit_and-bitwise}
use latest_zsim_dramsim.Prelude.{
  ℕ, zero, suc, ◌+◌, ◌-◌, ◌*◌, ◌/◌, ◌%◌, ◌^◌, ◌≤◌, ◌<◌, ◌≡◌, refl, ap, sym, ◌∙◌, min, arith,
}
use native.Mathlib.Nat.{
  mod-eq_of_lt, mod-lt, mod-one, div-add-mod, mul-add-mod_self_left, two-pow-succ, pow-zero,
  add-mul, zero-mod,
}

-- A word's low bits are its lowest and the low bits of its half.
half_mod : (a x : ℕ) → 0 < x → a % (x + x) ≡ a / 2 % x * 2 + a % 2
half_mod a x h =
    let q = a / 2 / x in
    let r = a / 2 % x in
    let half : x * q + r ≡ a / 2 = div-add-mod (a / 2) x in
    let below : r < x = mod-lt (a / 2) h in
    let split : (x + x) * q ≡ x * q + x * q = add-mul x x q in
    let low : r * 2 + a % 2 < x + x = omega arith in
    let whole : (x + x) * q + (r * 2 + a % 2) ≡ a = omega (arith, half, split) in
    let m : ((x + x) * q + (r * 2 + a % 2)) % (x + x) ≡ (r * 2 + a % 2) % (x + x) =
      mul-add-mod_self_left (x + x) q (r * 2 + a % 2) in
    ap (λ y. y % (x + x)) (sym whole) ∙ m ∙ mod-eq_of_lt low

pub two_pow-pos : (k : ℕ) → 0 < 2 ^ k
two_pow-pos zero = omega (arith, pow-zero 2)
two_pow-pos (suc k) = omega (arith, two-pow-succ k, two_pow-pos k)

abbrev masked : ℕ → ℕ → ℕ → ℕ
masked n a b = digits (λ _. zero) min n a b

masked-zero : (n a : ℕ) → masked n a 0 ≡ 0
masked-zero zero a = refl
masked-zero (suc n) zero = refl
masked-zero (suc n) (suc a) = omega (arith, masked-zero n (suc a / 2))

masked-ones : (k n a : ℕ) → a ≤ n → masked n a (2 ^ k - 1) ≡ a % 2 ^ k
masked-ones zero n a h = masked-zero n a ∙ sym (mod-one a)
masked-ones (suc k) zero a h = let e : a ≡ 0 = omega arith in rw e (sym (zero-mod (2 ^ suc k)))
masked-ones (suc k) (suc n) zero h = sym (zero-mod (2 ^ suc k))
masked-ones (suc k) (suc n) (suc a) h =
    let x = 2 ^ k in
    let more = two_pow-pos k in
    let top : 2 ^ suc k ≡ x + x = two-pow-succ k in
    let lower : (2 ^ suc k - 1) / 2 ≡ x - 1 = omega (arith, top, more) in
    let odd : (2 ^ suc k - 1) % 2 ≡ 1 = omega (arith, top, more) in
    let rest = masked-ones k n (suc a / 2) (omega arith) in
    let half = half_mod (suc a) x more in rw (lower, odd, rest, top, half) (omega arith)

-- `value & ((1 << width) - 1)` keeps the low bits.
pub bit_and_mask : (k a : ℕ) → bit_and a (2 ^ k - 1) ≡ a % 2 ^ k
bit_and_mask k a = bit_and-bitwise a (2 ^ k - 1) ∙ masked-ones k a a (omega arith)
