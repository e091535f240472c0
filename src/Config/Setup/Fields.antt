-- ===== src/Config/Setup/Fields.antt =====
-- The fields of an address, put together and taken apart (src/configuration.cc).
use Prim.Native.Nat.{bit_and}
use latest_zsim_dramsim.Prelude.{
  ℕ, zero, suc, ◌+◌, ◌-◌, ◌*◌, ◌/◌, ◌%◌, ◌^◌, ◌≤◌, ◌<◌, ◌≡◌, refl, ap, sym, ◌∙◌, true, Bool-cases,
  inl, inr, List, [], ◌∷◌, Option, some, none, arith, pos, >>=_inv, ◌>>=◌,
}
use mathlib.Core.Option.{some-injective}
use native.Mathlib.Nat.{
  mod-eq_of_lt, add-mul-div_right, add-mul-mod_self_right, div-eq_of_lt, pow-zero, pow-suc,
  mul_assoc, mul_comm, mul-le-mul_right, suc-mul,
}
use latest_zsim_dramsim.Common.{Address}
use latest_zsim_dramsim.Config.{Config, AddressFields}
use latest_zsim_dramsim.Config.Masks.{bit_and_mask, two_pow-pos}
use latest_zsim_dramsim.Config.Mapping.{field_of, address_mapping}
use latest_zsim_dramsim.Config.Setup.{
  Field, ch, ra, bg, ba, ro, co, same_field, Widths, width, stack_fields, fields_at, at_fields,
  positions, set_fields,
}

-- The bits of all fields.
abbrev pub bits : Widths → List Field → ℕ
bits w fields = (stack_fields w fields).1

-- The number that has a value in each field, the last field the lowest.
abbrev pub compose : Widths → (Field → ℕ) → List Field → ℕ
compose w value [] = 0
compose w value (f ∷ fields) = compose w value fields + value f * 2 ^ bits w fields

zero_add : (n : ℕ) → 0 + n ≡ n
zero_add n = omega arith

two_pow-add : (a b : ℕ) → 2 ^ (a + b) ≡ 2 ^ a * 2 ^ b
two_pow-add a zero = let e : a + 0 ≡ a = omega arith in rw e (omega arith)
two_pow-add a (suc b) =
    let e : a + suc b ≡ suc (a + b) = omega arith in
    rw (e, pow-suc 2 (a + b), pow-suc 2 b, two_pow-add a b) (mul_assoc (2 ^ a) (2 ^ b) 2)

-- Higher fields do not reach into a lower one.
above : (x y n p k : ℕ) → p + k ≤ n → (x + y * 2 ^ n) / 2 ^ p % 2 ^ k ≡ x / 2 ^ p % 2 ^ k
above x y n p k h =
    let m = n - p - k in
    let e : n ≡ m + k + p = omega arith in
    let power : 2 ^ n ≡ 2 ^ m * 2 ^ k * 2 ^ p =
      ap (λ i. 2 ^ i) e ∙ two_pow-add (m + k) p ∙ ap (λ i. i * 2 ^ p) (two_pow-add m k) in
    let split : y * 2 ^ n ≡ y * 2 ^ m * 2 ^ k * 2 ^ p =
      ap (λ i. y * i) power
      ∙ sym (mul_assoc y (2 ^ m * 2 ^ k) (2 ^ p))
      ∙ ap (λ i. i * 2 ^ p) (sym (mul_assoc y (2 ^ m) (2 ^ k))) in
    let lower = add-mul-div_right x (y * 2 ^ m * 2 ^ k) (two_pow-pos p) in
    ap (λ i. (x + i) / 2 ^ p % 2 ^ k) split
    ∙ ap (λ i. i % 2 ^ k) lower
    ∙ add-mul-mod_self_right (x / 2 ^ p) (y * 2 ^ m) (2 ^ k)

same_field→eq : (f g : Field) → same_field f g ≡ true → f ≡ g
same_field→eq f g e = ground arith

module _ (w : Widths) (value : Field → ℕ) (fits : (f : Field) → value f < 2 ^ width w f) where
  compose-lt : (fields : List Field) → compose w value fields < 2 ^ bits w fields
  unfolding stack_fields
  compose-lt [] = omega (arith, pow-zero 2)
  compose-lt (f ∷ fields) =
      let n = 2 ^ bits w fields in
      let low : compose w value fields < n = compose-lt fields in
      let sum : 2 ^ (bits w fields + width w f) ≡ n * 2 ^ width w f =
        two_pow-add (bits w fields) (width w f) in
      let high : suc (value f) * n ≤ 2 ^ width w f * n = mul-le-mul_right n (fits f) in
      rw sum (omega (arith, low, high, mul_comm n (2 ^ width w f), suc-mul (value f) n))

  position-le :
      (fields : List Field) (f : Field) {p : ℕ}
      → (stack_fields w fields).0 f ≡ some p
      → p + width w f ≤ bits w fields
  unfolding stack_fields
  position-le [] f e = cc
  position-le (token ∷ fields) f {p} e = elim (Bool-cases (same_field f token)) [
    | inl y ↦
        let here : bits w fields ≡ p = some-injective (bits w fields) p (rw y at e) in
        let same : f ≡ token = same_field→eq f token y in rw same (omega (arith, here))
    | inr n ↦ let there = position-le fields f (rw n at e) in omega (arith, there)
  ]

  -- What stands at a field's position is its value.
  compose-field :
      (fields : List Field) (f : Field) {p : ℕ}
      → (stack_fields w fields).0 f ≡ some p
      → compose w value fields / 2 ^ p % 2 ^ width w f ≡ value f
  unfolding stack_fields
  compose-field [] f e = cc
  compose-field (token ∷ fields) f {p} e = elim (Bool-cases (same_field f token)) [
    | inl y ↦
        let here : bits w fields ≡ p = some-injective (bits w fields) p (rw y at e) in
        let same : token ≡ f = sym (same_field→eq f token y) in
        let n = 2 ^ bits w fields in
        let alone : (compose w value fields + value token * n) / n ≡ value token =
          add-mul-div_right (compose w value fields) (value token) (two_pow-pos (bits w fields))
          ∙ ap (λ x. x + value token) (div-eq_of_lt (compose-lt fields))
          ∙ zero_add (value token) in
        rw (← here) (rw alone (rw same (mod-eq_of_lt (fits f))))
    | inr n ↦
        let there : (stack_fields w fields).0 f ≡ some p = rw n at e in
        let inside = position-le fields f there in
        above (compose w value fields) (value token) (bits w fields) p (width w f) inside
        ∙ compose-field fields f there
  ]

all_there :
    (c r g b o k : Option ℕ) (at : Field → ℕ)
    → (c >>= λ c'. r >>= λ r'.
        g >>= λ g'. b >>= λ b'. o >>= λ o'. k >>= λ k'. some (at_fields c' r' g' b' o' k'))
      ≡ some at
    → (c ≡ some (at ch))
      × (r ≡ some (at ra))
      × (g ≡ some (at bg))
      × (b ≡ some (at ba))
      × (o ≡ some (at ro))
      × (k ≡ some (at co))
all_there none r g b o k at e = cc
all_there (some c) none g b o k at e = cc
all_there (some c) (some r) none b o k at e = cc
all_there (some c) (some r) (some g) none o k at e = cc
all_there (some c) (some r) (some g) (some b) none k at e = cc
all_there (some c) (some r) (some g) (some b) (some o) none at e = cc
all_there (some c) (some r) (some g) (some b) (some o) (some k) at e =
    let h = some-injective (at_fields c r g b o k) at e in
    let read : (f : Field) → some (at_fields c r g b o k f) ≡ some (at f) =
      λ f. ap (λ (x : Field → ℕ). some (x f)) h in
    (read ch, read ra, read bg, read ba, read ro, read co)

positions-at :
    (field_pos : Field → Option ℕ) (at : Field → ℕ)
    → positions field_pos ≡ some at
    → (f : Field) → field_pos f ≡ some (at f)
unfolding positions
positions-at field_pos at e ch =
    (all_there (field_pos ch) (field_pos ra) (field_pos bg) (field_pos ba) (field_pos ro)
      (field_pos co) at e).0
positions-at field_pos at e ra =
    (all_there (field_pos ch) (field_pos ra) (field_pos bg) (field_pos ba) (field_pos ro)
      (field_pos co) at e).1
positions-at field_pos at e bg =
    (all_there (field_pos ch) (field_pos ra) (field_pos bg) (field_pos ba) (field_pos ro)
      (field_pos co) at e).2
positions-at field_pos at e ba =
    (all_there (field_pos ch) (field_pos ra) (field_pos bg) (field_pos ba) (field_pos ro)
      (field_pos co) at e).3
positions-at field_pos at e ro =
    (all_there (field_pos ch) (field_pos ra) (field_pos bg) (field_pos ba) (field_pos ro)
      (field_pos co) at e).4
positions-at field_pos at e co =
    (all_there (field_pos ch) (field_pos ra) (field_pos bg) (field_pos ba) (field_pos ro)
      (field_pos co) at e).5

-- `AddressMapping`, of the positions and masks.
abbrev decode : ℕ → AddressFields → Address
decode hex_addr a = record {
  channel = pos (field_of (hex_addr / 2 ^ a.shift_bits) a.ch_pos a.ch_mask);
  rank = pos (field_of (hex_addr / 2 ^ a.shift_bits) a.ra_pos a.ra_mask);
  bankgroup = pos (field_of (hex_addr / 2 ^ a.shift_bits) a.bg_pos a.bg_mask);
  bank = pos (field_of (hex_addr / 2 ^ a.shift_bits) a.ba_pos a.ba_mask);
  row = pos (field_of (hex_addr / 2 ^ a.shift_bits) a.ro_pos a.ro_mask);
  column = pos (field_of (hex_addr / 2 ^ a.shift_bits) a.co_pos a.co_mask);
}

module _ (config : Config) (shift : ℕ) (w : Widths) (fields : List Field) where
  -- The address of the values, with `low` bytes into the request.
  abbrev pub address_of : (Field → ℕ) → ℕ → ℕ
  address_of value low = low + compose w value fields * 2 ^ shift

  taken_apart :
      (value : Field → ℕ) (low : ℕ)
      → ((f : Field) → value f < 2 ^ width w f)
      → low < 2 ^ shift
      → (f : Field) {p : ℕ} → (stack_fields w fields).0 f ≡ some p
      → field_of (address_of value low / 2 ^ shift) p (2 ^ width w f - 1) ≡ value f
  taken_apart value low fits small f {p} e =
      let block : address_of value low / 2 ^ shift ≡ compose w value fields =
        add-mul-div_right low (compose w value fields) (two_pow-pos shift)
        ∙ ap (λ x. x + compose w value fields) (div-eq_of_lt small)
        ∙ zero_add (compose w value fields) in
      ap (λ x. bit_and (x / 2 ^ p) (2 ^ width w f - 1)) block
      ∙ bit_and_mask (width w f) (compose w value fields / 2 ^ p)
      ∙ compose-field w value fits fields f e

  -- Where the fields of the configuration are those that `SetAddressMapping` sets for some widths and
  -- some order of the fields, `AddressMapping` takes apart the address put together, in that order, from
  -- values that fit their fields, with any offset in the request: it gives the values back.
  pub address_mapping-address_of :
      (value : Field → ℕ) (low : ℕ)
      → set_fields shift w fields ≡ some config.fields
      → ((f : Field) → value f < 2 ^ width w f)
      → low < 2 ^ shift
      → address_mapping config (address_of value low) ≡ record {
        channel = pos (value ch);
        rank = pos (value ra);
        bankgroup = pos (value bg);
        bank = pos (value ba);
        row = pos (value ro);
        column = pos (value co);
      }
  unfolding address_mapping set_fields
  address_mapping-address_of value low e fits small =
      let (at, found, made) = >>=_inv (positions (stack_fields w fields).0) _ e in
      let same = some-injective (fields_at shift w at) config.fields made in
      let part : (f : Field)
          → field_of (address_of value low / 2 ^ shift) (at f) (2 ^ width w f - 1) ≡ value f =
        λ f.
          taken_apart value low fits small f (positions-at (stack_fields w fields).0 at found f) in
      ap (decode (address_of value low)) (sym same)
      ∙ rw (part ch, part ra, part bg, part ba, part ro, part co) refl
