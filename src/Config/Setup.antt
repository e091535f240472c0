-- ===== src/Config/Setup.antt =====
-- `CalculateSize` and `SetAddressMapping` of src/configuration.cc, with `LogBase2` of src/common.cc:
-- what a configuration computes from its structure. The characters of the mapping are a list.
use Prim.Native.String.{String}
use text.Mathlib.Text.{◌==◌ as str_eq}
use latest_zsim_dramsim.Prelude.{
  ℕ, zero, suc, ◌+◌, ◌-◌, ◌*◌, ◌/◌, ◌^◌, ltb, ◌==◌, if◌then◌else◌, Bool, true, false, ◌||◌, List,
  [], ◌∷◌, ◌++◌, Option, none, some, ◌>>=◌,
}
use latest_zsim_dramsim.Config.{Shape, AddressFields}
pub mod Sizes
pub mod Fields

-- The loop of `LogBase2`, a round for each halving.
unfoldable pub halve : ℕ → ℕ → ℕ → Option ℕ
halve zero power_of_two i = none
halve (suc fuel) power_of_two i =
    let rest = halve fuel (power_of_two / 2) (i + 1) in if ltb 1 power_of_two then rest else some i

-- `LogBase2`: a number has fewer halvings than its value.
unfoldable pub log_base2 : ℕ → Option ℕ
unfolding halve
log_base2 power_of_two = halve (suc power_of_two) power_of_two 0

-- What `CalculateSize` sets.
pub record Size : Type 0 where
  pub devices_per_rank : ℕ
  pub ranks : ℕ
  pub channel_size : ℕ

-- The megabytes of a rank.
abbrev pub megs_per_rank : Shape → ℕ
megs_per_rank s =
    let page_size = s.columns * s.device_width / 8 in
    let megs_per_bank = page_size * (s.rows / 1024) / 1024 in
    megs_per_bank * s.banks * (s.bus_width / s.device_width)

-- `CalculateSize`; a division by 0 ends the process.
unfoldable pub calculate_size : Shape → ℕ → Option Size
calculate_size s channel_size =
    let megs = megs_per_rank s in
    let devices = s.bus_width / s.device_width in
    if s.device_width == 0
    then none
    else if ltb channel_size megs
    then some (record { devices_per_rank = devices; ranks = 1; channel_size = megs })
    else if megs == 0
    then none
    else some (record {
      devices_per_rank = devices;
      ranks = channel_size / megs;
      channel_size = channel_size / megs * megs;
    })

-- The keys of `field_widths`.
pub data Field : Type 0 where
  ch ra bg ba ro co : Field

abbrev pub same_field : Field → Field → Bool
same_field ch ch = true
same_field ra ra = true
same_field bg bg = true
same_field ba ba = true
same_field ro ro = true
same_field co co = true
same_field _ _ = false

-- A token of two characters; another one ends the process.
unfoldable pub field? : String → Option Field
field? token =
    if str_eq token "ch"
    then some ch
    else if str_eq token "ra"
    then some ra
    else if str_eq token "bg"
    then some bg
    else if str_eq token "ba"
    then some ba
    else if str_eq token "ro"
    then some ro
    else if str_eq token "co"
    then some co
    else none

-- `field_widths`, for the logarithms of the structure.
pub record Widths : Type 0 where
  pub ch_width : ℕ
  pub ra_width : ℕ
  pub bg_width : ℕ
  pub ba_width : ℕ
  pub ro_width : ℕ
  pub co_width : ℕ

abbrev pub width : Widths → Field → ℕ
width w ch = w.ch_width
width w ra = w.ra_width
width w bg = w.bg_width
width w ba = w.ba_width
width w ro = w.ro_width
width w co = w.co_width

-- `field_widths`. Where the columns have fewer bits than the burst, their width is negative: the source
-- goes on to shift by it for `co_mask`, which has no defined result, so there are no widths here.
unfoldable pub field_widths : Shape → Option Widths
unfolding log_base2
field_widths s = do
  c ← log_base2 s.channels
  r ← log_base2 s.ranks
  g ← log_base2 s.bankgroups
  b ← log_base2 s.banks_per_group
  row ← log_base2 s.rows
  column ← log_base2 s.columns
  low ← log_base2 s.bl
  if ltb column low
      then none
      else some (record {
        ch_width = c;
        ra_width = r;
        bg_width = g;
        ba_width = b;
        ro_width = row;
        co_width = column - low;
      })

-- The loop over the fields from the last one: `field_pos` after it, where a field named twice has the
-- later position, and the next position.
unfoldable pub stack_fields : Widths → List Field → (Field → Option ℕ) × ℕ
stack_fields w [] = ((λ _. none), 0)
stack_fields w (token ∷ fields) =
    let (field_pos, pos) = stack_fields w fields in
    ((λ f. if same_field f token then some pos else field_pos f), pos + width w token)

-- The string cut into tokens of two characters, in its order; a last one of one character is no field.
unfoldable pub tokens : String → Option (List Field)
unfolding field?
tokens String.[] = some []
tokens (String.◌∷◌ c String.[]) = none
tokens (String.◌∷◌ c (String.◌∷◌ d rest)) = do
  f ← field? (String.◌∷◌ c (String.◌∷◌ d String.[]))
  fs ← tokens rest
  some (f ∷ fs)

-- `size()` of a string.
abbrev pub text_size : String → ℕ
text_size String.[] = 0
text_size (String.◌∷◌ c rest) = suc (text_size rest)

-- (1 << w) - 1
abbrev pub mask_of : ℕ → ℕ
mask_of w = 2 ^ w - 1

-- The positions and the masks.
abbrev pub fields_at : ℕ → Widths → (Field → ℕ) → AddressFields
fields_at shift w at = record {
  shift_bits = shift;
  ch_pos = at ch;
  ra_pos = at ra;
  bg_pos = at bg;
  ba_pos = at ba;
  ro_pos = at ro;
  co_pos = at co;
  ch_mask = mask_of w.ch_width;
  ra_mask = mask_of w.ra_width;
  bg_mask = mask_of w.bg_width;
  ba_mask = mask_of w.ba_width;
  ro_mask = mask_of w.ro_width;
  co_mask = mask_of w.co_width;
}

-- The positions in the order of the keys.
abbrev pub at_fields : ℕ → ℕ → ℕ → ℕ → ℕ → ℕ → Field → ℕ
at_fields c r g b row column ch = c
at_fields c r g b row column ra = r
at_fields c r g b row column bg = g
at_fields c r g b row column ba = b
at_fields c r g b row column ro = row
at_fields c r g b row column co = column

-- The calls of `at`; a field without a position ends the process.
unfoldable pub positions : (Field → Option ℕ) → Option (Field → ℕ)
positions field_pos = do
  c ← field_pos ch
  r ← field_pos ra
  g ← field_pos bg
  b ← field_pos ba
  row ← field_pos ro
  column ← field_pos co
  some (at_fields c r g b row column)

-- The end of `SetAddressMapping`.
unfoldable pub set_fields : ℕ → Widths → List Field → Option AddressFields
unfolding stack_fields positions
set_fields shift w fields = do at ← positions (stack_fields w fields).0; some (fields_at shift w at)

-- `SetAddressMapping`; the string has six tokens.
unfoldable pub set_address_mapping : Shape → String → Option AddressFields
unfolding log_base2 field_widths tokens set_fields
set_address_mapping s address_mapping = do
  shift ← log_base2 (s.bus_width / 8 * s.bl)
  w ← field_widths s
  fields ← if text_size address_mapping == 12 then tokens address_mapping else none
  set_fields shift w fields
