-- ===== src/Config/Read/Consistent.antt =====
-- What holds of every configuration that is read (src/configuration.cc).
use Prim.Native.String.{String}
use latest_zsim_dramsim.Prelude.{ℕ, ◌*◌, ◌/◌, ◌<◌, ◌≡◌, true, Option, List, some}
use latest_zsim_dramsim.Config.{Shape, AddressFields, Config, is_hbm, hbm_family}
use latest_zsim_dramsim.Config.Setup.{log_base2, field_widths, tokens, Field, Widths, set_fields}
use latest_zsim_dramsim.Config.Read.{Reader, DramParams}

-- The fields of an address stand one above the other, in the order of the text, each as wide as the
-- logarithm of what it counts, above the bits within a request.
pub record Stacked (s : Shape) (text : String) (a : AddressFields) : Type 0 where
  pub shift : ℕ
  pub widths : Widths
  pub order : List Field
  pub request : log_base2 (s.bus_width / 8 * s.bl) ≡ some shift
  pub counted : field_widths s ≡ some widths
  pub named : tokens text ≡ some order
  pub whole : set_fields shift widths order ≡ some a

-- Of a configuration, and the text of the address mapping that it was read from.
pub record Consistent (text : String) (c : Config) : Type 0 where
  pub banks : c.banks ≡ c.bankgroups * c.banks_per_group
  pub ranks : 0 < c.ranks
  pub burst : 0 < c.bl
  pub dual : c.enable_hbm_dual_cmd ≡ true → is_hbm c ≡ true
  pub stacked : Stacked c.shape text c.fields

-- The parts of the structure that `InitDRAMParams` makes.
abbrev Parts : DramParams → Type 0
Parts d =
    (d.banks ≡ d.bankgroups * d.banks_per_group)
    × (0 < d.bl)
    × (d.enable_hbm_dual_cmd ≡ true → hbm_family d.protocol ≡ true)

-- The text of the mapping of the addresses.
abbrev pub mapping_text : Reader → String
mapping_text r = r.get "system" "address_mapping" "chrobabgraco"
