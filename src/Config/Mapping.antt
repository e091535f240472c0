-- ===== src/Config/Mapping.antt =====
-- `Config::AddressMapping` of src/configuration.cc and `BaseDRAMSystem::GetChannel` of
-- src/dram_system.cc: the fields of an address.
use Prim.Native.Nat.{bit_and}
use latest_zsim_dramsim.Prelude.{ℕ, ◌/◌, ◌^◌, pos}
use latest_zsim_dramsim.Common.{Address}
use latest_zsim_dramsim.Config.{Config}

-- (hex_addr >> position) & mask
abbrev pub field_of : ℕ → ℕ → ℕ → ℕ
field_of hex_addr position mask = bit_and (hex_addr / 2 ^ position) mask

-- `Config::AddressMapping`
unfoldable pub address_mapping : Config → ℕ → Address
address_mapping c hex_addr =
    let a : ℕ = hex_addr / 2 ^ c.shift_bits in
    record {
      channel = pos (field_of a c.ch_pos c.ch_mask);
      rank = pos (field_of a c.ra_pos c.ra_mask);
      bankgroup = pos (field_of a c.bg_pos c.bg_mask);
      bank = pos (field_of a c.ba_pos c.ba_mask);
      row = pos (field_of a c.ro_pos c.ro_mask);
      column = pos (field_of a c.co_pos c.co_mask);
    }

-- `BaseDRAMSystem::GetChannel`
unfoldable pub get_channel : Config → ℕ → ℕ
get_channel c hex_addr = field_of (hex_addr / 2 ^ c.shift_bits) c.ch_pos c.ch_mask
