-- ===== src/Tests/Config.antt =====
-- Configurations from concrete parameters.
use latest_zsim_dramsim.Prelude.{
  ℕ, suc, false, ◌+◌, ◌*◌, ◌^◌, ◌≤◌, ◌<◌, ◌≡◌, ◌⊎◌, refl, some, List, [], ◌∷◌, pos, arith,
}
use latest_zsim_dramsim.Config.{Shape, Config, ddr3, per_bank, rank_level_staggered}
use latest_zsim_dramsim.Config.Mapping.{address_mapping}
use latest_zsim_dramsim.Config.Setup.{
  Size, calculate_size, log_base2, Field, ch, ra, bg, ba, ro, co, Widths, width, set_fields,
}
use latest_zsim_dramsim.Config.Setup.Sizes.{log_base2-bounds, calculate_size-ranks}
use latest_zsim_dramsim.Config.Setup.Fields.{compose, address_mapping-address_of}
use latest_zsim_dramsim.Config.Read.{Reader, init_timing_params}
use latest_zsim_dramsim.Config.Read.Consistent.{Consistent}
use latest_zsim_dramsim.Tests.Sample.{config}

log_base2-bounds_example : (k : ℕ) × (log_base2 12 ≡ some k) × (2 ^ k ≤ 12) × (12 < 2 ^ suc k)
log_base2-bounds_example = log_base2-bounds 12 (omega arith)

-- A rank of 1024 megabytes.
abbrev shape : Shape
shape = record {
  channels = 1;
  ranks = 0;
  banks = 16;
  bankgroups = 4;
  banks_per_group = 4;
  rows = 8192;
  columns = 1024;
  device_width = 8;
  bus_width = 64;
  bl = 8;
}

calculate_size-ranks_example :
    (z : Size) × (calculate_size shape 3000 ≡ some z)
    × (0 < z.ranks)
    × (z.channel_size ≡ z.ranks * 1024)
    × (3000 < z.channel_size + 1024)
    × ((z.ranks ≡ 1) ⊎ (z.channel_size ≤ 3000))
calculate_size-ranks_example = calculate_size-ranks shape 3000 (omega arith) (omega arith)

abbrev widths : Widths
widths = record {
  ch_width = 1;
  ra_width = 1;
  bg_width = 2;
  ba_width = 2;
  ro_width = 10;
  co_width = 7;
}

abbrev order : List Field
order = ch ∷ ro ∷ ba ∷ bg ∷ ra ∷ co ∷ []

-- The fields that the widths give in this order.
abbrev mapped : Config
mapped = record config {
  fields = record {
    shift_bits = 6;
    ch_pos = 22;
    ra_pos = 7;
    bg_pos = 8;
    ba_pos = 10;
    ro_pos = 12;
    co_pos = 0;
    ch_mask = 1;
    ra_mask = 1;
    bg_mask = 3;
    ba_mask = 3;
    ro_mask = 1023;
    co_mask = 127;
  };
}

abbrev value : Field → ℕ
value ch = 1
value ra = 0
value bg = 3
value ba = 2
value ro = 600
value co = 99

value-lt : (f : Field) → value f < 2 ^ width widths f
value-lt ch = omega arith
value-lt ra = omega arith
value-lt bg = omega arith
value-lt ba = omega arith
value-lt ro = omega arith
value-lt co = omega arith

address_mapping-address_of_example :
    address_mapping mapped (5 + compose widths value order * 2 ^ 6) ≡ record {
      channel = pos 1;
      rank = pos 0;
      bankgroup = pos 3;
      bank = pos 2;
      row = pos 600;
      column = pos 99;
    }
unfolding set_fields
address_mapping-address_of_example =
    address_mapping-address_of mapped 6 widths order value 5 refl value-lt (omega arith)

-- A file with nothing in it.
abbrev empty_file : Reader
empty_file = record { get = λ s o d. d; get_integer = λ s o d. d; get_boolean = λ s o d. d }

-- What is read from it.
abbrev defaults : Config
defaults = record {
  protocol = ddr3;
  shape = record {
    channels = 1;
    ranks = 1;
    banks = 4;
    bankgroups = 2;
    banks_per_group = 2;
    rows = 65536;
    columns = 1024;
    device_width = 8;
    bus_width = 64;
    bl = 8;
  };
  timings = init_timing_params empty_file 4;
  system = record {
    queue_structure = per_bank;
    close_page = false;
    refresh_policy = rank_level_staggered;
    cmd_queue_size = 16;
    unified_queue = false;
    trans_queue_size = 32;
    enable_self_refresh = false;
    sref_threshold = 1000;
    enable_hbm_dual_cmd = false;
    epoch_period = 100000;
    ideal_memory_latency = 10;
  };
  fields = record {
    shift_bits = 6;
    ch_pos = 25;
    ra_pos = 7;
    bg_pos = 7;
    ba_pos = 8;
    ro_pos = 9;
    co_pos = 0;
    ch_mask = 0;
    ra_mask = 0;
    bg_mask = 1;
    ba_mask = 1;
    ro_mask = 65535;
    co_mask = 127;
  };
}
