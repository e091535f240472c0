-- ===== src/Config/Read.antt =====
-- The constructor of `Config` in src/configuration.cc: what it reads from a file and computes from it,
-- but for the power and thermal parameters. The reader of the file is a third-party one, so a
-- parameter; the integers of a file are not negative.
use Prim.Native.String.{String}
use text.Mathlib.Text.{◌==◌ as str_eq}
use latest_zsim_dramsim.Prelude.{
  ℕ, ◌+◌, ◌*◌, ◌/◌, ◌^◌, ◌==◌, if◌then◌else◌, Bool, true, false, ◌&&◌, ◌||◌, Option, none, some,
  ◌>>=◌,
}
use latest_zsim_dramsim.Config.{
  DramProtocol, ddr3, ddr4, gddr5, gddr5x, gddr6, lpddr, lpddr3, lpddr4, hbm, hbm2, hmc,
  RefreshPolicy, rank_level_simultaneous, rank_level_staggered, bank_level_staggered,
  QueueStructure, per_rank, per_bank, other_structure, Shape, Timings, System, HmcConfig, Config,
  gddr, hbm_family,
}
use latest_zsim_dramsim.Config.Setup.{Size, calculate_size, set_address_mapping}
pub mod Consistent

-- `INIReader`: a section, an option and a default to a value.
pub record Reader : Type 0 where
  pub get : String → String → String → String
  pub get_integer : String → String → ℕ → ℕ
  pub get_boolean : String → String → Bool → Bool

-- `GetDRAMProtocol`
unfoldable pub get_dram_protocol : String → Option DramProtocol
get_dram_protocol s =
    if str_eq s "DDR3"
    then some ddr3
    else if str_eq s "DDR4"
    then some ddr4
    else if str_eq s "GDDR5"
    then some gddr5
    else if str_eq s "GDDR5X"
    then some gddr5x
    else if str_eq s "GDDR6"
    then some gddr6
    else if str_eq s "LPDDR"
    then some lpddr
    else if str_eq s "LPDDR3"
    then some lpddr3
    else if str_eq s "LPDDR4"
    then some lpddr4
    else if str_eq s "HBM"
    then some hbm
    else if str_eq s "HBM2"
    then some hbm2
    else if str_eq s "HMC"
    then some hmc
    else none

unfoldable pub refresh_policy_of : String → Option RefreshPolicy
refresh_policy_of s =
    if str_eq s "RANK_LEVEL_SIMULTANEOUS"
    then some rank_level_simultaneous
    else if str_eq s "RANK_LEVEL_STAGGERED"
    then some rank_level_staggered
    else if str_eq s "BANK_LEVEL_STAGGERED"
    then some bank_level_staggered
    else none

-- The string is compared where the command queues are made.
abbrev pub queue_structure_of : String → QueueStructure
queue_structure_of s =
    if str_eq s "PER_BANK"
    then per_bank
    else if str_eq s "PER_RANK"
    then per_rank
    else other_structure

-- What `InitSystemParams` sets. The last three fields of `system` are set by later calls.
pub record SystemParams : Type 0 where
  pub channel_size : ℕ
  pub channels : ℕ
  pub bus_width : ℕ
  pub address_mapping : String
  pub system : System

-- What `InitDRAMParams` sets.
pub record DramParams : Type 0 where
  pub protocol : DramProtocol
  pub bankgroups : ℕ
  pub banks_per_group : ℕ
  pub banks : ℕ
  pub rows : ℕ
  pub columns : ℕ
  pub device_width : ℕ
  pub bl : ℕ
  pub burst_cycle : ℕ
  pub enable_hbm_dual_cmd : Bool
  pub hmc_config : HmcConfig

-- The burst length that the size of a block means for a cube, else the one that is read. A division
-- by 0 ends the process.
unfoldable pub first_bl : DramProtocol → ℕ → ℕ → ℕ → Option ℕ
first_bl hmc bl block_size device_width =
    if device_width == 0 then none else some (block_size * 8 / device_width)
first_bl _ bl block_size device_width = some bl

-- The transfers of a protocol in one cycle.
abbrev pub transfers : DramProtocol → ℕ
transfers gddr5 = 4
transfers gddr5x = 8
transfers gddr6 = 16
transfers _ = 2

-- The burst length that stands for none.
abbrev pub default_bl : DramProtocol → ℕ
default_bl hbm = 4
default_bl hbm2 = 4
default_bl _ = 8

abbrev pub last_bl : DramProtocol → ℕ → ℕ
last_bl protocol bl = if bl == 0 then default_bl protocol else bl

-- The physical columns.
abbrev pub all_columns : DramProtocol → ℕ → ℕ → ℕ
all_columns protocol columns bl =
    if gddr protocol then columns * bl else if hbm_family protocol then columns * 2 else columns

module _ (r : Reader) where
  -- `InitSystemParams`
  unfoldable pub init_system_params : Option SystemParams
  unfolding refresh_policy_of
  init_system_params = do
    policy ← refresh_policy_of (r.get "system" "refresh_policy" "RANK_LEVEL_STAGGERED")
    some (record {
      channel_size = r.get_integer "system" "channel_size" 1024;
      channels = r.get_integer "system" "channels" 1;
      bus_width = r.get_integer "system" "bus_width" 64;
      address_mapping = r.get "system" "address_mapping" "chrobabgraco";
      system = record {
        queue_structure = queue_structure_of (r.get "system" "queue_structure" "PER_BANK");
        close_page = str_eq (r.get "system" "row_buf_policy" "OPEN_PAGE") "CLOSE_PAGE";
        refresh_policy = policy;
        cmd_queue_size = r.get_integer "system" "cmd_queue_size" 16;
        unified_queue = r.get_boolean "system" "unified_queue" false;
        trans_queue_size = r.get_integer "system" "trans_queue_size" 32;
        enable_self_refresh = r.get_boolean "system" "enable_self_refresh" false;
        sref_threshold = r.get_integer "system" "sref_threshold" 1000;
        enable_hbm_dual_cmd = false;
        epoch_period = 0;
        ideal_memory_latency = 0;
      };
    })

  -- `InitDRAMParams`
  unfoldable pub init_dram_params : Option DramParams
  unfolding get_dram_protocol first_bl
  init_dram_params = do
    protocol ← get_dram_protocol (r.get "dram_structure" "protocol" "DDR3")
    let groups = r.get_integer "dram_structure" "bankgroups" 2
    let per_group = r.get_integer "dram_structure" "banks_per_group" 2
    let separate = r.get_boolean "dram_structure" "bankgroup_enable" true
    let bankgroups = if separate then groups else 1
    let banks_per_group = if separate then per_group else per_group * groups
    let device_width = r.get_integer "dram_structure" "device_width" 8
    let block_size = r.get_integer "hmc" "block_size" 64
    bl ← first_bl protocol (r.get_integer "dram_structure" "BL" 8) block_size device_width
    some (record {
      protocol = protocol;
      bankgroups = bankgroups;
      banks_per_group = banks_per_group;
      banks = bankgroups * banks_per_group;
      rows = r.get_integer "dram_structure" "rows" (2 ^ 16);
      columns =
          all_columns protocol (r.get_integer "dram_structure" "columns" (2 ^ 10))
            (last_bl protocol bl);
      device_width = device_width;
      bl = last_bl protocol bl;
      burst_cycle = bl / transfers protocol;
      enable_hbm_dual_cmd =
          r.get_boolean "dram_structure" "hbm_dual_cmd" true && hbm_family protocol;
      hmc_config = record {
        num_links = r.get_integer "hmc" "num_links" 4;
        link_width = r.get_integer "hmc" "link_width" 16;
        link_speed = r.get_integer "hmc" "link_speed" 15000;
        block_size = block_size;
        xbar_queue_depth = r.get_integer "hmc" "xbar_queue_depth" 16;
      };
    })

  -- `InitTimingParams`, of the cycles of a burst.
  abbrev pub init_timing_params : ℕ → Timings
  init_timing_params burst =
      let t : String → ℕ → ℕ = r.get_integer "timing" in
      let rl = t "AL" 0 + t "CL" 12 in
      let wl = t "AL" 0 + t "CWL" 12 in
      record {
        burst_cycle = burst;
        al = t "AL" 0;
        cl = t "CL" 12;
        cwl = t "CWL" 12;
        rl = rl;
        wl = wl;
        t_ccd_l = t "tCCD_L" 6;
        t_ccd_s = t "tCCD_S" 4;
        t_rtrs = t "tRTRS" 2;
        t_rtp = t "tRTP" 5;
        t_wtr_l = t "tWTR_L" 5;
        t_wtr_s = t "tWTR_S" 5;
        t_wr = t "tWR" 10;
        t_rp = t "tRP" 10;
        t_rrd_l = t "tRRD_L" 4;
        t_rrd_s = t "tRRD_S" 4;
        t_ras = t "tRAS" 24;
        t_rcd = t "tRCD" 10;
        t_rfc = t "tRFC" 74;
        t_rc = t "tRAS" 24 + t "tRP" 10;
        t_ckesr = t "tCKESR" 12;
        t_xs = t "tXS" 432;
        t_rfcb = t "tRFCb" 20;
        t_refi = t "tREFI" 7800;
        t_refib = t "tREFIb" 1950;
        t_faw = t "tFAW" 50;
        t_ppd = t "tPPD" 0;
        t_32aw = t "t32AW" 330;
        t_rcdrd = t "tRCDRD" 24;
        t_rcdwr = t "tRCDWR" 20;
        read_delay = rl + burst;
        write_delay = wl + burst;
      }

  -- What is known of the structure before `CalculateSize`, which sets the ranks.
  abbrev pub shape_of : SystemParams → DramParams → ℕ → Shape
  shape_of s d ranks = record {
    channels = s.channels;
    ranks = ranks;
    banks = d.banks;
    bankgroups = d.bankgroups;
    banks_per_group = d.banks_per_group;
    rows = d.rows;
    columns = d.columns;
    device_width = d.device_width;
    bus_width = s.bus_width;
    bl = d.bl;
  }

  -- `Config::Config`
  unfoldable pub new_config : Option Config
  unfolding init_system_params init_dram_params calculate_size set_address_mapping
  new_config = do
    s ← init_system_params
    d ← init_dram_params
    z ← calculate_size (shape_of s d 0) s.channel_size
    let shape = shape_of s d z.ranks
    fields ← set_address_mapping shape s.address_mapping
    some (record {
      protocol = d.protocol;
      shape = shape;
      timings = init_timing_params d.burst_cycle;
      system = record s.system {
        enable_hbm_dual_cmd = d.enable_hbm_dual_cmd;
        epoch_period = r.get_integer "other" "epoch_period" 100000;
        ideal_memory_latency = r.get_integer "timing" "ideal_memory_latency" 10;
      };
      fields = fields;
    })
