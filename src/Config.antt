-- ===== src/Config.antt =====
-- src/configuration.h: the parameters that the simulator reads. The structural parameters and the
-- timing parameters of a configuration are not negative; an `int` of it is a number here.
pub mod Mapping
pub mod Masks
pub mod Setup
pub mod Read
use latest_zsim_dramsim.Prelude.{ℕ, Bool, true, false, ◌||◌}

pub data DramProtocol : Type 0 where
  ddr3 ddr4 gddr5 gddr5x gddr6 lpddr lpddr3 lpddr4 hbm hbm2 hmc size : DramProtocol

pub data RefreshPolicy : Type 0 where
  rank_level_simultaneous rank_level_staggered bank_level_staggered size : RefreshPolicy

-- `Config::queue_structure`, a string in the source.
pub data QueueStructure : Type 0 where
  per_rank per_bank other_structure : QueueStructure

-- The physical structure.
pub record Shape : Type 0 where
  pub channels : ℕ
  pub ranks : ℕ
  pub banks : ℕ
  pub bankgroups : ℕ
  pub banks_per_group : ℕ
  pub rows : ℕ
  pub columns : ℕ
  pub device_width : ℕ
  pub bus_width : ℕ
  pub bl : ℕ

-- The timing parameters, in cycles.
pub record Timings : Type 0 where
  pub burst_cycle : ℕ
  pub al : ℕ
  pub cl : ℕ
  pub cwl : ℕ
  pub rl : ℕ
  pub wl : ℕ
  pub t_ccd_l : ℕ
  pub t_ccd_s : ℕ
  pub t_rtrs : ℕ
  pub t_rtp : ℕ
  pub t_wtr_l : ℕ
  pub t_wtr_s : ℕ
  pub t_wr : ℕ
  pub t_rp : ℕ
  pub t_rrd_l : ℕ
  pub t_rrd_s : ℕ
  pub t_ras : ℕ
  pub t_rcd : ℕ
  pub t_rfc : ℕ
  pub t_rc : ℕ
  pub t_ckesr : ℕ
  pub t_xs : ℕ
  pub t_rfcb : ℕ
  pub t_refi : ℕ
  pub t_refib : ℕ
  pub t_faw : ℕ
  pub t_ppd : ℕ
  pub t_32aw : ℕ
  pub t_rcdrd : ℕ
  pub t_rcdwr : ℕ
  pub read_delay : ℕ
  pub write_delay : ℕ

-- The queueing and scheduling parameters.
pub record System : Type 0 where
  pub queue_structure : QueueStructure
  pub close_page : Bool
  pub refresh_policy : RefreshPolicy
  pub cmd_queue_size : ℕ
  pub unified_queue : Bool
  pub trans_queue_size : ℕ
  pub enable_self_refresh : Bool
  pub sref_threshold : ℕ
  pub enable_hbm_dual_cmd : Bool
  pub epoch_period : ℕ
  pub ideal_memory_latency : ℕ

-- The positions and masks of the address fields.
pub record AddressFields : Type 0 where
  pub shift_bits : ℕ
  pub ch_pos : ℕ
  pub ra_pos : ℕ
  pub bg_pos : ℕ
  pub ba_pos : ℕ
  pub ro_pos : ℕ
  pub co_pos : ℕ
  pub ch_mask : ℕ
  pub ra_mask : ℕ
  pub bg_mask : ℕ
  pub ba_mask : ℕ
  pub ro_mask : ℕ
  pub co_mask : ℕ

-- The `hmc` part of the configuration.
pub record HmcConfig : Type 0 where
  pub num_links : ℕ
  pub link_width : ℕ
  pub link_speed : ℕ
  pub block_size : ℕ
  pub xbar_queue_depth : ℕ

pub record Config : Type 0 where
  pub protocol : DramProtocol
  pub shape : Shape
  pub open shape use *
  pub timings : Timings
  pub open timings use *
  pub system : System
  pub open system use *
  pub fields : AddressFields
  pub open fields use *

abbrev pub gddr : DramProtocol → Bool
gddr gddr5 = true
gddr gddr5x = true
gddr gddr6 = true
gddr _ = false

abbrev pub hbm_family : DramProtocol → Bool
hbm_family hbm = true
hbm_family hbm2 = true
hbm_family _ = false

-- LPDDR4 is tested by name where the precharge timing is set up.
abbrev lpddr4_only : DramProtocol → Bool
lpddr4_only lpddr4 = true
lpddr4_only _ = false

abbrev pub is_gddr : Config → Bool
is_gddr c = gddr c.protocol

abbrev pub is_hbm : Config → Bool
is_hbm c = hbm_family c.protocol

-- Those that have a precharge-to-precharge delay.
abbrev pub has_ppd : Config → Bool
has_ppd c = is_gddr c || lpddr4_only c.protocol

abbrev hmc_family : DramProtocol → Bool
hmc_family hmc = true
hmc_family _ = false

-- `Config::IsHMC`
abbrev pub is_hmc : Config → Bool
is_hmc c = hmc_family c.protocol
