-- ===== src/Tests/Sample.antt =====
-- A small configuration, and commands for it.
use latest_zsim_dramsim.Prelude.{ℕ, [], true, false, pos, if◌then◌else◌}
use latest_zsim_dramsim.Common.{
  no_address, CommandType, Command, Transaction, new_transaction, read_type,
}
use latest_zsim_dramsim.Bank.{BankState, new_bank, opened}
use latest_zsim_dramsim.Config.{Config, ddr4, per_bank, bank_level_staggered}
use latest_zsim_dramsim.Timing.{Timing, new_timing}
use latest_zsim_dramsim.Queue.{CommandQueue}
use latest_zsim_dramsim.Channel.{ChannelState, new_channel}

-- Two ranks of two groups of four banks.
abbrev pub config : Config
config = record {
  protocol = ddr4;
  shape = record {
    channels = 1;
    ranks = 2;
    banks = 8;
    bankgroups = 2;
    banks_per_group = 4;
    rows = 64;
    columns = 64;
    device_width = 8;
    bus_width = 64;
    bl = 8;
  };
  timings = record {
    burst_cycle = 4;
    al = 0;
    cl = 15;
    cwl = 12;
    rl = 15;
    wl = 12;
    t_ccd_l = 6;
    t_ccd_s = 4;
    t_rtrs = 1;
    t_rtp = 8;
    t_wtr_l = 8;
    t_wtr_s = 3;
    t_wr = 15;
    t_rp = 15;
    t_rrd_l = 6;
    t_rrd_s = 4;
    t_ras = 35;
    t_rcd = 15;
    t_rfc = 20;
    t_rc = 50;
    t_ckesr = 10;
    t_xs = 30;
    t_rfcb = 12;
    t_refi = 100;
    t_refib = 60;
    t_faw = 40;
    t_ppd = 0;
    t_32aw = 0;
    t_rcdrd = 15;
    t_rcdwr = 15;
    read_delay = 19;
    write_delay = 16;
  };
  system = record {
    queue_structure = per_bank;
    close_page = false;
    refresh_policy = bank_level_staggered;
    cmd_queue_size = 8;
    unified_queue = false;
    trans_queue_size = 32;
    enable_self_refresh = false;
    sref_threshold = 1000;
    enable_hbm_dual_cmd = false;
    epoch_period = 1000;
    ideal_memory_latency = 10;
  };
  fields = record {
    shift_bits = 6;
    ch_pos = 0;
    ra_pos = 0;
    bg_pos = 1;
    ba_pos = 2;
    ro_pos = 10;
    co_pos = 4;
    ch_mask = 0;
    ra_mask = 1;
    bg_mask = 1;
    ba_mask = 3;
    ro_mask = 63;
    co_mask = 63;
  };
}

abbrev pub timing : Timing
timing = new_timing config

-- A command for a column of a row of a bank in rank 0.
abbrev pub at : CommandType → ℕ → ℕ → ℕ → ℕ → Command
at t group bank row column = record {
  cmd_type = t;
  addr = record no_address {
    rank = pos 0;
    bankgroup = pos group;
    bank = pos bank;
    row = pos row;
    column = pos column;
  };
  hex_addr = 64;
}

-- A command for rank 0.
abbrev pub for_rank : CommandType → Command
for_rank t = record { cmd_type = t; addr = record no_address { rank = pos 0 }; hex_addr = 0 }

-- A bank with row 5 open, which may be read from cycle 100 on.
abbrev pub open_bank : BankState
open_bank = record new_bank {
  state = opened;
  open_row = pos 5;
  cmd_timing = λ t. if read_type t then 100 else 0;
}

-- A channel of such banks.
abbrev pub open_channel : ChannelState
open_channel = record new_channel { bank_states = λ i j k. open_bank }

abbrev pub a_read : ℕ → Transaction
a_read addr = new_transaction addr false

abbrev pub a_write : ℕ → Transaction
a_write addr = new_transaction addr true

-- Queues without commands.
abbrev pub no_queue : CommandQueue
no_queue = record {
  rank_q_empty = λ i. true;
  queues = λ i. [];
  ref_q_indices = [];
  is_in_ref = false;
  queue_idx = 0;
  clk = 0;
}
