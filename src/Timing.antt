-- ===== src/Timing.antt =====
-- src/timing.h and src/timing.cc: the tables of delays from one command to the next.
use latest_zsim_dramsim.Prelude.{
  ◌+◌, max, Bool, ◌||◌, ◌==◌, if◌then◌else◌, List, [], ◌∷◌, ℤ, pos, sub_ℕ,
}
use latest_zsim_dramsim.Common.{
  CommandType, read, read_precharge, write, write_precharge, activate, precharge, refresh_bank,
  refresh, sref_enter, sref_exit,
}
use latest_zsim_dramsim.Config.{Config, is_gddr, is_hbm, has_ppd}

-- The commands held back, each with its delay.
abbrev pub Delays : Type 0
Delays = List (CommandType × ℤ)

-- The local variables of the constructor.
pub record Latencies : Type 0 where
  pub read_to_read_l : ℤ
  pub read_to_read_s : ℤ
  pub read_to_read_o : ℤ
  pub read_to_write : ℤ
  pub read_to_write_o : ℤ
  pub read_to_precharge : ℤ
  pub readp_to_act : ℤ
  pub write_to_read_l : ℤ
  pub write_to_read_s : ℤ
  pub write_to_read_o : ℤ
  pub write_to_write_l : ℤ
  pub write_to_write_s : ℤ
  pub write_to_write_o : ℤ
  pub write_to_precharge : ℤ
  pub precharge_to_activate : ℤ
  pub precharge_to_precharge : ℤ
  pub read_to_activate : ℤ
  pub write_to_activate : ℤ
  pub activate_to_activate : ℤ
  pub activate_to_activate_l : ℤ
  pub activate_to_activate_s : ℤ
  pub activate_to_precharge : ℤ
  pub activate_to_read : ℤ
  pub activate_to_write : ℤ
  pub activate_to_refresh : ℤ
  pub refresh_to_refresh : ℤ
  pub refresh_to_activate : ℤ
  pub refresh_to_activate_bank : ℤ
  pub self_refresh_entry_to_exit : ℤ
  pub self_refresh_exit : ℤ

-- The first part of the constructor. A device whose bank groups are disabled has the short delays
-- in place of the long ones.
abbrev pub latencies : Config → Latencies
latencies c =
    let one_group : Bool = c.bankgroups == 1 in
    let own_rcd : Bool = is_gddr c || is_hbm c in
    record {
      read_to_read_l =
          pos (if one_group then max c.burst_cycle c.t_ccd_s else max c.burst_cycle c.t_ccd_l);
      read_to_read_s = pos (max c.burst_cycle c.t_ccd_s);
      read_to_read_o = pos (c.burst_cycle + c.t_rtrs);
      read_to_write = sub_ℕ (c.rl + c.burst_cycle + c.t_rtrs) c.wl;
      read_to_write_o = sub_ℕ (c.read_delay + c.burst_cycle + c.t_rtrs) c.write_delay;
      read_to_precharge = pos (c.al + c.t_rtp);
      readp_to_act = pos (c.al + c.burst_cycle + c.t_rtp + c.t_rp);
      write_to_read_l =
          pos (if one_group then c.write_delay + c.t_wtr_s else c.write_delay + c.t_wtr_l);
      write_to_read_s = pos (c.write_delay + c.t_wtr_s);
      write_to_read_o = sub_ℕ (c.write_delay + c.burst_cycle + c.t_rtrs) c.read_delay;
      write_to_write_l =
          pos (if one_group then max c.burst_cycle c.t_ccd_s else max c.burst_cycle c.t_ccd_l);
      write_to_write_s = pos (max c.burst_cycle c.t_ccd_s);
      write_to_write_o = pos c.burst_cycle;
      write_to_precharge = pos (c.wl + c.burst_cycle + c.t_wr);
      precharge_to_activate = pos c.t_rp;
      precharge_to_precharge = pos c.t_ppd;
      read_to_activate = pos (c.al + c.t_rtp + c.t_rp);
      write_to_activate = pos (c.wl + c.burst_cycle + c.t_wr + c.t_rp);
      activate_to_activate = pos c.t_rc;
      activate_to_activate_l = pos (if one_group then c.t_rrd_s else c.t_rrd_l);
      activate_to_activate_s = pos c.t_rrd_s;
      activate_to_precharge = pos c.t_ras;
      activate_to_read = if own_rcd then pos c.t_rcdrd else sub_ℕ c.t_rcd c.al;
      activate_to_write = if own_rcd then pos c.t_rcdwr else sub_ℕ c.t_rcd c.al;
      activate_to_refresh = pos c.t_rc;
      refresh_to_refresh = pos c.t_refi;
      refresh_to_activate = pos c.t_rfc;
      refresh_to_activate_bank = pos c.t_rfcb;
      self_refresh_entry_to_exit = pos c.t_ckesr;
      self_refresh_exit = pos c.t_xs;
    }

-- The delays that a read or a write puts on the four column commands.
abbrev column_delays : ℤ → ℤ → Delays
column_delays to_read to_write =
    (read, to_read)
    ∷ (write, to_write)
    ∷ (read_precharge, to_read)
    ∷ (write_precharge, to_write)
    ∷ []

-- The delays that closing a row puts on the commands that want a closed bank.
abbrev closed_delays : ℤ → ℤ → Delays
closed_delays to_activate to_others =
    (activate, to_activate)
    ∷ (refresh, to_others)
    ∷ (refresh_bank, to_others)
    ∷ (sref_enter, to_others)
    ∷ []

same_bank : Latencies → CommandType → Delays
same_bank t read =
    (read, t.read_to_read_l)
    ∷ (write, t.read_to_write)
    ∷ (read_precharge, t.read_to_read_l)
    ∷ (write_precharge, t.read_to_write)
    ∷ (precharge, t.read_to_precharge)
    ∷ []
same_bank t write =
    (read, t.write_to_read_l)
    ∷ (write, t.write_to_write_l)
    ∷ (read_precharge, t.write_to_read_l)
    ∷ (write_precharge, t.write_to_write_l)
    ∷ (precharge, t.write_to_precharge)
    ∷ []
same_bank t read_precharge = closed_delays t.readp_to_act t.read_to_activate
same_bank t write_precharge = closed_delays t.write_to_activate t.write_to_activate
same_bank t activate =
    (activate, t.activate_to_activate)
    ∷ (read, t.activate_to_read)
    ∷ (write, t.activate_to_write)
    ∷ (read_precharge, t.activate_to_read)
    ∷ (write_precharge, t.activate_to_write)
    ∷ (precharge, t.activate_to_precharge)
    ∷ []
same_bank t precharge = closed_delays t.precharge_to_activate t.precharge_to_activate
same_bank t _ = []

-- The flag says that the device has a precharge-to-precharge delay.
other_banks_same_bankgroup : Bool → Latencies → CommandType → Delays
other_banks_same_bankgroup ppd t read = column_delays t.read_to_read_l t.read_to_write
other_banks_same_bankgroup ppd t write = column_delays t.write_to_read_l t.write_to_write_l
other_banks_same_bankgroup ppd t read_precharge = column_delays t.read_to_read_l t.read_to_write
other_banks_same_bankgroup ppd t write_precharge =
    column_delays t.write_to_read_l t.write_to_write_l
other_banks_same_bankgroup ppd t activate =
    (activate, t.activate_to_activate_l) ∷ (refresh_bank, t.activate_to_refresh) ∷ []
other_banks_same_bankgroup ppd t precharge =
    if ppd then (precharge, t.precharge_to_precharge) ∷ [] else []
other_banks_same_bankgroup ppd t refresh_bank =
    (activate, t.refresh_to_activate) ∷ (refresh_bank, t.refresh_to_refresh) ∷ []
other_banks_same_bankgroup ppd t _ = []

other_bankgroups_same_rank : Bool → Latencies → CommandType → Delays
other_bankgroups_same_rank ppd t read = column_delays t.read_to_read_s t.read_to_write
other_bankgroups_same_rank ppd t write = column_delays t.write_to_read_s t.write_to_write_s
other_bankgroups_same_rank ppd t read_precharge = column_delays t.read_to_read_s t.read_to_write
other_bankgroups_same_rank ppd t write_precharge =
    column_delays t.write_to_read_s t.write_to_write_s
other_bankgroups_same_rank ppd t activate =
    (activate, t.activate_to_activate_s) ∷ (refresh_bank, t.activate_to_refresh) ∷ []
other_bankgroups_same_rank ppd t precharge =
    if ppd then (precharge, t.precharge_to_precharge) ∷ [] else []
other_bankgroups_same_rank ppd t refresh_bank =
    (activate, t.refresh_to_activate) ∷ (refresh_bank, t.refresh_to_refresh) ∷ []
other_bankgroups_same_rank ppd t _ = []

other_ranks : Latencies → CommandType → Delays
other_ranks t read = column_delays t.read_to_read_o t.read_to_write_o
other_ranks t write = column_delays t.write_to_read_o t.write_to_write_o
other_ranks t read_precharge = column_delays t.read_to_read_o t.read_to_write_o
other_ranks t write_precharge = column_delays t.write_to_read_o t.write_to_write_o
other_ranks t _ = []

same_rank : Latencies → CommandType → Delays
same_rank t refresh_bank = closed_delays t.refresh_to_activate_bank t.refresh_to_activate_bank
same_rank t refresh =
    (activate, t.refresh_to_activate)
    ∷ (refresh, t.refresh_to_activate)
    ∷ (sref_enter, t.refresh_to_activate)
    ∷ []
same_rank t sref_enter = (sref_exit, t.self_refresh_entry_to_exit) ∷ []
same_rank t sref_exit = closed_delays t.self_refresh_exit t.self_refresh_exit
same_rank t _ = []

-- The five tables, each a function of the command that was issued.
pub record Timing : Type 0 where
  pub same_bank : CommandType → Delays
  pub other_banks_same_bankgroup : CommandType → Delays
  pub other_bankgroups_same_rank : CommandType → Delays
  pub other_ranks : CommandType → Delays
  pub same_rank : CommandType → Delays

-- `Timing::Timing`
unfoldable pub new_timing : Config → Timing
unfolding same_bank other_banks_same_bankgroup other_bankgroups_same_rank other_ranks same_rank
new_timing c = record {
  same_bank = same_bank (latencies c);
  other_banks_same_bankgroup = other_banks_same_bankgroup (has_ppd c) (latencies c);
  other_bankgroups_same_rank = other_bankgroups_same_rank (has_ppd c) (latencies c);
  other_ranks = other_ranks (latencies c);
  same_rank = same_rank (latencies c);
}
