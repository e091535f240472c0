-- ===== src/Tests/System.antt =====
-- The memory systems at concrete transactions.
use latest_zsim_dramsim.Prelude.{false, refl, some, ◌+◌, ◌≡◌, true, [], ◌∷◌, All}
use latest_zsim_dramsim.Common.{new_transaction}
use latest_zsim_dramsim.Controller.{new_controller, add_transaction}
use latest_zsim_dramsim.System.Ideal.{IdealSystem, is_due, ideal_tick}
use latest_zsim_dramsim.System.Jedec.{JedecSystem, jedec_add, jedec_will_accept}
use latest_zsim_dramsim.System.Accounts.{built, accepted, cycled, system_loses_none}
use latest_zsim_dramsim.System.Jedec.{new_jedec, jedec_tick, return_all, tick_channel}
use latest_zsim_dramsim.Prelude.{for_range, for_range?}
use latest_zsim_dramsim.Controller.{return_done_trans}
use latest_zsim_dramsim.Controller.Tick.{tick}
use latest_zsim_dramsim.Bank
use latest_zsim_dramsim.Timing.{new_timing}
use latest_zsim_dramsim.Channel.RefreshQueue.{is_refresh_waiting}
use latest_zsim_dramsim.System.Routed.{jedec_add_routed}
use latest_zsim_dramsim.Config.Mapping.{get_channel}
use latest_zsim_dramsim.Channel.{put}
use latest_zsim_dramsim.System.Served.{Shared, ideal_tick-served}
use latest_zsim_dramsim.Tests.Sample.{config, timing, no_queue, a_read, a_write}

-- Three transactions of cycle 0, in cycle 10.
abbrev ideal : IdealSystem
ideal = record {
  clk = 10;
  latency = 10;
  infinite_buffer_q = a_read 64 ∷ a_write 128 ∷ a_read 192 ∷ [];
}

ideal_tick-served_example :
    All (λ t. is_due 10 10 t ≡ true) (ideal_tick ideal).0
    × Shared ideal.infinite_buffer_q (ideal_tick ideal).0 (ideal_tick ideal).1.infinite_buffer_q
ideal_tick-served_example = ideal_tick-served ideal

-- Two transactions wait to be returned, one of them is complete.
abbrev system : JedecSystem
system = record {
  clk = 5;
  last_req_clk = 0;
  concurrent_serve = 0;
  active_cycles = 0;
  ctrls = λ i. record (new_controller config no_queue) {
    return_queue =
        record (a_read 64) { complete_cycle = 9 } ∷ record (a_read 128) { complete_cycle = 5 } ∷ [];
  };
}

-- The system when a read has been taken.
abbrev taken : JedecSystem
taken = record system {
  ctrls = put system.ctrls 0 (add_transaction config (system.ctrls 0) (a_read 256));
  last_req_clk = 5;
}

jedec_add_routed_example :
    (jedec_will_accept config system 256 false ≡ some true)
    × (taken.ctrls 0 ≡ add_transaction config (system.ctrls 0) (new_transaction 256 false))
    × (taken.ctrls 1 ≡ system.ctrls 1)
unfolding jedec_add get_channel
jedec_add_routed_example = jedec_add_routed config system 256 false 1 {s' = taken} (λ e. cc) refl

-- A write and a read are taken; the write is called back in the second cycle.
system_loses_none_example : 2 ≡ 1 + 1
unfolding new_jedec jedec_add jedec_tick get_channel tick is_refresh_waiting add_transaction
    return_done_trans for_range for_range? return_all tick_channel new_timing Bank.update_timing
system_loses_none_example = system_loses_none config timing (
    cycled {calls = (64, true) ∷ []}
      (cycled {calls = []} (accepted 128 false (accepted 64 true (built refl) refl) refl) refl)
      refl)
