-- ===== src/Tests/Window.antt =====
-- Five activations of a rank, with `tFAW` at 40 cycles.
use latest_zsim_dramsim.Prelude.{◌+◌, ◌≤◌, refl, arith}
use latest_zsim_dramsim.Common.{read, activate}
use latest_zsim_dramsim.Bank
use latest_zsim_dramsim.Timing.{new_timing}
use latest_zsim_dramsim.Channel.Ready.{get_ready_command}
use latest_zsim_dramsim.Channel.Update.{update_timing_and_states}
use latest_zsim_dramsim.Channel.Faw.{start, issued, four_activate_window}
use latest_zsim_dramsim.Tests.Sample.{config, timing, at}

four_activate_window_example : 0 + 40 ≤ 50
unfolding update_timing_and_states get_ready_command new_timing Bank.update_timing
four_activate_window_example =
    four_activate_window config timing 0
      (issued (at read 0 2 5 0) (at activate 0 2 5 0) 50
        (issued (at read 1 1 5 0) (at activate 1 1 5 0) 30
          (issued (at read 0 1 5 0) (at activate 0 1 5 0) 20
            (issued (at read 1 0 5 0) (at activate 1 0 5 0) 10
              (issued (at read 0 0 5 0) (at activate 0 0 5 0) 0 start tt (omega arith) refl refl)
              (omega arith, tt) (omega arith) refl refl)
            (omega arith, (omega arith, tt)) (omega arith) refl refl)
          (omega arith, (omega arith, (omega arith, tt))) (omega arith) refl refl)
        (omega arith, (omega arith, (omega arith, (omega arith, tt)))) (omega arith) refl refl)
      0 0 50 refl refl
