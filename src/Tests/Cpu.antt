-- ===== src/Tests/Cpu.antt =====
-- The front ends at concrete inputs.
use latest_zsim_dramsim.Prelude.{◌≡◌, refl, Bool, true, false, ◌++◌, map, List, [], ◌∷◌, some}
use latest_zsim_dramsim.Common.{Transaction}
use latest_zsim_dramsim.Cpu.{TraceCpu, trace_tick}
use latest_zsim_dramsim.Cpu.Systems.{Memory, logged}
use latest_zsim_dramsim.Cpu.Trace.{Logged, sent, unsent, opened, ticked, TraceRun-order}
use latest_zsim_dramsim.Tests.Sample.{a_read, a_write}

-- A memory that takes everything.
abbrev open_memory : Memory Bool
open_memory = record {
  clock_tick = λ s. some s;
  will_accept = λ a w s. some true;
  add = λ a w s. some s;
}

abbrev trace : List Transaction
trace = a_read 64 ∷ a_write 128 ∷ []

-- The front end after one, two and three cycles.
abbrev after_one : TraceCpu (Logged Bool)
after_one = record {
  memory = ((64, false) ∷ [], true);
  clk = 1;
  trace_file = a_write 128 ∷ [];
  eof = false;
  trans = a_read 64;
  get_next = true;
}

abbrev after_two : TraceCpu (Logged Bool)
after_two = record {
  memory = ((64, false) ∷ (128, true) ∷ [], true);
  clk = 2;
  trace_file = [];
  eof = false;
  trans = a_write 128;
  get_next = true;
}

abbrev after_three : TraceCpu (Logged Bool)
after_three = record {
  memory = ((64, false) ∷ (128, true) ∷ (128, false) ∷ [], true);
  clk = 3;
  trace_file = [];
  eof = true;
  trans = a_read 128;
  get_next = true;
}

TraceRun-order_example : after_one.memory.0 ++ unsent after_one ≡ map sent trace
unfolding trace_tick
TraceRun-order_example =
    TraceRun-order open_memory {trace = trace} {t = after_one}
      (ticked (opened true (a_read 0)) refl) refl

-- The cycle that meets the end of the file adds a read of the last address, which is not in the trace.
read_at_end : trace_tick (logged open_memory) after_two ≡ some after_three
unfolding trace_tick
read_at_end = refl
