-- ===== src/System/Ideal.antt =====
-- `IdealDRAMSystem` of src/dram_system.cc: a buffer of transactions and a fixed latency. What is
-- handed to the callbacks is the list of the transactions served.
use latest_zsim_dramsim.Prelude.{ℕ, ◌+◌, Bool, leb, if◌then◌else◌, List, [], ◌∷◌, ◌++◌}
use latest_zsim_dramsim.Common.{Transaction, new_transaction, u64}
use latest_zsim_dramsim.Config.{Config}
use latest_zsim_dramsim.Controller.{minus64}

pub record IdealSystem : Type 0 where
  pub clk : ℕ
  pub latency : ℕ
  pub infinite_buffer_q : List Transaction

-- `IdealDRAMSystem::IdealDRAMSystem`
abbrev pub new_ideal : Config → IdealSystem
new_ideal config = record { clk = 0; latency = config.ideal_memory_latency; infinite_buffer_q = [] }

-- `IdealDRAMSystem::AddTransaction`
abbrev pub ideal_add : IdealSystem → ℕ → Bool → IdealSystem
ideal_add s hex_addr is_write = record s {
  infinite_buffer_q =
      s.infinite_buffer_q
      ++ record (new_transaction hex_addr is_write) { added_cycle = s.clk } ∷ [];
}

abbrev pub is_due : ℕ → ℕ → Transaction → Bool
is_due clk latency t = leb latency (minus64 clk t.added_cycle)

-- What the loop serves, and what it keeps.
pub record Pass : Type 0 where
  pub served : List Transaction
  pub kept : List Transaction

abbrev pub serve_first : Transaction → Pass → Pass
serve_first t p = record p { served = t ∷ p.served }

abbrev pub keep_first : Transaction → Pass → Pass
keep_first t p = record p { kept = t ∷ p.kept }

-- The loop of `ClockTick`: the iterator that `erase` returns is moved on once more, past the
-- transaction behind the one that is served.
unfoldable pub pass : ℕ → ℕ → List Transaction → Pass
pass clk latency [] = record { served = []; kept = [] }
pass clk latency (t ∷ []) =
    let none_left : Pass = record { served = []; kept = [] } in
    if is_due clk latency t then serve_first t none_left else keep_first t none_left
pass clk latency (t ∷ u ∷ us) =
    let behind = pass clk latency us in
    let rest = pass clk latency (u ∷ us) in
    if is_due clk latency t then serve_first t (keep_first u behind) else keep_first t rest

-- `IdealDRAMSystem::ClockTick`
unfoldable pub ideal_tick : IdealSystem → List Transaction × IdealSystem
unfolding pass
ideal_tick s =
    let p = pass s.clk s.latency s.infinite_buffer_q in
    (p.served, record s { infinite_buffer_q = p.kept; clk = u64 (s.clk + 1) })
