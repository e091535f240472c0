-- ===== src/System/Served.antt =====
-- What `ClockTick` of the ideal system serves (src/dram_system.cc).
use latest_zsim_dramsim.Prelude.{ℕ, ◌≡◌, true, Bool-cases, inl, inr, List, [], ◌∷◌, All}
use latest_zsim_dramsim.Common.{Transaction}
use latest_zsim_dramsim.System.Ideal.{IdealSystem, Pass, is_due, pass, ideal_tick}

-- The transactions of a list are shared out, in order: each is served or kept.
pub data Shared : List Transaction → List Transaction → List Transaction → Type 0 where
  done : Shared [] [] []
  serve :
      {ts served kept : List Transaction} (t : Transaction)
      → Shared ts served kept
      → Shared (t ∷ ts) (t ∷ served) kept
  keep :
      {ts served kept : List Transaction} (t : Transaction)
      → Shared ts served kept
      → Shared (t ∷ ts) served (t ∷ kept)

abbrev SharedBy : List Transaction → Pass → Type 0
SharedBy ts p = Shared ts p.served p.kept

pass-Shared : (clk latency : ℕ) (ts : List Transaction) → SharedBy ts (pass clk latency ts)
unfolding pass
pass-Shared clk latency [] = done
pass-Shared clk latency (t ∷ []) = elim (Bool-cases (is_due clk latency t)) [
  | inl y ↦ rw (y, pass) (serve t done)
  | inr n ↦ rw (n, pass) (keep t done)
]
pass-Shared clk latency (t ∷ u ∷ us) = elim (Bool-cases (is_due clk latency t)) [
  | inl y ↦ rw (y, pass) (serve t (keep u (pass-Shared clk latency us)))
  | inr n ↦ rw (n, pass) (keep t (pass-Shared clk latency (u ∷ us)))
]

pass-due :
    (clk latency : ℕ) (ts : List Transaction)
    → All (λ t. is_due clk latency t ≡ true) (pass clk latency ts).served
unfolding pass
pass-due clk latency [] = tt
pass-due clk latency (t ∷ []) = elim (Bool-cases (is_due clk latency t)) [
  | inl y ↦ rw (y, pass) (y, tt)
  | inr n ↦ rw (n, pass) tt
]
pass-due clk latency (t ∷ u ∷ us) = elim (Bool-cases (is_due clk latency t)) [
  | inl y ↦ rw (y, pass) (y, pass-due clk latency us)
  | inr n ↦ rw (n, pass) (pass-due clk latency (u ∷ us))
]

-- A cycle of the ideal system calls back only transactions whose latency is over. Each transaction of
-- the buffer is either called back, once, or kept, and both are in the order of the buffer: none is lost
-- and none is called back twice.
pub ideal_tick-served :
    (s : IdealSystem)
    → All (λ t. is_due s.clk s.latency t ≡ true) (ideal_tick s).0
      × Shared s.infinite_buffer_q (ideal_tick s).0 (ideal_tick s).1.infinite_buffer_q
unfolding ideal_tick
ideal_tick-served s =
    (pass-due s.clk s.latency s.infinite_buffer_q, pass-Shared s.clk s.latency s.infinite_buffer_q)
