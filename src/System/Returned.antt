-- ===== src/System/Returned.antt =====
-- What `ClockTick` returns of a controller (src/dram_system.cc).
use latest_zsim_dramsim.Prelude.{
  ℕ, zero, suc, ◌+◌, ◌≡◌, ap, inl, inr, length, arith, Option, none, Bool,
}
use latest_zsim_dramsim.Controller.{Controller, return_done_trans}
use latest_zsim_dramsim.Controller.Accounts.{return_done_trans-outstanding, return_done_trans-cases}
use latest_zsim_dramsim.Config.{Config}
use latest_zsim_dramsim.Controller.Steady.{outstanding}
use latest_zsim_dramsim.System.Jedec.{return_all}

pub return_all-outstanding :
    (rounds : ℕ) (c : Controller) (clk : ℕ)
    → outstanding c ≡ length (return_all rounds c clk).0 + outstanding (return_all rounds c clk).1
unfolding return_all
return_all-outstanding zero c clk = omega arith
return_all-outstanding (suc rounds) c clk = elim (return_done_trans-cases c clk) [
  | inl (e, _) ↦
      let no_answer : (return_done_trans c clk).0 ≡ none =
        ap (λ (x : Option (ℕ × Bool) × Controller). x.0) e in
      rw (no_answer, return_all) (rw no_answer at (return_done_trans-outstanding c clk))
  | inr (t, e, _) ↦
      let one = return_done_trans-outstanding c clk in
      let rest = return_all-outstanding rounds (return_done_trans c clk).1 clk in
      rw (e, return_all) (omega (arith, rw e at one, rest))
]
