-- ===== src/Bank/Exit.antt =====
-- What `GetReadyCommand` of src/bankstate.cc does with a self-refresh exit.
use latest_zsim_dramsim.Prelude.{ℕ, ◌≡◌, refl, none, arith}
use latest_zsim_dramsim.Common.{CommandType, sref_exit, read, Command}
use latest_zsim_dramsim.Bank.{State, opened, BankState, required_type, get_ready_command}

no_required :
    (s : State) (t : CommandType) (b : BankState) (cmd : Command)
    → t ≡ sref_exit
    → required_type s t b cmd ≡ none
unfolding required_type
no_required opened read b cmd e = cc
no_required _ _ b cmd e = ground arith

-- No bank, in whatever state, has a ready command for a self-refresh exit: each case ends in
-- `AbruptExit`.
pub no_exit :
    (b : BankState) (cmd : Command) (clk : ℕ)
    → cmd.cmd_type ≡ sref_exit
    → get_ready_command b cmd clk ≡ none
unfolding get_ready_command
no_exit b cmd clk e = rw (no_required b.state cmd.cmd_type b cmd e) refl
