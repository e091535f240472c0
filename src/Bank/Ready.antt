-- ===== src/Bank/Ready.antt =====
-- What `GetReadyCommand` of src/bankstate.cc hands out.
use latest_zsim_dramsim.Prelude.{ℕ, ◌≡◌, ◌≢◌, refl, true, some, none, arith}
use latest_zsim_dramsim.Common.{CommandType, Command, is_valid}
use latest_zsim_dramsim.Bank.{State, BankState, required_type, get_ready_command, update_state}
use latest_zsim_dramsim.Bank.Due.{ready_valid}

update_required :
    (s : State) (t : CommandType) (b : BankState) (cmd : Command) {u : CommandType} {b' : BankState}
    → b.state ≡ s
    → cmd.cmd_type ≡ t
    → required_type s t b cmd ≡ some (u, b')
    → update_state b' (record cmd { cmd_type = u }) ≢ none
unfolding required_type update_state
update_required s t b cmd p q e = ground arith

-- Whatever valid command `GetReadyCommand` asks for, the bank can execute it: `UpdateState` does not
-- exit on it.
pub update_state-get_ready_command :
    (b : BankState) (cmd : Command) (clk : ℕ) {c : Command} {b' : BankState}
    → get_ready_command b cmd clk ≡ some (c, b')
    → is_valid c ≡ true
    → update_state b' c ≢ none
update_state-get_ready_command b cmd clk e v =
    let (q, p, h) = ready_valid b cmd clk e v in
    rw p (update_required b.state cmd.cmd_type b cmd refl refl q)
