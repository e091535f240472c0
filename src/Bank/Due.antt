-- ===== src/Bank/Due.antt =====
-- `GetReadyCommand` of src/bankstate.cc taken apart: the required type and its time.
use latest_zsim_dramsim.Prelude.{
  ℕ, ◌≤◌, ◌≡◌, true, Option, some, none, arith, leb, if◌then◌else◌, ◌>>=◌,
}
use latest_zsim_dramsim.Common.{CommandType, Command, no_command, is_valid}
use latest_zsim_dramsim.Bank.{BankState, required_type, when_due, get_ready_command}

after_required :
    (cmd : Command) (clk : ℕ) (o : Option (CommandType × BankState)) {c : Command} {b' : BankState}
    → (o >>= λ r. some (when_due clk cmd r)) ≡ some (c, b')
    → (t : CommandType) × (o ≡ some (t, b'))
      × (c ≡ (if leb (b'.cmd_timing t) clk then record cmd { cmd_type = t } else no_command))
unfolding when_due
after_required cmd clk none e = cc
after_required cmd clk (some (t, b)) e = (t, ground arith, ground arith)

-- What comes back is the required command or the invalid one.
pub ready_required :
    (b : BankState) (cmd : Command) (clk : ℕ) {c : Command} {b' : BankState}
    → get_ready_command b cmd clk ≡ some (c, b')
    → (t : CommandType) × (required_type b.state cmd.cmd_type b cmd ≡ some (t, b'))
      × (c ≡ (if leb (b'.cmd_timing t) clk then record cmd { cmd_type = t } else no_command))
unfolding get_ready_command
ready_required b cmd clk e = after_required cmd clk (required_type b.state cmd.cmd_type b cmd) e

-- A valid one is the required command, at its time.
pub ready_valid :
    (b : BankState) (cmd : Command) (clk : ℕ) {c : Command} {b' : BankState}
    → get_ready_command b cmd clk ≡ some (c, b')
    → is_valid c ≡ true
    → (required_type b.state cmd.cmd_type b cmd ≡ some (c.cmd_type, b'))
      × (c ≡ record cmd { cmd_type = c.cmd_type })
      × (b'.cmd_timing c.cmd_type ≤ clk)
ready_valid b cmd clk {c} e v =
    let (t, q, p) = ready_required b cmd clk e in (ground arith, ground arith, ground arith)
