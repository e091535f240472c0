-- ===== src/Bank/Times.antt =====
-- A bank's times in `GetReadyCommand` and `UpdateState` (src/bankstate.cc).
use latest_zsim_dramsim.Prelude.{◌≡◌, some, arith}
use latest_zsim_dramsim.Common.{CommandType, read, Command}
use latest_zsim_dramsim.Bank.{State, opened, BankState, required_type, transition}

pub required-cmd_timing :
    (s : State) (t : CommandType) (b : BankState) (cmd : Command) {u : CommandType} {b' : BankState}
    → required_type s t b cmd ≡ some (u, b')
    → b'.cmd_timing ≡ b.cmd_timing
unfolding required_type
required-cmd_timing opened read b cmd e = ground arith
required-cmd_timing _ _ b cmd e = ground arith

pub transition-cmd_timing :
    (s : State) (t : CommandType) (b : BankState) (cmd : Command) {b' : BankState}
    → transition s t b cmd ≡ some b'
    → b'.cmd_timing ≡ b.cmd_timing
unfolding transition
transition-cmd_timing opened read b cmd e = ground arith
transition-cmd_timing _ _ b cmd e = ground arith
