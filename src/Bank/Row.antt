-- ===== src/Bank/Row.antt =====
-- The row bookkeeping of a bank (src/bankstate.cc).
use latest_zsim_dramsim.Prelude.{ℕ, ◌≡◌, refl, pos, minus_one, some, arith}
use latest_zsim_dramsim.Common.{CommandType, read, activate, Command}
use latest_zsim_dramsim.Bank.{
  State, opened, closed, sref, pd, size, BankState, new_bank, transition, update_state,
}

-- A bank is open, closed or self-refreshing; only an open one has a row, and only it counts hits.
abbrev pub RowOf : State → BankState → Type 0
RowOf opened b = (n : ℕ) × (b.open_row ≡ pos n)
RowOf closed b = (b.open_row ≡ minus_one) × (b.row_hit_count ≡ 0)
RowOf sref b = (b.open_row ≡ minus_one) × (b.row_hit_count ≡ 0)
RowOf pd b = ⊥
RowOf size b = ⊥

abbrev pub IsValid : BankState → Type 0
IsValid b = RowOf b.state b

-- An ACTIVATE names a row.
abbrev pub NamesRow : Command → Type 0
NamesRow cmd = cmd.cmd_type ≡ activate → (n : ℕ) × (cmd.row ≡ pos n)

pub new_bank-IsValid : IsValid new_bank
new_bank-IsValid = (refl, refl)

transition-IsValid :
    (s : State) (t : CommandType) (b : BankState) (cmd : Command) {b' : BankState}
    → b.state ≡ s
    → cmd.cmd_type ≡ t
    → RowOf s b
    → NamesRow cmd
    → transition s t b cmd ≡ some b'
    → IsValid b'
unfolding transition
transition-IsValid opened read b cmd p q v n e = ground arith
transition-IsValid _ _ b cmd p q v n e = ground arith

-- Every state change that does not exit keeps the row bookkeeping valid, for a command that names a
-- row if it is an ACTIVATE.
pub update_state-IsValid :
    (b : BankState) (cmd : Command) {b' : BankState}
    → IsValid b
    → NamesRow cmd
    → update_state b cmd ≡ some b'
    → IsValid b'
unfolding update_state
update_state-IsValid b cmd v n e = transition-IsValid b.state cmd.cmd_type b cmd refl refl v n e
