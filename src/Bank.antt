-- ===== src/Bank.antt =====
-- src/bankstate.h and src/bankstate.cc: one DRAM bank.
pub mod Row
pub mod Ready
pub mod Progress
pub mod Due
pub mod Times
pub mod Exit
use latest_zsim_dramsim.Prelude.{
  ℕ, ◌+◌, Bool, true, false, ℤ, minus_one, eq_ℤ, leb, max, if◌then◌else◌, Option, none, some, ◌>>=◌,
}
use latest_zsim_dramsim.Common.{
  CommandType, read, read_precharge, write, write_precharge, activate, precharge, refresh_bank,
  refresh, sref_enter, sref_exit, Command, no_command, same_type,
}

-- `BankState::State`
pub data State : Type 0 where
  opened closed sref pd size : State

-- `cmd_timing_` is a vector with a place for each command type, so a function here.
pub record BankState : Type 0 where
  pub state : State
  pub cmd_timing : CommandType → ℕ
  pub open_row : ℤ
  pub row_hit_count : ℕ
  pub in_serve : Bool
  pub serve_end_cycle : ℕ
  pub precharge_by_refresh : Bool
  pub activate_by_who : Bool

-- `BankState()`
abbrev pub new_bank : BankState
new_bank = record {
  state = closed;
  cmd_timing = λ _. 0;
  open_row = minus_one;
  row_hit_count = 0;
  in_serve = false;
  serve_end_cycle = 0;
  precharge_by_refresh = false;
  activate_by_who = false;
}

abbrev pub is_open : State → Bool
is_open opened = true
is_open _ = false

abbrev pub is_closed : State → Bool
is_closed closed = true
is_closed _ = false

abbrev pub is_row_open : BankState → Bool
is_row_open b = is_open b.state

abbrev pub is_row_closed : BankState → Bool
is_row_closed b = is_closed b.state

-- The read and write cases of an open bank: serve a hit, precharge on a miss.
hit_or_miss : BankState → Command → CommandType × BankState
hit_or_miss b cmd =
    if eq_ℤ cmd.row b.open_row
    then (cmd.cmd_type, b)
    else (precharge, record b { precharge_by_refresh = true })

-- The nested `switch` of `GetReadyCommand`: the command that has to come first, and the bank with
-- its two bookkeeping flags. `none` is `AbruptExit`.
pub required_type : State → CommandType → BankState → Command → Option (CommandType × BankState)
unfolding hit_or_miss
required_type closed read b cmd = some (activate, record b { activate_by_who = false })
required_type closed read_precharge b cmd = some (activate, record b { activate_by_who = false })
required_type closed write b cmd = some (activate, record b { activate_by_who = true })
required_type closed write_precharge b cmd = some (activate, record b { activate_by_who = true })
required_type closed refresh b cmd = some (cmd.cmd_type, b)
required_type closed refresh_bank b cmd = some (cmd.cmd_type, b)
required_type closed sref_enter b cmd = some (cmd.cmd_type, b)
required_type opened read b cmd = some (hit_or_miss b cmd)
required_type opened read_precharge b cmd = some (hit_or_miss b cmd)
required_type opened write b cmd = some (hit_or_miss b cmd)
required_type opened write_precharge b cmd = some (hit_or_miss b cmd)
required_type opened refresh b cmd = some (precharge, record b { precharge_by_refresh = false })
required_type opened refresh_bank b cmd =
    some (precharge, record b { precharge_by_refresh = false })
required_type opened sref_enter b cmd = some (precharge, record b { precharge_by_refresh = false })
required_type sref read b cmd = some (sref_exit, b)
required_type sref read_precharge b cmd = some (sref_exit, b)
required_type sref write b cmd = some (sref_exit, b)
required_type sref write_precharge b cmd = some (sref_exit, b)
required_type _ _ b cmd = none

-- The tail of `GetReadyCommand`: the required command, if its time has come.
pub when_due : ℕ → Command → CommandType × BankState → Command × BankState
when_due clk cmd (t, b) =
    (if leb (b.cmd_timing t) clk then record cmd { cmd_type = t } else no_command, b)

-- `BankState::GetReadyCommand`
unfoldable pub get_ready_command : BankState → Command → ℕ → Option (Command × BankState)
unfolding required_type when_due
get_ready_command b cmd clk = do
  r ← required_type b.state cmd.cmd_type b cmd
  some (when_due clk cmd r)

abbrev close_row : BankState → BankState
close_row b = record b { state = closed; open_row = minus_one; row_hit_count = 0 }

-- The nested `switch` of `UpdateState`.
pub transition : State → CommandType → BankState → Command → Option BankState
transition opened read b cmd = some (record b { row_hit_count = b.row_hit_count + 1 })
transition opened write b cmd = some (record b { row_hit_count = b.row_hit_count + 1 })
transition opened read_precharge b cmd = some (close_row b)
transition opened write_precharge b cmd = some (close_row b)
transition opened precharge b cmd = some (close_row b)
transition closed refresh b cmd = some b
transition closed refresh_bank b cmd = some b
transition closed activate b cmd = some (record b { state = opened; open_row = cmd.row })
transition closed sref_enter b cmd = some (record b { state = sref })
transition sref sref_exit b cmd = some (record b { state = closed })
transition _ _ b cmd = none

-- `BankState::UpdateState`
unfoldable pub update_state : BankState → Command → Option BankState
unfolding transition
update_state b cmd = transition b.state cmd.cmd_type b cmd

-- `BankState::UpdateTiming`
unfoldable pub update_timing : BankState → CommandType → ℕ → BankState
update_timing b t time = record b {
  cmd_timing = λ u. if same_type u t then max (b.cmd_timing u) time else b.cmd_timing u;
}
