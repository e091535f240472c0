-- ===== src/Tests/Bank.antt =====
-- A bank at concrete commands.
use latest_zsim_dramsim.Prelude.{suc, ◌≤◌, ◌≡◌, ◌≢◌, ◌⊎◌, refl, none, pos}
use latest_zsim_dramsim.Common.{read, activate, precharge}
use latest_zsim_dramsim.Bank.{BankState, new_bank, opened, get_ready_command, update_state}
use latest_zsim_dramsim.Bank.Ready.{update_state-get_ready_command}
use latest_zsim_dramsim.Bank.Progress.{distance, ready_progress}
use latest_zsim_dramsim.Bank.Row.{IsValid, new_bank-IsValid, update_state-IsValid}
use latest_zsim_dramsim.Tests.Sample.{at}

-- A bank with row 5 open.
abbrev bank5 : BankState
bank5 = record new_bank { state = opened; open_row = pos 5 }

update_state-get_ready_command_example : update_state new_bank (at activate 0 0 5 0) ≢ none
unfolding get_ready_command
update_state-get_ready_command_example =
    update_state-get_ready_command new_bank (at read 0 0 5 0) 10 refl refl

ready_progress_example :
    (distance bank5 (at read 0 0 6 0) ≤ 2)
    × (((precharge ≡ read) × (bank5.state ≡ opened) × ((at read 0 0 6 0).row ≡ bank5.open_row))
        ⊎ (distance bank5 (at read 0 0 6 0) ≡ suc (distance new_bank (at read 0 0 6 0))))
unfolding get_ready_command update_state
ready_progress_example = ready_progress bank5 (at read 0 0 6 0) 10 refl refl refl refl

update_state-IsValid_example : IsValid bank5
unfolding update_state
update_state-IsValid_example =
    update_state-IsValid new_bank (at activate 0 0 5 0) new_bank-IsValid (λ e. (5, refl)) refl
