-- ===== src/Tests/Channel.antt =====
-- Delays between commands at a concrete channel.
use latest_zsim_dramsim.Prelude.{◌≤◌, ◌≡◌, refl, pos, inl}
use latest_zsim_dramsim.Common.{read, activate, refresh, refresh_bank}
use latest_zsim_dramsim.Bank
use latest_zsim_dramsim.Bank.{new_bank}
use latest_zsim_dramsim.Timing.{new_timing}
use latest_zsim_dramsim.Channel.{new_channel, Place}
use latest_zsim_dramsim.Channel.Ready.{get_ready_command}
use latest_zsim_dramsim.Channel.Update.{update_timing_and_states}
use latest_zsim_dramsim.Channel.Delays.{add_time, update_bank_timing, update_timing}
use latest_zsim_dramsim.Channel.Delays.RefreshBank.{refresh_bank-unheld}
use latest_zsim_dramsim.Channel.Apart.{here, rank_commands_apart}
use latest_zsim_dramsim.Tests.Sample.{config, timing, at, for_rank}

abbrev bank0 : Place
bank0 = record { i = 0; j = 0; k = 0 }

rank_commands_apart_example : add_time 10 (pos 20) ≤ 40
unfolding update_timing_and_states get_ready_command new_timing Bank.update_timing
rank_commands_apart_example =
    rank_commands_apart config timing new_channel (for_rank refresh) 10 bank0 (pos 20)
      (at read 0 0 5 0) (at activate 0 0 5 0) 40 refl refl refl here refl refl refl refl
      (inl (refl, refl))

refresh_bank-unheld_example :
    (update_bank_timing config timing new_channel (at refresh_bank 0 0 0 0) 10 bank0).bank_states 0
      0 0
    ≡ new_bank
unfolding update_timing new_timing Bank.update_timing
refresh_bank-unheld_example =
    refresh_bank-unheld config new_channel (at refresh_bank 0 0 0 0) 10 bank0 refl refl refl
