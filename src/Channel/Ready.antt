-- ===== src/Channel/Ready.antt =====
-- src/channel_state.cc: the command that has to come first (`GetReadyCommand`). The banks note in
-- passing why they will be activated or precharged, so the state is passed on.
pub mod Rounds
use latest_zsim_dramsim.Prelude.{
  ℕ, ◌+◌, not, ◌==◌, if◌then◌else◌, pos, Option, none, some, ◌>>=◌, for_range?,
}
use latest_zsim_dramsim.Common.{
  activate, Command, no_address, no_command, is_valid, is_rank_cmd, same_type,
}
use latest_zsim_dramsim.Bank
use latest_zsim_dramsim.Config.{Config}
use latest_zsim_dramsim.Channel.{ChannelState, modify, Place, rank?, place?}
use latest_zsim_dramsim.Channel.Windows.{activation_window_ok}

-- `bank_states_[i][j][k].GetReadyCommand(cmd, clk)`
unfoldable pub bank_ready : ChannelState → Place → Command → ℕ → Option (Command × ChannelState)
unfolding Bank.get_ready_command
bank_ready s p cmd clk = do
  (c, b) ← Bank.get_ready_command (s.bank_states p.i p.j p.k) cmd clk
  some (c, record s { bank_states = modify s.bank_states p.i p.j p.k (λ _. b) })

-- The loop's variables: what an early `return` hands back, the count, and the last command.
pub record Scan : Type 0 where
  pub state : ChannelState
  pub returned : Option Command
  pub num_ready : ℕ
  pub ready_cmd : Command

-- What the loop does with one bank's answer.
abbrev pub scan_answer : Scan → Place → Command → Command × ChannelState → Scan
scan_answer a p cmd (c, s) =
    if not (is_valid c)
    then record a { state = s; ready_cmd = c }
    else if not (same_type c.cmd_type cmd.cmd_type)
    then record a {
      state = s;
      ready_cmd = c;
      returned = some (record c {
        addr = record no_address { rank = cmd.rank; bankgroup = pos p.j; bank = pos p.k };
      });
    }
    else record a { state = s; ready_cmd = c; num_ready = a.num_ready + 1 }

-- The body of the loop over the banks of a rank; after a `return` nothing more happens.
unfoldable pub scan_bank : Command → ℕ → Place → Scan → Option Scan
unfolding bank_ready
scan_bank cmd clk p a = elim a.returned [
  | some c ↦ some a
  | none ↦ bank_ready a.state p cmd clk >>= λ r. some (scan_answer a p cmd r)
]

module _ (config : Config) where
  unfoldable pub scan_rank : Command → ℕ → ℕ → Scan → Option Scan
  unfolding for_range? scan_bank
  scan_rank cmd clk i a =
      for_range? config.bankgroups 0
        (λ j a'.
          for_range? config.banks_per_group 0
            (λ k a''. scan_bank cmd clk (record { i = i; j = j; k = k }) a'') a')
        a

  -- The end of the rank branch.
  abbrev pub scan_result : Scan → Command × ChannelState
  scan_result a = elim a.returned [
    | some c ↦ (c, a.state)
    | none ↦ (if a.num_ready == config.banks then a.ready_cmd else no_command, a.state)
  ]

  -- The rank branch of `GetReadyCommand`.
  unfoldable pub rank_ready_command : ChannelState → Command → ℕ → Option (Command × ChannelState)
  unfolding scan_rank
  rank_ready_command s cmd clk = do
    i ← rank? config cmd.rank
    a ←
        scan_rank cmd clk i
          (record { state = s; returned = none; num_ready = 0; ready_cmd = no_command })
    some (scan_result a)

  -- An ACTIVATE has to fit in the activation windows of its rank.
  abbrev pub window_checked : ℕ → ℕ → Command × ChannelState → Command × ChannelState
  window_checked i clk (c, s) = (
    if same_type c.cmd_type activate
        then (if activation_window_ok config s i clk then c else no_command)
        else c,
    s,
  )

  -- The bank branch of `GetReadyCommand`.
  unfoldable pub bank_ready_command : ChannelState → Command → ℕ → Option (Command × ChannelState)
  unfolding bank_ready activation_window_ok
  bank_ready_command s cmd clk = do
    p ← place? config cmd.addr
    r ← bank_ready s p cmd clk
    some (window_checked p.i clk r)

  -- `ChannelState::GetReadyCommand`
  unfoldable pub get_ready_command : ChannelState → Command → ℕ → Option (Command × ChannelState)
  unfolding rank_ready_command bank_ready_command
  get_ready_command s cmd clk =
      if is_rank_cmd cmd then rank_ready_command s cmd clk else bank_ready_command s cmd clk
