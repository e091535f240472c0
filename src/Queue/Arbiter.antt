-- ===== src/Queue/Arbiter.antt =====
-- src/command_queue.cc: which command of a queue goes first (`ArbitratePrecharge`,
-- `HasRWDependency` and `GetFirstReadyInQueue`). A queue with an iterator is the commands before it
-- and those from it on.
pub mod Safety
use latest_zsim_dramsim.Prelude.{
  ℕ, Bool, true, false, not, ◌&&◌, ◌||◌, leb, if◌then◌else◌, List, [], ◌∷◌, ◌++◌, ℤ, eq_ℤ, Option,
  some, ◌>>=◌,
}
use latest_zsim_dramsim.Common.{
  Command, no_command, precharge, same_type, is_valid, is_read, is_write,
}
use latest_zsim_dramsim.Bank.{BankState}
use latest_zsim_dramsim.Config.{Config}
use latest_zsim_dramsim.Channel.{ChannelState, place?}
use latest_zsim_dramsim.Channel.Ready.{get_ready_command}
use latest_zsim_dramsim.Stats.{Stats, increment}

abbrev pub same_bankgroup : Command → Command → Bool
same_bankgroup a b = eq_ℤ a.bank b.bank && eq_ℤ a.bankgroup b.bankgroup

abbrev pub same_bank : Command → Command → Bool
same_bank a b = same_bankgroup a b && eq_ℤ a.rank b.rank

-- The first loop of `ArbitratePrecharge`.
unfoldable pub earlier_in_bank : Command → List Command → Bool
earlier_in_bank cmd [] = false
earlier_in_bank cmd (c ∷ cs) = same_bank c cmd || earlier_in_bank cmd cs

-- Its second loop.
unfoldable pub pending_row_hits_exist : ℤ → Command → List Command → Bool
pending_row_hits_exist open_row cmd [] = false
pending_row_hits_exist open_row cmd (c ∷ cs) =
    (eq_ℤ c.row open_row && same_bank c cmd) || pending_row_hits_exist open_row cmd cs

-- `ArbitratePrecharge` for the command `cmd`, with what stands before it and from it on.
unfoldable pub arbitrate_precharge :
    BankState → List Command → Command → List Command → Stats → Bool × Stats
unfolding earlier_in_bank pending_row_hits_exist increment
arbitrate_precharge b before cmd from stats =
    if earlier_in_bank cmd before
    then (false, stats)
    else if not (pending_row_hits_exist b.open_row cmd from) || leb 4 b.row_hit_count
    then (true, increment "num_ondemand_pres" stats)
    else (false, stats)

-- `HasRWDependency`
unfoldable pub has_rw_dependency : List Command → Command → Bool
has_rw_dependency [] cmd = false
has_rw_dependency (c ∷ cs) cmd =
    (is_read c && (eq_ℤ c.row cmd.row && (eq_ℤ c.column cmd.column && same_bankgroup c cmd)))
    || has_rw_dependency cs cmd

-- What the queue works on beside itself.
pub record Outside : Type 0 where
  pub channel : ChannelState
  pub stats : Stats

-- The tests of `GetFirstReadyInQueue`: may `cmd`, which readies the command `it`, be issued?
unfoldable pub may_issue :
    BankState → Command → List Command → Command → List Command → Stats → Bool × Stats
unfolding arbitrate_precharge has_rw_dependency
may_issue b cmd before it after stats =
    if not (is_valid cmd)
    then (false, stats)
    else if same_type cmd.cmd_type precharge
    then arbitrate_precharge b before it (it ∷ after) stats
    else if is_write cmd
    then (not (has_rw_dependency before it), stats)
    else (true, stats)

module _ (config : Config) (clk : ℕ) where
  -- The loop of `GetFirstReadyInQueue`, from an iterator on.
  unfoldable pub first_ready_from :
      List Command → List Command → Outside → Option (Command × Outside)
  unfolding get_ready_command may_issue
  first_ready_from before [] o = some (no_command, o)
  first_ready_from before (it ∷ after) o = do
    p ← place? config it.addr
    (cmd, channel) ← get_ready_command config o.channel it clk
    let verdict = may_issue (channel.bank_states p.i p.j p.k) cmd before it after o.stats
    let o' = record o { channel = channel; stats = verdict.1 }
    let rest = first_ready_from (before ++ it ∷ []) after o'
    if verdict.0 then some (cmd, o') else rest

  -- `GetFirstReadyInQueue`
  unfoldable pub get_first_ready_in_queue : List Command → Outside → Option (Command × Outside)
  unfolding first_ready_from
  get_first_ready_in_queue queue o = first_ready_from [] queue o
