-- ===== src/Queue/Arbiter/Safety.antt =====
-- Which command `GetFirstReadyInQueue` may pick (src/command_queue.cc).
use mathlib.Core.Option.{some-injective}
use mathlib.Core.List.{append_assoc}
use latest_zsim_dramsim.Prelude.{
  ℕ, ◌≤◌, ◌≡◌, refl, subst, true, false, ◌&&◌, Bool, Bool-cases, List, [], ◌∷◌, ◌++◌, some, ◌⊎◌,
  inl, inr, All, arith, >>=_inv, eq_ℤ, ℤ,
}
use latest_zsim_dramsim.Common.{Command, is_valid, is_read, is_write, precharge}
use latest_zsim_dramsim.Bank.{BankState}
use latest_zsim_dramsim.Config.{Config}
use latest_zsim_dramsim.Channel.{ChannelState, Place, place?}
use latest_zsim_dramsim.Channel.Ready.{get_ready_command}
use latest_zsim_dramsim.Stats.{Stats}
use latest_zsim_dramsim.Queue.Arbiter.{
  same_bankgroup, same_bank, earlier_in_bank, pending_row_hits_exist, arbitrate_precharge,
  has_rw_dependency, Outside, may_issue, first_ready_from, get_first_ready_in_queue,
}

passed_pair : (v : Bool × Stats) → v.0 ≡ true → v ≡ (true, v.1)
passed_pair (b, s) y = ground arith

module _ (config : Config) (clk : ℕ) where
  -- The command picked readies the queue's entry `it` and has passed the tests.
  pub record Picked (queue : List Command) (cmd : Command) (o : Outside) : Type 0 where
    pub before : List Command
    pub it : Command
    pub after : List Command
    pub asked : ChannelState
    pub stats : Stats
    pub place : Place
    pub whole : queue ≡ before ++ it ∷ after
    pub placed : place? config it.addr ≡ some place
    pub ready : get_ready_command config asked it clk ≡ some (cmd, o.channel)
    pub passed :
        may_issue (o.channel.bank_states place.i place.j place.k) cmd before it after stats
        ≡ (true, o.stats)

  first_ready_from-Picked :
      (before queue : List Command) (o : Outside) {cmd : Command} {o' : Outside}
      → first_ready_from config clk before queue o ≡ some (cmd, o')
      → is_valid cmd ≡ true
      → Picked (before ++ queue) cmd o'
  unfolding first_ready_from
  first_ready_from-Picked before [] o e v = absurd (ground arith)
  first_ready_from-Picked before (it ∷ after) o {cmd} {o'} e v =
      let (p, placed, e1) = >>=_inv (place? config it.addr) _ e in
      let ((c, channel), ready, e2) = >>=_inv (get_ready_command config o.channel it clk) _ e1 in
      let verdict = may_issue (channel.bank_states p.i p.j p.k) c before it after o.stats in
      elim (Bool-cases verdict.0) [
        | inl y ↦
            let same : (c, record { channel = channel; stats = verdict.1 }) ≡ (cmd, o') =
              some-injective _ _ (rw y at e2) in
            record {
              before = before;
              it = it;
              after = after;
              asked = o.channel;
              stats = o.stats;
              place = p;
              whole = refl;
              placed = placed;
              ready =
                  subst
                    (λ (x : Command × Outside).
                      get_ready_command config o.channel it clk ≡ some (x.0, x.1.channel))
                    same ready;
              passed =
                  subst
                    (λ (x : Command × Outside).
                      may_issue (x.1.channel.bank_states p.i p.j p.k) x.0 before it after o.stats
                      ≡ (true, x.1.stats))
                    same (passed_pair _ y);
            }
        | inr n ↦
            subst (λ l. Picked l cmd o') (append_assoc before (it ∷ []) after)
              (first_ready_from-Picked (before ++ it ∷ []) after
                (record { channel = channel; stats = verdict.1 }) (rw n at e2) v)
      ]

  -- A queue's read of the same column of the same row and bank.
  abbrev pub conflicts : Command → Command → Bool
  conflicts it c =
      is_read c && (eq_ℤ c.row it.row && (eq_ℤ c.column it.column && same_bankgroup c it))

  has_rw_dependency-All :
      (cs : List Command) (it : Command)
      → has_rw_dependency cs it ≡ false
      → All (λ c. conflicts it c ≡ false) cs
  unfolding has_rw_dependency
  has_rw_dependency-All [] it e = tt
  has_rw_dependency-All (c ∷ cs) it e = (ground arith, has_rw_dependency-All cs it (ground arith))

  earlier_in_bank-All :
      (cs : List Command) (it : Command)
      → earlier_in_bank it cs ≡ false
      → All (λ c. same_bank c it ≡ false) cs
  unfolding earlier_in_bank
  earlier_in_bank-All [] it e = tt
  earlier_in_bank-All (c ∷ cs) it e = (ground arith, earlier_in_bank-All cs it (ground arith))

  pending_row_hits-All :
      (r : ℤ) (cs : List Command) (it : Command)
      → pending_row_hits_exist r it cs ≡ false
      → All (λ c. eq_ℤ c.row r && same_bank c it ≡ false) cs
  unfolding pending_row_hits_exist
  pending_row_hits-All r [] it e = tt
  pending_row_hits-All r (c ∷ cs) it e = (ground arith, pending_row_hits-All r cs it (ground arith))

  may_issue-write :
      (b : BankState) (cmd : Command) (before : List Command) (it : Command) (after : List Command)
      (stats stats' : Stats)
      → is_write cmd ≡ true
      → may_issue b cmd before it after stats ≡ (true, stats')
      → has_rw_dependency before it ≡ false
  unfolding may_issue
  may_issue-write b cmd before it after stats stats' w e = ground arith

  may_issue-precharge :
      (b : BankState) (cmd : Command) (before : List Command) (it : Command) (after : List Command)
      (stats stats' : Stats)
      → cmd.cmd_type ≡ precharge
      → may_issue b cmd before it after stats ≡ (true, stats')
      → (earlier_in_bank it before ≡ false)
        × ((pending_row_hits_exist b.open_row it (it ∷ after) ≡ false) ⊎ (4 ≤ b.row_hit_count))
  unfolding may_issue arbitrate_precharge
  may_issue-precharge b cmd before it after stats stats' w e = ground arith

  -- A write that is picked passes no earlier read of its queue to the same column of the same row:
  -- it readies an entry of the queue, and none of those before it is such a read.
  pub write_after_reads :
      (queue : List Command) (o : Outside) {cmd : Command} {o' : Outside}
      → get_first_ready_in_queue config clk queue o ≡ some (cmd, o')
      → is_write cmd ≡ true
      → (before : List Command) × (it : Command) × (after : List Command) × (asked : ChannelState)
        × (queue ≡ before ++ it ∷ after)
        × (get_ready_command config asked it clk ≡ some (cmd, o'.channel))
        × All (λ c. conflicts it c ≡ false) before
  unfolding get_first_ready_in_queue
  write_after_reads queue o {cmd} {o'} e w =
      let k = first_ready_from-Picked [] queue o e (ground arith) in
      (
        k.before,
        k.it,
        k.after,
        k.asked,
        k.whole,
        k.ready,
        has_rw_dependency-All k.before k.it (
            may_issue-write (o'.channel.bank_states k.place.i k.place.j k.place.k) cmd k.before k.it
              k.after k.stats o'.stats w k.passed),
      )

  -- A PRECHARGE that is picked is what the channel hands out for an entry of the queue. No earlier
  -- entry is for the bank of that entry, and neither the entry nor a later one for its bank still hits
  -- the open row, unless the row has been hit four times.
  pub precharge_allowed :
      (queue : List Command) (o : Outside) {cmd : Command} {o' : Outside}
      → get_first_ready_in_queue config clk queue o ≡ some (cmd, o')
      → cmd.cmd_type ≡ precharge
      → (before : List Command) × (it : Command) × (after : List Command) × (asked : ChannelState)
        × (p : Place) × (queue ≡ before ++ it ∷ after)
        × (get_ready_command config asked it clk ≡ some (cmd, o'.channel))
        × (place? config it.addr ≡ some p)
        × All (λ c. same_bank c it ≡ false) before
        × (All
              (λ c.
                eq_ℤ c.row (o'.channel.bank_states p.i p.j p.k).open_row && same_bank c it ≡ false)
              (it ∷ after)
            ⊎ (4 ≤ (o'.channel.bank_states p.i p.j p.k).row_hit_count))
  unfolding get_first_ready_in_queue
  precharge_allowed queue o {cmd} {o'} e w =
      let k = first_ready_from-Picked [] queue o e (rw w refl) in
      let (alone, hits) =
        may_issue-precharge (o'.channel.bank_states k.place.i k.place.j k.place.k) cmd k.before k.it
          k.after k.stats o'.stats w k.passed in
      (
        k.before,
        k.it,
        k.after,
        k.asked,
        k.place,
        k.whole,
        k.ready,
        k.placed,
        earlier_in_bank-All k.before k.it alone,
        elim hits [
          | inl none_left ↦ inl (
              pending_row_hits-All (o'.channel.bank_states k.place.i k.place.j k.place.k).open_row
                (k.it ∷ k.after) k.it none_left)
          | inr many ↦ inr many
        ],
      )
