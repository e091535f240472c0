-- ===== src/Controller/Steady.antt =====
-- src/controller.cc: how many transactions a controller has taken and not returned, and what an
-- issued command and a cycle do to the number.
use mathlib.Core.Option.{some-injective}
use native.Mathlib.Nat.{le_refl, le_trans}
use latest_zsim_dramsim.Channel.Keeps.{update_timing_and_states-Slower}
use latest_zsim_dramsim.Channel.Delays.Slower.{Slower, Slower-refl, Slower-trans}
use latest_zsim_dramsim.Controller.Times.{TimesKept, mark_service-TimesKept, expire_rank-Slower}
use latest_zsim_dramsim.Controller.Kinds.{waiting, count_kind-moved, take_addr-count}
use latest_zsim_dramsim.Prelude.{
  ℕ, ◌≤◌, Bool, ◌+◌, ◌≡◌, refl, sym, ◌∙◌, subst, ◌==◌, Bool-cases, List, [], ◌∷◌, ◌++◌, map, Option,
  some, inl, inr, arith, ◌>>=◌, >>=_inv, length, length-append, length-map, for_range_keep,
}
use latest_zsim_dramsim.Common.{Command, CommandType, read, Transaction}
use latest_zsim_dramsim.Config.{Config}
use latest_zsim_dramsim.Timing.{Timing}
use latest_zsim_dramsim.Channel.Update.{update_timing_and_states}
use latest_zsim_dramsim.Queue.Issue.{Found}
use latest_zsim_dramsim.Controller.{Controller, count}
use latest_zsim_dramsim.Controller.Issue.{
  take_addr, reads_of, reads_except, finish_reads, finish_write, finish_transactions,
  update_command_stats, mark_service, issue_command,
}
use latest_zsim_dramsim.Controller.Tick.{
  searched, expire_rank, calculate_rank, calculate_stats, power_rank,
}

-- The reads that wait, and what waits to be returned.
abbrev pub outstanding : Controller → ℕ
outstanding c = length c.pending_rd_q + length c.return_queue

-- As much is outstanding as was, altogether and of each address and direction, no address has more
-- pending writes, and no bank may be sent a command earlier.
pub record Steady (c c' : Controller) : Type 0 where
  pub same : outstanding c' ≡ outstanding c
  pub each : (a : ℕ) (w : Bool) → waiting a w c' ≡ waiting a w c
  pub writes : (a : ℕ) → count a c'.pending_wr_q ≤ count a c.pending_wr_q
  pub times : TimesKept c.channel c'.channel

pub Steady-refl : (c : Controller) → Steady c c
Steady-refl c = record {
  same = refl;
  each = λ a w. refl;
  writes = λ a. le_refl _;
  times = Slower-refl c.channel.bank_states;
}

pub Steady-trans : {c d e : Controller} → Steady c d → Steady d e → Steady c e
Steady-trans p q = record {
  same = q.same ∙ p.same;
  each = λ a w. q.each a w ∙ p.each a w;
  writes = λ a. le_trans (q.writes a) (p.writes a);
  times = Slower-trans p.times q.times;
}

-- What leaves the three lists as they are.
pub Steady-queues :
    {c c' : Controller}
    → c'.pending_rd_q ≡ c.pending_rd_q
    → c'.return_queue ≡ c.return_queue
    → c'.pending_wr_q ≡ c.pending_wr_q
    → TimesKept c.channel c'.channel
    → Steady c c'
Steady-queues reads returned writes times = record {
  same = rw (reads, returned) refl;
  each = λ a w. rw (reads, returned) refl;
  writes = λ a. rw writes (le_refl _);
  times = times;
}

-- What leaves the banks as they are too.
pub Steady-banks :
    {c c' : Controller}
    → c'.pending_rd_q ≡ c.pending_rd_q
    → c'.return_queue ≡ c.return_queue
    → c'.pending_wr_q ≡ c.pending_wr_q
    → c'.channel.bank_states ≡ c.channel.bank_states
    → Steady c c'
Steady-banks {c = c} reads returned writes banks =
    Steady-queues reads returned writes
      (subst (Slower c.channel.bank_states) (sym banks) (Slower-refl c.channel.bank_states))

-- The reads of an address and the others are all the reads.
length-reads :
    (addr : ℕ) (ts : List Transaction)
    → length (reads_of addr ts) + length (reads_except addr ts) ≡ length ts
unfolding reads_of reads_except
length-reads addr [] = refl
length-reads addr (t ∷ ts) = ground (arith, length-reads addr ts)

moved :
    (addr : ℕ) (f : Transaction → Transaction) (ts ret : List Transaction)
    → length (reads_except addr ts) + length (ret ++ map f (reads_of addr ts))
      ≡ length ts + length ret
moved addr f ts ret =
    rw (length-append ret (map f (reads_of addr ts)), length-map (reads_of addr ts) f)
      (omega (arith, length-reads addr ts))

module _ (config : Config) where
  finish_reads-Steady :
      (c : Controller) (addr : ℕ) {r : ℕ × Controller}
      → finish_reads config c addr ≡ some r
      → Steady c r.1
  unfolding finish_reads
  finish_reads-Steady c addr {r} e = elim (Bool-cases (count addr c.pending_rd_q == 0)) [
    | inl y ↦ absurd (ground arith)
    | inr n ↦
        subst (λ (x : ℕ × Controller). Steady c x.1) (some-injective _ r (rw n at e))
          (record {
            same = moved addr _ c.pending_rd_q c.return_queue;
            each = λ a w. count_kind-moved a w config addr _ c.pending_rd_q c.return_queue;
            writes = λ a. le_refl _;
            times = Slower-refl c.channel.bank_states;
          })
  ]

  finish_write-Steady :
      (c : Controller) (addr : ℕ) {r : ℕ × Controller}
      → finish_write config c addr ≡ some r
      → Steady c r.1
  unfolding finish_write
  finish_write-Steady c addr {r} e =
      let ((t, rest), e1, e2) = >>=_inv (take_addr addr c.pending_wr_q) _ e in
      subst (λ (x : ℕ × Controller). Steady c x.1) (some-injective _ r e2)
        (record {
          same = refl;
          each = λ a w. refl;
          writes = take_addr-count addr c.pending_wr_q e1;
          times = Slower-refl c.channel.bank_states;
        })

  finish_transactions-Steady :
      (t : CommandType) (c : Controller) (cmd : Command) {r : ℕ × Controller}
      → finish_transactions config t c cmd ≡ some r
      → Steady c r.1
  unfolding finish_transactions
  finish_transactions-Steady read c cmd e = finish_reads-Steady c cmd.hex_addr e
  finish_transactions-Steady CommandType.read_precharge c cmd e =
      finish_reads-Steady c cmd.hex_addr e
  finish_transactions-Steady CommandType.write c cmd e = finish_write-Steady c cmd.hex_addr e
  finish_transactions-Steady CommandType.write_precharge c cmd e =
      finish_write-Steady c cmd.hex_addr e
  finish_transactions-Steady _ c cmd e =
      subst (λ (x : ℕ × Controller). Steady c x.1) (some-injective _ _ e) (Steady-refl c)

  update_command_stats-Steady :
      (t : CommandType) (c : Controller) (cmd : Command) (n : ℕ) {c' : Controller}
      → update_command_stats config t c cmd n ≡ some c'
      → Steady c c'
  unfolding update_command_stats
  update_command_stats-Steady read c cmd n e =
      Steady-banks (ground arith) (ground arith) (ground arith) (ground arith)
  update_command_stats-Steady _ c cmd n e =
      Steady-banks (ground arith) (ground arith) (ground arith) (ground arith)

  pub issue_command-Steady :
      (timing : Timing) (c : Controller) (cmd : Command) {c' : Controller}
      → issue_command config timing c cmd ≡ some c'
      → Steady c c'
  unfolding issue_command
  issue_command-Steady timing c cmd e =
      let ((n, c1), e1, f1) = >>=_inv (finish_transactions config cmd.cmd_type c cmd) _ e in
      let (c2, e2, f2) = >>=_inv (update_command_stats config cmd.cmd_type c1 cmd n) _ f1 in
      let (s, e3, f3) =
        >>=_inv (update_timing_and_states config timing c2.channel cmd c2.clk) _ f2 in
      let (s', e4, f4) = >>=_inv (mark_service config s cmd c2.clk) _ f3 in
      subst (Steady c) (some-injective _ _ f4) (
        Steady-trans (finish_transactions-Steady cmd.cmd_type c cmd e1) (
          Steady-trans (update_command_stats-Steady cmd.cmd_type c1 cmd n e2) (
            Steady-queues refl refl refl (
              Slower-trans (update_timing_and_states-Slower config timing c2.channel cmd c2.clk e3)
                (mark_service-TimesKept config s cmd c2.clk e4)))))

  calculate_rank-Steady :
      (c d : Controller) (i : ℕ) → Steady c d → Steady c (calculate_rank config i d)
  unfolding calculate_rank
  calculate_rank-Steady c d i s =
      let g = d.channel.bank_states in
      let banks : (calculate_rank config i d).channel.bank_states ≡ expire_rank config d.clk i g =
        ground arith in
      Steady-trans s (
        Steady-queues (ground arith) (ground arith) (ground arith)
          (subst (Slower g) (sym banks) (expire_rank-Slower config d.clk i g)))

  pub calculate_stats-Steady : (c : Controller) → Steady c (calculate_stats config c)
  unfolding calculate_stats
  calculate_stats-Steady c =
      for_range_keep (Steady c) (calculate_rank config) (λ i d. calculate_rank-Steady c d i)
        config.ranks 0 _ (Steady-banks refl refl refl refl)

  pub power_rank-Steady : (c d : Controller) (i : ℕ) → Steady c d → Steady c (power_rank config i d)
  unfolding power_rank
  power_rank-Steady c d i s =
      Steady-trans s (Steady-banks (ground arith) (ground arith) (ground arith) (ground arith))

  pub searched_by :
      (c : Controller) (m : Option Found) {r : Command × Controller}
      → ((f : Found) → m ≡ some f → TimesKept c.channel f.outside.channel)
      → (m >>= λ f. some (f.cmd, searched c f)) ≡ some r
      → Steady c r.1
  searched_by c m kept e =
      let (f, found, e1) = >>=_inv m _ e in
      subst (λ (x : Command × Controller). Steady c x.1) (some-injective _ _ e1)
        (Steady-queues refl refl refl (kept f found))
