-- ===== src/Controller/Finish.antt =====
-- src/controller.cc: the reads that one issued read command completes.
use mathlib.Core.Option.{some-injective}
use latest_zsim_dramsim.Prelude.{
  ℕ, ◌+◌, ◌≡◌, refl, sym, ◌∙◌, ap, subst, ◌==◌, Bool-cases, List, [], ◌∷◌, ◌++◌, map, some, arith,
  if◌then◌else◌, length, length-map, All, inl, inr,
}
use latest_zsim_dramsim.Common.{Transaction, u64}
use latest_zsim_dramsim.Config.{Config}
use latest_zsim_dramsim.Controller.{Controller, count}
use latest_zsim_dramsim.Controller.Issue.{reads_of, reads_except, completed_at, finish_reads}

count-reads_except :
    (addr b : ℕ) (ts : List Transaction)
    → count b (reads_except addr ts) ≡ (if b == addr then 0 else count b ts)
unfolding count reads_except
count-reads_except addr b [] = ground arith
count-reads_except addr b (t ∷ ts) = ground (arith, count-reads_except addr b ts)

length-reads_of : (addr : ℕ) (ts : List Transaction) → length (reads_of addr ts) ≡ count addr ts
unfolding count reads_of
length-reads_of addr [] = refl
length-reads_of addr (t ∷ ts) = ground (arith, length-reads_of addr ts)

-- Read of an address, complete at a cycle.
abbrev pub ReadyAt : ℕ → ℕ → Transaction → Type 0
ReadyAt addr cycle t = (t.addr ≡ addr) × (t.complete_cycle ≡ cycle)

completed-All :
    (config : Config) (addr cycle : ℕ) (ts : List Transaction)
    → All (ReadyAt addr cycle) (map (completed_at config cycle) (reads_of addr ts))
unfolding reads_of
completed-All config addr cycle [] = tt
completed-All config addr cycle (t ∷ ts) = elim (Bool-cases (t.addr == addr)) [
  | inl y ↦ rw (y, reads_of) (((ground arith, refl), completed-All config addr cycle ts))
  | inr n ↦ rw (n, reads_of) (completed-All config addr cycle ts)
]

module _ (config : Config) where
  -- A read command answers every read that waits for its address, and no other: they enter the return
  -- queue, as many as its count says, due after the read delay; afterwards none of that address
  -- waits, and as many as before of every other.
  pub finish_reads-exact :
      (c : Controller) (addr b : ℕ) {n : ℕ} {c' : Controller}
      → finish_reads config c addr ≡ some (n, c')
      → (new : List Transaction) × (c'.return_queue ≡ c.return_queue ++ new)
        × (length new ≡ n)
        × (n ≡ count addr c.pending_rd_q)
        × All (ReadyAt addr (u64 (c.clk + config.read_delay))) new
        × (count b c'.pending_rd_q ≡ (if b == addr then 0 else count b c.pending_rd_q))
  unfolding finish_reads
  finish_reads-exact c addr b {n} {c'} e =
      let new =
        map (completed_at config (u64 (c.clk + config.read_delay)))
          (reads_of addr c.pending_rd_q) in
      elim (Bool-cases (count addr c.pending_rd_q == 0)) [
        | inl y ↦ absurd (ground arith)
        | inr k ↦
            let e' = some-injective _ (n, c') (rw (k, finish_reads) at e) in
            let count_is : n ≡ count addr c.pending_rd_q =
              sym (ap (λ (x : ℕ × Controller). x.0) e') in
            (
              new,
              sym (ap (λ (x : ℕ × Controller). x.1.return_queue) e'),
              length-map (reads_of addr c.pending_rd_q) _
                  ∙ length-reads_of addr c.pending_rd_q
                  ∙ sym count_is,
              count_is,
              completed-All config addr _ c.pending_rd_q,
              subst
                  (λ (x : ℕ × Controller).
                    count b x.1.pending_rd_q ≡ (if b == addr then 0 else count b c.pending_rd_q))
                  e' (count-reads_except addr b c.pending_rd_q),
            )
      ]
