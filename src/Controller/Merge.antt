-- ===== src/Controller/Merge.antt =====
-- src/controller.cc: transactions of one address (`AddTransaction`), and the room for them.
use latest_zsim_dramsim.Prelude.{
  ℕ, ◌+◌, ◌≤◌, ◌≡◌, refl, true, false, ◌==◌, Bool, List, [], ◌∷◌, ◌++◌, ◌⊎◌, inl, inr, arith,
  if◌then◌else◌, length, length-append, ltb,
}
use native.Mathlib.Decide.{ℕ_discrete}
use latest_zsim_dramsim.Common.{Transaction}
use latest_zsim_dramsim.Config.{Config}
use latest_zsim_dramsim.Stats.{add_value}
use latest_zsim_dramsim.Controller.{
  Controller, count, will_accept_transaction, enqueue, complete_next, add_write, add_read,
  add_transaction, minus64,
}

count-append :
    (addr : ℕ) (ts us : List Transaction) → count addr (ts ++ us) ≡ count addr ts + count addr us
unfolding count
count-append addr [] us = omega arith
count-append addr (t ∷ ts) us = ground (arith, count-append addr ts us)

-- At most one pending write for each address.
pub record OneWrite (c : Controller) : Type 0 where
  pub one : (addr : ℕ) → count addr c.pending_wr_q ≤ 1

pushed :
    (ts : List Transaction) (t : Transaction) (addr : ℕ)
    → count t.addr ts ≡ 0
    → count addr ts ≤ 1
    → count addr (ts ++ t ∷ []) ≤ 1
unfolding count
pushed ts t addr z h =
    rw (count-append addr ts (t ∷ [])) (elim (ℕ_discrete t.addr addr) [
      | yes e ↦ rw (← e) (rw z (ground arith))
      | no e ↦ ground arith
    ])

module _ (config : Config) where
  enqueue-pending :
      (t : Transaction) (c : Controller) → (enqueue config t c).pending_wr_q ≡ c.pending_wr_q
  enqueue-pending t c = ground arith

  add_write-pending :
      (t : Transaction) (c : Controller)
      → ((count t.addr c.pending_wr_q ≡ 0)
          × ((add_write config t c).pending_wr_q ≡ c.pending_wr_q ++ t ∷ []))
        ⊎ ((add_write config t c).pending_wr_q ≡ c.pending_wr_q)
  unfolding add_write
  add_write-pending t c = ground arith

  add_read-pending :
      (t : Transaction) (c : Controller) → (add_read config t c).pending_wr_q ≡ c.pending_wr_q
  unfolding add_read
  add_read-pending t c = ground arith

  add_write-OneWrite :
      (t : Transaction) (c : Controller) → OneWrite c → OneWrite (add_write config t c)
  add_write-OneWrite t c o = record {
    one = λ addr. elim (add_write-pending t c) [
      | inl (z, e) ↦ rw e (pushed c.pending_wr_q t addr z (o.one addr))
      | inr e ↦ rw e (o.one addr)
    ];
  }

  add_read-OneWrite :
      (t : Transaction) (c : Controller) → OneWrite c → OneWrite (add_read config t c)
  add_read-OneWrite t c o = record { one = λ addr. rw (add_read-pending t c) (o.one addr) }

  either-OneWrite :
      (b : Bool) (c c' : Controller) → OneWrite c → OneWrite c' → OneWrite (if b then c else c')
  either-OneWrite true c c' o o' = o
  either-OneWrite false c c' o o' = o'

  -- `AddTransaction` pends a write only where none is pending for its address.
  pub add_transaction-OneWrite :
      (c : Controller) (t : Transaction) → OneWrite c → OneWrite (add_transaction config c t)
  unfolding add_transaction
  add_transaction-OneWrite c t o =
      let t' = record t { added_cycle = c.clk } in
      let c' = record c {
        stats = add_value "interarrival_latency" (minus64 c.clk c.last_trans_clk) c.stats;
        last_trans_clk = c.clk;
      } in
      let o' : OneWrite c' = record { one = o.one } in
      either-OneWrite t.is_write (add_write config t' c') (add_read config t' c')
        (add_write-OneWrite t' c' o') (add_read-OneWrite t' c' o')

  -- The three vectors are within the size of the configuration.
  pub record WithinRoom (c : Controller) : Type 0 where
    pub unified : length c.unified_queue ≤ config.trans_queue_size
    pub reads : length c.read_queue ≤ config.trans_queue_size
    pub writes : length c.write_buffer ≤ config.trans_queue_size

  enqueue-room :
      (t : Transaction) (c : Controller)
      → WithinRoom c
      → will_accept_transaction config c t.is_write ≡ true
      → WithinRoom (enqueue config t c)
  unfolding will_accept_transaction
  enqueue-room t c w r = record {
    unified = ground (arith, w.unified, length-append c.unified_queue (t ∷ []));
    reads = ground (arith, w.reads, length-append c.read_queue (t ∷ []));
    writes = ground (arith, w.writes, length-append c.write_buffer (t ∷ []));
  }

  either-room :
      (b : Bool) (c c' : Controller)
      → (b ≡ true → WithinRoom c)
      → (b ≡ false → WithinRoom c')
      → WithinRoom (if b then c else c')
  either-room true c c' w w' = w refl
  either-room false c c' w w' = w' refl

  -- What a record of other fields does not move.
  completed-room :
      (t : Transaction) (c : Controller) → WithinRoom c → WithinRoom (complete_next config t c)
  completed-room t c w = record { unified = w.unified; reads = w.reads; writes = w.writes }

  add_write-room :
      (t : Transaction) (c : Controller)
      → WithinRoom c
      → will_accept_transaction config c t.is_write ≡ true
      → WithinRoom (add_write config t c)
  unfolding add_write will_accept_transaction
  add_write-room t c w r =
      let c' = record c { pending_wr_q = c.pending_wr_q ++ t ∷ [] } in
      let w' : WithinRoom c' = record { unified = w.unified; reads = w.reads; writes = w.writes } in
      completed-room t _ (
        either-room (count t.addr c.pending_wr_q == 0) (enqueue config t c') c
          (λ _. enqueue-room t c' w' r) (λ _. w))

  add_read-room :
      (t : Transaction) (c : Controller)
      → WithinRoom c
      → will_accept_transaction config c t.is_write ≡ true
      → WithinRoom (add_read config t c)
  unfolding add_read will_accept_transaction
  add_read-room t c w r =
      let c' = record c { pending_rd_q = c.pending_rd_q ++ t ∷ [] } in
      let w' : WithinRoom c' = record { unified = w.unified; reads = w.reads; writes = w.writes } in
      either-room (ltb 0 (count t.addr c.pending_wr_q)) _ _ (λ _. completed-room t c w)
        (λ _.
          either-room (count t.addr c'.pending_rd_q == 1) (enqueue config t c') c'
            (λ _. enqueue-room t c' w' r) (λ _. w'))

  -- A transaction that is added when `WillAcceptTransaction` has said yes leaves the transaction
  -- queues within their size.
  pub add_transaction-room :
      (c : Controller) (t : Transaction)
      → WithinRoom c
      → will_accept_transaction config c t.is_write ≡ true
      → WithinRoom (add_transaction config c t)
  unfolding add_transaction will_accept_transaction
  add_transaction-room c t w r =
      let t' = record t { added_cycle = c.clk } in
      let c' = record c {
        stats = add_value "interarrival_latency" (minus64 c.clk c.last_trans_clk) c.stats;
        last_trans_clk = c.clk;
      } in
      let w' : WithinRoom c' = record { unified = w.unified; reads = w.reads; writes = w.writes } in
      either-room t.is_write (add_write config t' c') (add_read config t' c')
        (λ _. add_write-room t' c' w' r) (λ _. add_read-room t' c' w' r)
