-- ===== src/Cpu/Trace.antt =====
-- The order in which a trace is sent (src/cpu.cc).
use latest_zsim_dramsim.Prelude.{
  ℕ, ◌+◌, ◌≡◌, refl, ap, sym, ◌∙◌, subst, leb, if◌then◌else◌, Bool, true, false, Bool-cases, inl,
  inr, List-cases, List, [], ◌∷◌, ◌++◌, map, some, >>=_inv,
}
use mathlib.Core.Option.{some-injective}
use mathlib.Core.List.{append_assoc}
use latest_zsim_dramsim.Common.{Transaction, u64}
use latest_zsim_dramsim.Cpu.{TraceCpu, read_trace, offer, offer_trans, trace_tick}
use latest_zsim_dramsim.Cpu.Systems.{Memory, logged}

-- What is sent of a transaction.
abbrev pub sent : Transaction → ℕ × Bool
sent t = (t.addr, t.is_write)

-- A memory with the log of what was added to it.
abbrev pub Logged : Type 0 → Type 0
Logged S = List (ℕ × Bool) × S

module _ {S : Type 0} where
  -- What is still to be sent: the transaction that was read, unless it went, and the rest of the file.
  abbrev pub unsent : TraceCpu (Logged S) → List (ℕ × Bool)
  unsent t = if t.get_next then map sent t.trace_file else sent t.trans ∷ map sent t.trace_file

  -- Until the end of the file is met, what was sent and what is still to be sent are the trace.
  abbrev pub InOrder : List Transaction → TraceCpu (Logged S) → Type 0
  InOrder trace t = t.eof ≡ false → t.memory.0 ++ unsent t ≡ map sent trace

module _ {S : Type 0} (m : Memory S) where
  -- A memory's cycle sends nothing.
  tick_log : (x y : Logged S) → (logged m).clock_tick x ≡ some y → x.0 ≡ y.0
  tick_log x y e =
      let (s, e1, e2) = >>=_inv (m.clock_tick x.1) _ e in
      ap (λ (z : Logged S). z.0) (some-injective (x.0, s) y e2)

  offer_log :
      (hex_addr : ℕ) (is_write : Bool) (x : Logged S) (o : Bool × Logged S)
      → offer (logged m) hex_addr is_write x ≡ some o
      → (if o.0 then x.0 ++ (hex_addr, is_write) ∷ [] else x.0) ≡ o.1.0
  offer_log hex_addr is_write x o e =
      let (accepted, e1, e2) = >>=_inv (m.will_accept hex_addr is_write x.1) _ e in
      elim (Bool-cases accepted) [
        | inl y ↦
            let (z, e3, e4) = >>=_inv ((logged m).add hex_addr is_write x) _ (rw y at e2) in
            let (s, e5, e6) = >>=_inv (m.add hex_addr is_write x.1) _ e3 in
            let p = some-injective (x.0 ++ (hex_addr, is_write) ∷ [], s) z e6 in
            let q = some-injective (true, z) o e4 in
            subst
              (λ (r : Bool × Logged S).
                (if r.0 then x.0 ++ (hex_addr, is_write) ∷ [] else x.0) ≡ r.1.0)
              q (ap (λ (r : Logged S). r.0) p)
        | inr n ↦
            let q = some-injective (false, x) o (rw n at e2) in
            subst
              (λ (r : Bool × Logged S).
                (if r.0 then x.0 ++ (hex_addr, is_write) ∷ [] else x.0) ≡ r.1.0)
              q refl
      ]

  read_trace-memory : (t : TraceCpu (Logged S)) → (read_trace t).memory ≡ t.memory
  unfolding read_trace
  read_trace-memory t = elim (List-cases t.trace_file) [
    | inl e ↦ rw (e, read_trace) refl
    | inr (next, rest, e) ↦ rw (e, read_trace) refl
  ]

  read_trace-end : (t : TraceCpu (Logged S)) → t.trace_file ≡ [] → (read_trace t).eof ≡ true
  unfolding read_trace
  read_trace-end t e = rw (e, read_trace) refl

  read_trace-unsent :
      (t : TraceCpu (Logged S))
      → t.get_next ≡ true
      → (read_trace t).eof ≡ false
      → unsent (record (read_trace t) { get_next = false }) ≡ unsent t
  unfolding read_trace
  read_trace-unsent t g e = elim (List-cases t.trace_file) [
    | inl none_left ↦ let ended = read_trace-end t none_left in cc
    | inr (next, rest, e') ↦ rw (g, e', read_trace) refl
  ]

  offered :
      (t : TraceCpu (Logged S)) (o : Bool × Logged S)
      → t.get_next ≡ false
      → (if o.0 then t.memory.0 ++ sent t.trans ∷ [] else t.memory.0) ≡ o.1.0
      → o.1.0 ++ unsent (record t { get_next = o.0; memory = o.1 }) ≡ t.memory.0 ++ unsent t
  offered t o g e = elim (Bool-cases o.0) [
    | inl y ↦
        let e' : t.memory.0 ++ sent t.trans ∷ [] ≡ o.1.0 = rw y at e in
        rw (y, g, ← e') (append_assoc t.memory.0 (sent t.trans ∷ []) (map sent t.trace_file))
    | inr n ↦ let e' : t.memory.0 ≡ o.1.0 = rw n at e in rw (n, g, ← e') refl
  ]

  offer_trans-unsent :
      (t w : TraceCpu (Logged S))
      → t.get_next ≡ false
      → offer_trans (logged m) t ≡ some w
      → (w.memory.0 ++ unsent w ≡ t.memory.0 ++ unsent t) × (w.eof ≡ t.eof)
  offer_trans-unsent t w g e = elim (Bool-cases (leb t.trans.added_cycle t.clk)) [
    | inl y ↦
        let (o, e1, e2) =
          >>=_inv (offer (logged m) t.trans.addr t.trans.is_write t.memory) _ (rw y at e) in
        let l = offer_log t.trans.addr t.trans.is_write t.memory o e1 in
        subst
          (λ (r : TraceCpu (Logged S)).
            (r.memory.0 ++ unsent r ≡ t.memory.0 ++ unsent t) × (r.eof ≡ t.eof))
          (some-injective (record t { get_next = o.0; memory = o.1 }) w e2) (offered t o g l, refl)
    | inr n ↦
        subst
          (λ (r : TraceCpu (Logged S)).
            (r.memory.0 ++ unsent r ≡ t.memory.0 ++ unsent t) × (r.eof ≡ t.eof))
          (some-injective t w (rw n at e)) (refl, refl)
  ]

  -- The state with the next transaction read, if one is wanted.
  abbrev fetched : Bool → TraceCpu (Logged S) → TraceCpu (Logged S)
  fetched wanted u = if wanted then record (read_trace u) { get_next = false } else u

  fetched-unsent :
      (wanted : Bool) (u : TraceCpu (Logged S))
      → u.get_next ≡ wanted
      → (fetched wanted u).eof ≡ false
      → (fetched wanted u).memory.0 ++ unsent (fetched wanted u) ≡ u.memory.0 ++ unsent u
  fetched-unsent true u g e =
      let memory = ap (λ (x : Logged S). x.0) (read_trace-memory u) in
      let rest = read_trace-unsent u g e in
      ap (λ l. l ++ unsent (fetched true u)) memory ∙ ap (λ l. u.memory.0 ++ l) rest
  fetched-unsent false u g e = refl

  fetched-get_next :
      (wanted : Bool) (u : TraceCpu (Logged S))
      → u.get_next ≡ wanted
      → (fetched wanted u).get_next ≡ false
  fetched-get_next true u g = refl
  fetched-get_next false u g = g

  sent_once :
      (ended : Bool) (u z : TraceCpu (Logged S))
      → u.eof ≡ ended
      → (if ended then some u else offer_trans (logged m) (fetched u.get_next u)) ≡ some z
      → z.eof ≡ false
      → (z.memory.0 ++ unsent z ≡ u.memory.0 ++ unsent u) × (u.eof ≡ false)
  sent_once true u z ended e open_z =
      let still : u.eof ≡ false =
        ap (λ (r : TraceCpu (Logged S)). r.eof) (some-injective u z e) ∙ open_z in
      (cc, still)
  sent_once false u z ended e open_z =
      let v = fetched u.get_next u in
      let (same, eof) = offer_trans-unsent v z (fetched-get_next u.get_next u refl) e in
      (same ∙ fetched-unsent u.get_next u refl (sym eof ∙ open_z), ended)

  trace_tick-InOrder :
      (trace : List Transaction) (t w : TraceCpu (Logged S))
      → InOrder trace t
      → trace_tick (logged m) t ≡ some w
      → InOrder trace w
  unfolding trace_tick
  trace_tick-InOrder trace t w k e open_end =
      let (x, e1, e2) = >>=_inv ((logged m).clock_tick t.memory) _ e in
      let u : TraceCpu (Logged S) = record t { memory = x } in
      let (z, e3, e4) =
        >>=_inv (if u.eof then some u else offer_trans (logged m) (fetched u.get_next u)) _ e2 in
      let same = some-injective (record z { clk = u64 (z.clk + 1) }) w e4 in
      let open_z : z.eof ≡ false = ap (λ (r : TraceCpu (Logged S)). r.eof) same ∙ open_end in
      let quiet : x.0 ≡ t.memory.0 = sym (tick_log t.memory x e1) in
      let (once, open_t) = sent_once u.eof u z refl e3 open_z in
      subst (λ (r : TraceCpu (Logged S)). r.memory.0 ++ unsent r ≡ map sent trace) same
        (once ∙ ap (λ l. l ++ unsent t) quiet ∙ k open_t)

module _ {S : Type 0} (m : Memory S) where
  -- The cycles of the front end of a trace, from the first one, with a memory that keeps a log.
  pub data TraceRun (trace : List Transaction) : TraceCpu (Logged S) → Type 0 where
    opened :
        (s : S) (trans : Transaction)
        → TraceRun trace (record {
          memory = ([], s);
          clk = 0;
          trace_file = trace;
          eof = false;
          trans = trans;
          get_next = true;
        })
    ticked :
        {t w : TraceCpu (Logged S)}
        → TraceRun trace t
        → trace_tick (logged m) t ≡ some w
        → TraceRun trace w

  -- With any memory, until the end of the file is met, the transactions that the front end has added,
  -- then the one that it holds, if that has not been added, and then the rest of the file are the
  -- trace: none is left out, added twice or added before an earlier one.
  pub TraceRun-order :
      {trace : List Transaction} {t : TraceCpu (Logged S)}
      → TraceRun trace t
      → t.eof ≡ false
      → t.memory.0 ++ unsent t ≡ map sent trace
  TraceRun-order (opened s trans) e = refl
  TraceRun-order {trace} (ticked {t = t} {w = w} run e) open_end =
      trace_tick-InOrder m trace t w (TraceRun-order run) e open_end
