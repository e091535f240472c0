-- ===== src/Cpu.antt =====
-- src/cpu.h and src/cpu.cc: the front ends. The n-th number of a generator is `gen n`; a trace is the
-- list of the transactions of a file that ends with a line's end, with the rest of it that is unread.
use latest_zsim_dramsim.Prelude.{
  ℕ, ◌+◌, ◌*◌, ◌%◌, ◌^◌, ltb, leb, ◌==◌, if◌then◌else◌, Bool, true, false, ◌&&◌, ◌||◌, List, [],
  ◌∷◌, Option, none, some, ◌>>=◌,
}
use latest_zsim_dramsim.Common.{Transaction, u64}
use latest_zsim_dramsim.Cpu.Systems.{Memory}
pub mod Systems
pub mod Trace

pub record RandomCpu (S : Type 0) : Type 0 where
  pub memory : S
  pub clk : ℕ
  pub last_addr : ℕ
  pub last_write : Bool
  pub get_next : Bool
  pub drawn : ℕ

-- One array of a stream: its address, and whether its element has been inserted.
pub record Array : Type 0 where
  pub addr : ℕ
  pub inserted : Bool

pub record StreamCpu (S : Type 0) : Type 0 where
  pub memory : S
  pub clk : ℕ
  pub a : Array
  pub b : Array
  pub c : Array
  pub offset : ℕ
  pub drawn : ℕ

pub record TraceCpu (S : Type 0) : Type 0 where
  pub memory : S
  pub clk : ℕ
  pub trace_file : List Transaction
  pub eof : Bool
  pub trans : Transaction
  pub get_next : Bool

abbrev pub array_size : ℕ
array_size = 2 * 2 ^ 20

abbrev pub stride : ℕ
stride = 64

-- `trace_file_ >> trans_`. At the end of the file nothing is extracted: the address and the cycle stay,
-- and no operation is no write.
unfoldable pub read_trace : {S : Type 0} → TraceCpu S → TraceCpu S
read_trace t = elim t.trace_file [
  | [] ↦ record t { eof = true; trans = record t.trans { is_write = false } }
  | next ∷ rest ↦ record t {
    trace_file = rest;
    trans = record t.trans {
      addr = next.addr;
      added_cycle = next.added_cycle;
      is_write = next.is_write;
    };
  }
]

module _ {S : Type 0} (m : Memory S) where
  -- `AddTransaction` behind its test.
  abbrev pub offer : ℕ → Bool → S → Option (Bool × S)
  offer hex_addr is_write s = do
    accepted ← m.will_accept hex_addr is_write s
    s' ← if accepted then m.add hex_addr is_write s else some s
    some (accepted, s')

  -- The transaction of a trace, once its cycle has come.
  abbrev pub offer_trans : TraceCpu S → Option (TraceCpu S)
  offer_trans t =
      if leb t.trans.added_cycle t.clk
      then (offer t.trans.addr t.trans.is_write t.memory >>= λ o.
          some (record t { get_next = o.0; memory = o.1 }))
      else some t

  -- `TraceBasedCPU::ClockTick`
  unfoldable pub trace_tick : TraceCpu S → Option (TraceCpu S)
  unfolding read_trace
  trace_tick t = do
    s ← m.clock_tick t.memory
    let u = record t { memory = s }
    let v = if u.get_next then record (read_trace u) { get_next = false } else u
    w ← if u.eof then some u else offer_trans v
    some (record w { clk = u64 (w.clk + 1) })

module _ {S : Type 0} (m : Memory S) (gen : ℕ → ℕ) where
  -- `RandomCPU::ClockTick`
  unfoldable pub random_tick : RandomCpu S → Option (RandomCpu S)
  random_tick r = do
    s ← m.clock_tick r.memory
    let addr = if r.get_next then gen r.drawn else r.last_addr
    let write = if r.get_next then gen (r.drawn + 1) % 3 == 0 else r.last_write
    (accepted, s') ← offer m addr write s
    some (record {
      memory = s';
      clk = u64 (r.clk + 1);
      last_addr = addr;
      last_write = write;
      get_next = accepted;
      drawn = if r.get_next then r.drawn + 2 else r.drawn;
    })

  -- The element of one array.
  abbrev pub insert_element : ℕ → Bool → Array → S → Option (Array × S)
  insert_element offset is_write x s =
      if x.inserted
      then some (x, s)
      else offer m (u64 (x.addr + offset)) is_write s >>= λ o.
          some (record x { inserted = o.0 }, o.1)

  -- New arrays at the start and at the end of the old ones.
  abbrev pub new_arrays : StreamCpu S → StreamCpu S
  new_arrays t =
      if leb array_size t.offset || (t.clk == 0)
      then record t {
        a = record t.a { addr = gen t.drawn };
        b = record t.b { addr = gen (t.drawn + 1) };
        c = record t.c { addr = gen (t.drawn + 2) };
        offset = 0;
        drawn = t.drawn + 3;
      }
      else t

  -- The next element, once all three arrays have this one inserted.
  abbrev pub next_element : StreamCpu S → StreamCpu S
  next_element t =
      if t.a.inserted && t.b.inserted && t.c.inserted
      then record t {
        offset = u64 (t.offset + stride);
        a = record t.a { inserted = false };
        b = record t.b { inserted = false };
        c = record t.c { inserted = false };
      }
      else t

  -- `StreamCPU::ClockTick`
  unfoldable pub stream_tick : StreamCpu S → Option (StreamCpu S)
  stream_tick t = do
    s ← m.clock_tick t.memory
    let u = new_arrays t
    (a, s1) ← insert_element u.offset false u.a s
    (b, s2) ← insert_element u.offset false u.b s1
    (c, s3) ← insert_element u.offset true u.c s2
    let v = next_element (record u { memory = s3; a = a; b = b; c = c })
    some (record v { clk = u64 (t.clk + 1) })
