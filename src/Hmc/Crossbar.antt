-- ===== src/Hmc/Crossbar.antt =====
-- One direction of the crossbar of src/hmc.cc: the requests from the links to the quads in
-- `DrainRequests`, and the responses from the quads to the links in `DrainResponses`, whose loops are
-- the same code on other queues. The queues of one side stand for the vectors of queues; the counter
-- of an age is not negative.
pub mod Ages
pub mod Steps
pub mod Flow
use latest_zsim_dramsim.Prelude.{
  ℕ, zero, suc, ◌+◌, ◌%◌, ltb, ◌==◌, if◌then◌else◌, Bool, true, false, ◌&&◌, ℤ, pos, negsuc, sub_ℕ,
  List, [], ◌∷◌, ◌++◌, length, Option, none, some, ◌>>=◌, for_range,
}
use latest_zsim_dramsim.Common.{u64}
use latest_zsim_dramsim.Channel.{put}

-- The queues that are drained and filled, the flits for which a queue of the far side is still busy,
-- and the ages of the queues of the near side.
pub record Crossbar (P : Type 0) : Type 0 where
  pub input : ℕ → List P
  pub output : ℕ → List P
  pub busy : ℕ → ℤ
  pub age : ℕ → ℕ

abbrev pub empty_crossbar : {P : Type 0} → Crossbar P
empty_crossbar = record { input = λ i. []; output = λ i. []; busy = λ i. pos 0; age = λ i. 0 }

-- `if (i > 0) i -= 2`
abbrev pub lower_busy : ℤ → ℤ
lower_busy (pos n) = if ltb 0 n then sub_ℕ n 2 else pos n
lower_busy (negsuc n) = negsuc n

-- `busy <= 0`
abbrev pub is_free : ℤ → Bool
is_free (pos n) = n == 0
is_free (negsuc n) = true

-- The inner loop of `BuildAgeQueue`: a position goes before the first entry that is below its age.
unfoldable pub insert_by_age : ℕ → ℕ → List ℕ → List ℕ
insert_by_age position a [] = position ∷ []
insert_by_age position a (it ∷ queue) =
    let rest = insert_by_age position a queue in
    if ltb it a then position ∷ it ∷ queue else it ∷ rest

-- One round of the outer loop.
unfoldable pub add_aged : ℕ → ℕ → (ℕ → ℕ) → ℕ → List ℕ → List ℕ
unfolding insert_by_age
add_aged queue_len start_pos ages i queue =
    let position = (i + start_pos) % queue_len in
    if ltb 0 (ages position) then insert_by_age position (ages position) queue else queue

-- `BuildAgeQueue`. With no queue the remainder by 0 ends the process.
unfoldable pub build_age_queue : ℕ → ℕ → (ℕ → ℕ) → Option (List ℕ)
unfolding for_range add_aged
build_age_queue queue_len logic_clk ages =
    if queue_len == 0
    then none
    else some (for_range queue_len 0 (add_aged queue_len (logic_clk % queue_len) ages) [])

-- The age of a queue that has just sent a packet, from what is left in it.
abbrev pub next_age : {P : Type 0} → List P → ℕ
next_age [] = 0
next_age (_ ∷ _) = 1

-- `dest` is the queue of the far side a packet goes to, and `stamp` sets its `exit_time`.
module _ {P : Type 0} (dest flits : P → ℕ) (stamp : ℕ → P → P) (queue_depth logic_clk : ℕ) where
  -- The far side has room for a packet.
  abbrev pub can_move : Crossbar P → P → Bool
  can_move x p = ltb (length (x.output (dest p))) queue_depth && is_free (x.busy (dest p))

  -- The first packet of a queue crosses.
  abbrev pub move : ℕ → P → List P → Crossbar P → Crossbar P
  move src p rest x = record x {
    input = put x.input src rest;
    output = put x.output (dest p) (x.output (dest p) ++ stamp (u64 (logic_clk + flits p)) p ∷ []);
    busy = put x.busy (dest p) (pos (flits p));
    age = put x.age src (next_age rest);
  }

  -- One round of the arbitration. The `front()` of an empty queue is undefined.
  unfoldable pub arbitrate : ℕ → Crossbar P → Option (Crossbar P)
  arbitrate src x = elim (x.input src) [
    | [] ↦ none
    | p ∷ rest ↦
        if can_move x p
        then some (move src p rest x)
        else some (record x { age = put x.age src (suc (x.age src)) })
  ]

  -- `while (!age_queue.empty())`
  unfoldable pub arbitrate_all : List ℕ → Crossbar P → Option (Crossbar P)
  unfolding arbitrate
  arbitrate_all [] x = some x
  arbitrate_all (src ∷ age_queue) x = arbitrate src x >>= arbitrate_all age_queue

  -- The crossbar of one logic cycle, from `sources` queues to the busy counters of the far side.
  unfoldable pub drain_crossbar : ℕ → Crossbar P → Option (Crossbar P)
  unfolding build_age_queue arbitrate_all
  drain_crossbar sources x = do
    age_queue ← build_age_queue sources logic_clk x.age
    arbitrate_all age_queue (record x { busy = λ i. lower_busy (x.busy i) })
