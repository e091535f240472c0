-- ===== src/Controller/Schedule.antt =====
-- src/controller.cc: a transaction becomes a command (`ScheduleTransaction`).
use latest_zsim_dramsim.Prelude.{
  zero, suc, Bool, false, not, ◌&&◌, ◌||◌, ltb, leb, if◌then◌else◌, List, [], ◌∷◌, ◌++◌, length, ℤ,
  pos, negsuc, eq_ℤ, Option, some, ◌>>=◌,
}
use latest_zsim_dramsim.Common.{Transaction, is_write}
use latest_zsim_dramsim.Config.{Config}
use latest_zsim_dramsim.Queue.{will_accept_command, add_command, queue_empty}
use latest_zsim_dramsim.Controller.{Controller, count, trans_to_command}

abbrev pub is_positive : ℤ → Bool
is_positive (pos n) = ltb 0 n
is_positive (negsuc n) = false

-- `write_draining_ -= 1`
abbrev pub decrement : ℤ → ℤ
decrement (pos zero) = negsuc 0
decrement (pos (suc n)) = pos n
decrement (negsuc n) = negsuc (suc n)

-- Which of the three vectors is scheduled from.
pub data Source : Type 0 where
  unified reads writes : Source

abbrev pub queue_at : Source → Controller → List Transaction
queue_at unified c = c.unified_queue
queue_at reads c = c.read_queue
queue_at writes c = c.write_buffer

abbrev pub with_queue : Source → List Transaction → Controller → Controller
with_queue unified q c = record c { unified_queue = q }
with_queue reads q c = record c { read_queue = q }
with_queue writes q c = record c { write_buffer = q }

module _ (config : Config) where
  -- Draining starts at a full write buffer, or at one of more than 8 when no command waits.
  unfoldable pub start_draining : Controller → Controller
  unfolding queue_empty
  start_draining c =
      if eq_ℤ c.write_draining (pos 0) && not config.unified_queue
      then (if leb config.trans_queue_size (length c.write_buffer)
            || (ltb 8 (length c.write_buffer) && queue_empty config c.queue)
          then record c { write_draining = pos (length c.write_buffer) }
          else c)
      else c

  abbrev pub source_of : Controller → Source
  source_of c =
      if config.unified_queue
      then unified
      else (if is_positive c.write_draining then writes else reads)

  -- A transaction whose command has room: it is moved, unless it is a write that a pending read
  -- of its address holds back.
  unfoldable pub schedule_one :
      Source → Controller → List Transaction → Transaction → List Transaction → Option Controller
  unfolding add_command count
  schedule_one src c before t after =
      let cmd = trans_to_command config t in
      let buffered : Bool = not config.unified_queue && is_write cmd in
      if buffered && ltb 0 (count t.addr c.pending_rd_q)
      then some (record c { write_draining = pos 0 })
      else (do
        (ok, q) ← add_command config c.queue cmd
        some (
            with_queue src (before ++ after) (record c {
              queue = q;
              write_draining = if buffered then decrement c.write_draining else c.write_draining;
            })))

  -- The loop over the queue, from an iterator on.
  unfoldable pub schedule_from :
      Source → Controller → List Transaction → List Transaction → Option Controller
  unfolding will_accept_command schedule_one trans_to_command
  schedule_from src c before [] = some c
  schedule_from src c before (t ∷ after) = do
    let cmd = trans_to_command config t
    room ← will_accept_command config c.queue cmd.rank cmd.bankgroup cmd.bank
    let rest = schedule_from src c (before ++ t ∷ []) after
    if room then schedule_one src c before t after else rest

  -- `Controller::ScheduleTransaction`
  unfoldable pub schedule_transaction : Controller → Option Controller
  unfolding start_draining schedule_from
  schedule_transaction c =
      let c' = start_draining c in
      let src = source_of c' in schedule_from src c' [] (queue_at src c')
