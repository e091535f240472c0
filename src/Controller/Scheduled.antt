-- ===== src/Controller/Scheduled.antt =====
-- src/controller.cc: `ScheduleTransaction`, and the number of transactions that wait.
use mathlib.Core.Option.{some-injective}
use latest_zsim_dramsim.Prelude.{
  ◌≡◌, subst, Bool-cases, List, [], ◌∷◌, ◌++◌, some, inl, inr, arith, >>=_inv,
}
use latest_zsim_dramsim.Common.{Transaction}
use latest_zsim_dramsim.Config.{Config}
use latest_zsim_dramsim.Queue.{will_accept_command}
use latest_zsim_dramsim.Controller.{Controller, trans_to_command}
use latest_zsim_dramsim.Controller.Schedule.{
  Source, unified, start_draining, source_of, queue_at, schedule_one, schedule_from,
  schedule_transaction,
}
use latest_zsim_dramsim.Controller.Steady.{Steady, Steady-refl, Steady-trans, Steady-banks}

module _ (config : Config) where
  schedule_one-Steady :
      (src : Source) (c : Controller) (before : List Transaction) (t : Transaction)
      (after : List Transaction) {c' : Controller}
      → schedule_one config src c before t after ≡ some c'
      → Steady c c'
  unfolding schedule_one
  schedule_one-Steady unified c before t after e =
      Steady-banks (ground arith) (ground arith) (ground arith) (ground arith)
  schedule_one-Steady _ c before t after e =
      Steady-banks (ground arith) (ground arith) (ground arith) (ground arith)

  schedule_from-Steady :
      (src : Source) (c : Controller) (before queue : List Transaction) {c' : Controller}
      → schedule_from config src c before queue ≡ some c'
      → Steady c c'
  unfolding schedule_from
  schedule_from-Steady src c before [] e = subst (Steady c) (some-injective _ _ e) (Steady-refl c)
  schedule_from-Steady src c before (t ∷ after) e =
      let (room, _, e1) =
        >>=_inv
          (will_accept_command config c.queue (trans_to_command config t).rank
            (trans_to_command config t).bankgroup (trans_to_command config t).bank)
          _ e in
      elim (Bool-cases room) [
        | inl y ↦ schedule_one-Steady src c before t after (rw y at e1)
        | inr n ↦ schedule_from-Steady src c (before ++ t ∷ []) after (rw n at e1)
      ]

  start_draining-Steady : (c : Controller) → Steady c (start_draining config c)
  unfolding start_draining
  start_draining-Steady c = Steady-banks (ground arith) (ground arith) (ground arith) (ground arith)

  pub schedule_transaction-Steady :
      (c : Controller) {c' : Controller} → schedule_transaction config c ≡ some c' → Steady c c'
  unfolding schedule_transaction
  schedule_transaction-Steady c e =
      let d = start_draining config c in
      Steady-trans (start_draining-Steady c)
        (schedule_from-Steady (source_of config d) d [] (queue_at (source_of config d) d) e)
