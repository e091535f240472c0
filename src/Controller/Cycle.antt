-- ===== src/Controller/Cycle.antt =====
-- src/controller.cc: one cycle, and the number of transactions that wait.
use mathlib.Core.Option.{some-injective}
use latest_zsim_dramsim.Prelude.{
  ℕ, ◌≡◌, refl, subst, true, false, Bool, Bool-cases, Option, some, none, inl, inr, ◌>>=◌,
  if◌then◌else◌, >>=_inv, for_range, for_range?, for_range_keep, for_range?_keep, not, ◌&&◌,
}
use latest_zsim_dramsim.Common.{Command, CommandType, is_valid, no_command}
use latest_zsim_dramsim.Config.{Config}
use latest_zsim_dramsim.Timing.{Timing}
use latest_zsim_dramsim.Channel.RefreshQueue.{is_refresh_waiting}
use latest_zsim_dramsim.Channel.Ready.{get_ready_command}
use latest_zsim_dramsim.Queue.Issue.{Found, finish_refresh, get_command_to_issue}
use latest_zsim_dramsim.Refresh
use latest_zsim_dramsim.Controller.{Controller}
use latest_zsim_dramsim.Controller.Issue.{issue_command}
use latest_zsim_dramsim.Controller.Schedule.{schedule_transaction}
use latest_zsim_dramsim.Controller.Tick.{
  outside, searched, calculate_stats, power_rank, next_command, sref_type, sref_command,
  dual_command, issue_next, sref_rank, self_refresh, tick, same_kind,
}
use latest_zsim_dramsim.Stats.{increment}
use latest_zsim_dramsim.Controller.Steady.{
  Steady, Steady-refl, Steady-trans, Steady-queues, Steady-banks, issue_command-Steady,
  calculate_stats-Steady, power_rank-Steady, searched_by,
}
use latest_zsim_dramsim.Channel.Keeps.{get_ready_command-Slower}
use latest_zsim_dramsim.Controller.Times.{
  TimesKept, get_command_to_issue-TimesKept, finish_refresh-TimesKept, clock_tick-bank_states,
}
use latest_zsim_dramsim.Controller.Scheduled.{schedule_transaction-Steady}

module _ (config : Config) where
  pub next_command-Steady :
      (c : Controller) {r : Command × Controller} → next_command config c ≡ some r → Steady c r.1
  unfolding next_command
  next_command-Steady c {r} e =
      let ((cmd, c'), e1, e2) =
        >>=_inv
          (if is_refresh_waiting c.channel
            then (finish_refresh config c.queue (outside c) >>= λ f. some (f.cmd, searched c f))
            else some (no_command, c))
          _ e in
      Steady-trans
        (first (is_refresh_waiting c.channel) (finish_refresh config c.queue (outside c))
          (λ f. finish_refresh-TimesKept config c.queue (outside c)) e1)
        (second (is_valid cmd) cmd c' e2)
    where
      first :
          (b : Bool) (m : Option Found) {r' : Command × Controller}
          → ((f : Found) → m ≡ some f → TimesKept c.channel f.outside.channel)
          → (if b then (m >>= λ f. some (f.cmd, searched c f)) else some (no_command, c)) ≡ some r'
          → Steady c r'.1
      first true m kept e' = searched_by config c m kept e'
      first false m kept e' =
          subst (λ (x : Command × Controller). Steady c x.1) (some-injective _ _ e') (Steady-refl c)

      second :
          (b : Bool) (cmd : Command) (c' : Controller)
          → (if b
              then some (cmd, c')
              else (get_command_to_issue config c'.queue (outside c') >>= λ f.
                  some (f.cmd, searched c' f)))
            ≡ some r
          → Steady c' r.1
      second true cmd c' e' =
          subst (λ (x : Command × Controller). Steady c' x.1) (some-injective _ _ e')
            (Steady-refl c')
      second false cmd c' e' =
          searched_by config c' _ (λ f. get_command_to_issue-TimesKept config c'.queue (outside c'))
            e'

module _ (config : Config) (timing : Timing) where
  -- A command issued under a test, with what is done then.
  issued-Steady :
      (b : Bool) (c : Controller) (cmd : Command) (g : Controller → Controller) {c' : Controller}
      → ((d : Controller) → Steady d (g d))
      → (if b then (issue_command config timing c cmd >>= λ d. some (g d)) else some c) ≡ some c'
      → Steady c c'
  issued-Steady true c cmd g keep e =
      let (d, e1, e2) = >>=_inv (issue_command config timing c cmd) _ e in
      subst (Steady c) (some-injective _ _ e2)
        (Steady-trans (issue_command-Steady config timing c cmd e1) (keep d))
  issued-Steady false c cmd g keep e = subst (Steady c) (some-injective _ _ e) (Steady-refl c)

  dual_command-Steady :
      (cmd : Command) (c : Controller) {c' : Controller}
      → dual_command config timing cmd c ≡ some c'
      → Steady c c'
  unfolding dual_command
  dual_command-Steady cmd c e =
      let (f, found, e1) = >>=_inv (get_command_to_issue config c.queue (outside c)) _ e in
      Steady-trans
        (Steady-queues refl refl refl
          (get_command_to_issue-TimesKept config c.queue (outside c) found))
        (issued-Steady (is_valid f.cmd && not (same_kind f.cmd cmd)) (searched c f) f.cmd
          (λ d. record d { stats = increment "hbm_dual_cmds" d.stats })
          (λ d. Steady-banks refl refl refl refl) e1)

  dual-Steady :
      (b : Bool) (cmd : Command) (c : Controller) {c' : Controller}
      → (if b then dual_command config timing cmd c else some c) ≡ some c'
      → Steady c c'
  dual-Steady true cmd c e = dual_command-Steady cmd c e
  dual-Steady false cmd c e = subst (Steady c) (some-injective _ _ e) (Steady-refl c)

  issue_next-Steady :
      (c : Controller) {r : Bool × Controller} → issue_next config timing c ≡ some r → Steady c r.1
  unfolding issue_next
  issue_next-Steady c {r} e =
      let ((cmd, c1), e1, e2) = >>=_inv (next_command config c) _ e in
      let step = next_command-Steady config c e1 in
      elim (Bool-cases (is_valid cmd)) [
        | inl y ↦
            let (c2, e3, e4) = >>=_inv (issue_command config timing c1 cmd) _ (rw y at e2) in
            let (c3, e5, e6) =
              >>=_inv
                (if config.enable_hbm_dual_cmd then dual_command config timing cmd c2 else some c2)
                _ e4 in
            subst (λ (x : Bool × Controller). Steady c x.1) (some-injective _ _ e6)
              (Steady-trans step (
                Steady-trans (issue_command-Steady config timing c1 cmd e3)
                  (dual-Steady config.enable_hbm_dual_cmd cmd c2 e5)))
        | inr n ↦
            subst (λ (x : Bool × Controller). Steady c x.1) (some-injective _ r (rw n at e2)) step
      ]

  sref_rank-Steady :
      (c : Controller) (i : ℕ) (a a' : Bool × Controller)
      → Steady c a.1
      → sref_rank config timing i a ≡ some a'
      → Steady c a'.1
  unfolding sref_rank
  sref_rank-Steady c i (true, d) a' s e =
      subst (λ (x : Bool × Controller). Steady c x.1) (some-injective _ _ e) s
  sref_rank-Steady c i (false, d) a' s e = by_type (sref_type config d i) e
    where
      by_type :
          (o : Option CommandType)
          → (let m : Option (Bool × Controller) = elim o [
            | none ↦ some (false, d)
            | some t ↦
                (get_ready_command config d.channel (sref_command config t i) d.clk >>= λ r.
                if is_valid r.0
                then (issue_command config timing (record d { channel = r.1 }) r.0 >>= λ c''.
                    some (true, c''))
                else some (false, record d { channel = r.1 }))
          ] in
              m)
            ≡ some a'
          → Steady c a'.1
      by_type none e' = subst (λ (x : Bool × Controller). Steady c x.1) (some-injective _ _ e') s
      by_type (some t) e' =
          let ((cmd, channel), asked, e2) =
            >>=_inv (get_ready_command config d.channel (sref_command config t i) d.clk) _ e' in
          let d' = record d { channel = channel } in
          let ask = sref_command config t i in
          let kept = get_ready_command-Slower config d.channel ask d.clk asked in
          elim (Bool-cases (is_valid cmd)) [
            | inl y ↦
                let (c'', e3, e4) = >>=_inv (issue_command config timing d' cmd) _ (rw y at e2) in
                subst (λ (x : Bool × Controller). Steady c x.1) (some-injective _ _ e4)
                  (Steady-trans s (
                    Steady-trans {d = d'} (Steady-queues refl refl refl kept)
                      (issue_command-Steady config timing d' cmd e3)))
            | inr n ↦
                subst (λ (x : Bool × Controller). Steady c x.1) (some-injective _ a' (rw n at e2))
                  (Steady-trans s (Steady-queues refl refl refl kept))
          ]

  self_refresh-Steady :
      (c : Controller) {c' : Controller} → self_refresh config timing c ≡ some c' → Steady c c'
  unfolding self_refresh
  self_refresh-Steady c e =
      let (r, e1, e2) =
        >>=_inv (for_range? config.ranks 0 (sref_rank config timing) (false, c)) _ e in
      subst (Steady c) (some-injective _ _ e2) (
        for_range?_keep (λ (x : Bool × Controller). Steady c x.1) (sref_rank config timing)
          (sref_rank-Steady c) config.ranks 0 (false, c) (Steady-refl c) e1)

  when_idle-Steady :
      (b : Bool) (c : Controller) {c' : Controller}
      → (if b then self_refresh config timing c else some c) ≡ some c'
      → Steady c c'
  when_idle-Steady true c e = self_refresh-Steady c e
  when_idle-Steady false c e = subst (Steady c) (some-injective _ _ e) (Steady-refl c)

  pub tick-Steady :
      (c : Controller) {c' : Controller} → tick config timing c ≡ some c' → Steady c c'
  unfolding tick
  tick-Steady c e =
      let ((r, s), refreshed, e1) = >>=_inv (Refresh.clock_tick config c.refresh c.channel) _ e in
      let d = record c { refresh = r; channel = s } in
      let ((issued, c1), e2, e3) = >>=_inv (issue_next config timing d) _ e1 in
      let c2 = for_range config.ranks 0 (power_rank config) c1 in
      let (c3, e4, e5) =
        >>=_inv
          (if config.enable_self_refresh && not issued
            then self_refresh config timing c2
            else some c2)
          _ e3 in
      let (c4, e6, e7) = >>=_inv (schedule_transaction config (calculate_stats config c3)) _ e5 in
      subst (Steady c) (some-injective _ _ e7) (
        Steady-trans {d = d}
          (Steady-banks refl refl refl
            (clock_tick-bank_states config c.refresh c.channel refreshed))
          (Steady-trans (issue_next-Steady d e2) (
            Steady-trans
              (for_range_keep (Steady c1) (power_rank config)
                (λ i x. power_rank-Steady config c1 x i) config.ranks 0 c1 (Steady-refl c1))
              (Steady-trans (when_idle-Steady (config.enable_self_refresh && not issued) c2 e4) (
                Steady-trans (calculate_stats-Steady config c3) (
                  Steady-trans (schedule_transaction-Steady config (calculate_stats config c3) e6)
                    (Steady-banks refl refl refl refl)))))))
