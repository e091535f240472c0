-- ===== src/System/Accounts.antt =====
-- The transactions that `JedecDRAMSystem` takes and calls back (src/dram_system.cc).
use mathlib.Core.Option.{some-injective}
use native.Mathlib.Decide.{ℕ_discrete}
use latest_zsim_dramsim.Prelude.{
  ℕ, zero, suc, ◌+◌, ◌≤◌, ◌<◌, ◌≡◌, refl, sym, ◌∙◌, ap, subst, Bool, Bool-cases, inl, inr, List, [],
  some, >>=_inv, arith, ltb, length, length-append, for_range, for_range?, for_range?_keep,
  for_range_within,
}
use latest_zsim_dramsim.Common.{new_transaction}
use latest_zsim_dramsim.Config.{Config, is_hmc}
use latest_zsim_dramsim.Timing.{Timing}
use latest_zsim_dramsim.Channel.{put, put_self, put_ne}
use latest_zsim_dramsim.Controller.{
  Controller, new_controller, will_accept_transaction, add_transaction,
}
use latest_zsim_dramsim.Queue.{CommandQueue, new_command_queue}
use latest_zsim_dramsim.Controller.Tick.{tick}
use latest_zsim_dramsim.Controller.Steady.{outstanding}
use latest_zsim_dramsim.Controller.Cycle.{tick-Steady}
use latest_zsim_dramsim.Controller.Accounts.{add_transaction-outstanding}
use latest_zsim_dramsim.System.Jedec.{
  Call, JedecSystem, new_jedec, channel?, return_channel, return_all, count_active, tick_channel,
  jedec_add, jedec_tick,
}
use latest_zsim_dramsim.System.Returned.{return_all-outstanding}

-- What waits in the first controllers.
abbrev pub in_flight : ℕ → (ℕ → Controller) → ℕ
in_flight zero ctrls = 0
in_flight (suc n) ctrls = outstanding (ctrls n) + in_flight n ctrls

in_flight-outside :
    (n i : ℕ) (c : Controller) (ctrls : ℕ → Controller)
    → n ≤ i
    → in_flight n (put ctrls i c) ≡ in_flight n ctrls
in_flight-outside zero i c ctrls h = refl
in_flight-outside (suc n) i c ctrls h =
    let other = ap outstanding (put_ne ctrls i n c (omega arith)) in
    omega (arith, other, in_flight-outside n i c ctrls (omega arith))

-- A controller that changes takes what waits in it along.
in_flight-put :
    (n i : ℕ) (c : Controller) (ctrls : ℕ → Controller)
    → i < n
    → in_flight n (put ctrls i c) + outstanding (ctrls i) ≡ in_flight n ctrls + outstanding c
in_flight-put zero i c ctrls h = absurd (omega arith)
in_flight-put (suc n) i c ctrls h = elim (ℕ_discrete n i) [
  | yes here ↦
      let changed = ap outstanding (ap (put ctrls i c) here ∙ put_self ctrls i c) in
      let was = ap (λ k. outstanding (ctrls k)) here in
      omega (arith, changed, was, in_flight-outside n i c ctrls (omega arith))
  | no there ↦
      let other = ap outstanding (put_ne ctrls i n c there) in
      omega (arith, other, in_flight-put n i c ctrls (omega arith))
]

module _ (config : Config) where
  -- What is back and what waits.
  abbrev sum : List Call × JedecSystem → ℕ
  sum (calls, s) = length calls + in_flight config.channels s.ctrls

  return_channel-sum :
      (i : ℕ) (r : List Call × JedecSystem)
      → i < config.channels
      → sum (return_channel config i r) ≡ sum r
  return_channel-sum i (calls, s) h =
      let c = s.ctrls i in
      let rounds = suc (length c.return_queue) in
      let r = return_all rounds c s.clk in
      omega (
        arith,
        length-append calls r.0,
        return_all-outstanding rounds c s.clk,
        in_flight-put config.channels i r.1 s.ctrls h,
      )

  count_active-ctrls :
      (c : Controller) (s : JedecSystem) → (count_active config c s).ctrls ≡ s.ctrls
  count_active-ctrls c s = elim (Bool-cases c.is_active_cycles) [
    | inl y ↦ rw y refl
    | inr n ↦ rw n refl
  ]

  -- A controller that keeps what waits in it.
  put-in_flight :
      (i : ℕ) (c : Controller) (ctrls : ℕ → Controller)
      → outstanding c ≡ outstanding (ctrls i)
      → in_flight config.channels (put ctrls i c) ≡ in_flight config.channels ctrls
  put-in_flight i c ctrls e = elim (Bool-cases (ltb i config.channels)) [
    | inl y ↦ omega (arith, e, in_flight-put config.channels i c ctrls (ground arith))
    | inr n ↦ in_flight-outside config.channels i c ctrls (ground arith)
  ]

  tick_channel-in_flight :
      (timing : Timing) (i : ℕ) (s : JedecSystem) {s' : JedecSystem}
      → tick_channel config timing i s ≡ some s'
      → in_flight config.channels s'.ctrls ≡ in_flight config.channels s.ctrls
  unfolding tick_channel
  tick_channel-in_flight timing i s {s'} e =
      let (c, e1, e2) = >>=_inv (tick config timing (s.ctrls i)) _ e in
      let t = record s { ctrls = put s.ctrls i c } in
      ap (λ (x : JedecSystem). in_flight config.channels x.ctrls) (sym (some-injective _ s' e2))
      ∙ ap (in_flight config.channels) (count_active-ctrls c t)
      ∙ put-in_flight i c s.ctrls (tick-Steady config timing (s.ctrls i) e1).same

  jedec_tick-in_flight :
      (timing : Timing) (s : JedecSystem) {calls : List Call} {s' : JedecSystem}
      → jedec_tick config timing s ≡ some (calls, s')
      → length calls + in_flight config.channels s'.ctrls ≡ in_flight config.channels s.ctrls
  unfolding jedec_tick
  jedec_tick-in_flight timing s {calls} {s'} e =
      let n = config.channels in
      let r = for_range n 0 (return_channel config) ([], s) in
      let returned : sum r ≡ in_flight n s.ctrls =
        for_range_within (λ x. sum x ≡ in_flight n s.ctrls) (return_channel config) n
          (λ k x h p. return_channel-sum k x h ∙ p) n 0 ([], s) (omega arith) (omega arith) in
      let (t, e1, e2) = >>=_inv (for_range? n 0 (tick_channel config timing) r.1) _ e in
      let ticked : in_flight n t.ctrls ≡ in_flight n r.1.ctrls =
        for_range?_keep (λ x. in_flight n x.ctrls ≡ in_flight n r.1.ctrls)
          (tick_channel config timing) (λ k x y p q. tick_channel-in_flight timing k x q ∙ p) n 0
          r.1 refl e1 in
      subst
        (λ (x : List Call × JedecSystem). length x.0 + in_flight n x.1.ctrls ≡ in_flight n s.ctrls)
        (some-injective _ (calls, s') e2) (omega (arith, returned, ticked))

  jedec_add-in_flight :
      (s : JedecSystem) (a : ℕ) (w : Bool) {s' : JedecSystem}
      → jedec_add config s a w ≡ some s'
      → in_flight config.channels s'.ctrls ≡ suc (in_flight config.channels s.ctrls)
  unfolding jedec_add
  jedec_add-in_flight s a w {s'} e =
      let (i, found, e1) = >>=_inv (channel? config a) _ e in
      let c = add_transaction config (s.ctrls i) (new_transaction a w) in
      elim (Bool-cases (will_accept_transaction config (s.ctrls i) w)) [
        | inl y ↦
            let same =
              ap (λ (x : JedecSystem). in_flight config.channels x.ctrls)
                (some-injective _ s' (rw y at e1)) in
            omega (
              arith,
              same,
              add_transaction-outstanding config (s.ctrls i) (new_transaction a w),
              in_flight-put config.channels i c s.ctrls (ground arith),
            )
        | inr n ↦ absurd (ground arith)
      ]

  new_controllers : (q : CommandQueue) (n : ℕ) → in_flight n (λ i. new_controller config q) ≡ 0
  new_controllers q zero = refl
  new_controllers q (suc n) = omega (arith, new_controllers q n)

  new_jedec-in_flight :
      (n : ℕ) {s : JedecSystem} → new_jedec config ≡ some s → in_flight n s.ctrls ≡ 0
  unfolding new_jedec
  new_jedec-in_flight n {s} e = elim (Bool-cases (is_hmc config)) [
    | inl y ↦ absurd (ground arith)
    | inr m ↦
        let (q, _, e2) = >>=_inv (new_command_queue config.queue_structure) _ (rw m at e) in
        subst (λ (x : JedecSystem). in_flight n x.ctrls ≡ 0) (some-injective _ s e2)
          (new_controllers q n)
  ]

module _ (config : Config) (timing : Timing) where
  -- Every order of the operations of the system, with how many transactions it has taken and how many
  -- callbacks it has made.
  pub data JedecRun : ℕ → ℕ → JedecSystem → Type 0 where
    built : {s : JedecSystem} → new_jedec config ≡ some s → JedecRun 0 0 s
    accepted :
        {taken returned : ℕ} {s s' : JedecSystem} (a : ℕ) (w : Bool)
        → JedecRun taken returned s
        → jedec_add config s a w ≡ some s'
        → JedecRun (suc taken) returned s'
    cycled :
        {taken returned : ℕ} {s s' : JedecSystem} {calls : List Call}
        → JedecRun taken returned s
        → jedec_tick config timing s ≡ some (calls, s')
        → JedecRun taken (length calls + returned) s'

  -- In every run of the memory system, over all its channels, the transactions taken are as many as the
  -- callbacks made together with the reads that wait and the transactions in the return queues of the
  -- controllers.
  pub system_loses_none :
      {taken returned : ℕ} {s : JedecSystem}
      → JedecRun taken returned s
      → taken ≡ returned + in_flight config.channels s.ctrls
  system_loses_none (built e) = omega (arith, new_jedec-in_flight config config.channels e)
  system_loses_none (accepted {s = s} a w run e) =
      omega (arith, jedec_add-in_flight config s a w e, system_loses_none run)
  system_loses_none (cycled {s = s} run e) =
      omega (arith, jedec_tick-in_flight config timing s e, system_loses_none run)
