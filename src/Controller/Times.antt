-- ===== src/Controller/Times.antt =====
-- The times of the banks over what a controller does with its channel (src/controller.cc,
-- src/command_queue.cc, src/refresh.cc): none of it takes a time back.
use native.Mathlib.Nat.{le_refl}
use mathlib.Core.Option.{some-injective}
use latest_zsim_dramsim.Prelude.{
  ℕ, zero, suc, ◌+◌, ◌≡◌, refl, ap, sym, subst, ◌==◌, Bool-cases, inl, inr, List, [], ◌∷◌, ◌++◌,
  some, arith, if◌then◌else◌, >>=_inv, for_range_keep,
}
use latest_zsim_dramsim.Common.{Command, CommandType, is_valid}
use latest_zsim_dramsim.Bank.{BankState}
use latest_zsim_dramsim.Config.{
  Config, RefreshPolicy, rank_level_simultaneous, rank_level_staggered, bank_level_staggered,
}
use latest_zsim_dramsim.Channel.{Grid, ChannelState, place?}
use latest_zsim_dramsim.Channel.Ready.{get_ready_command}
use latest_zsim_dramsim.Channel.RefreshQueue.{
  rank_need_refresh, bank_need_refresh, pending_ref_command,
}
use latest_zsim_dramsim.Channel.Keeps.{get_ready_command-Slower}
use latest_zsim_dramsim.Channel.Delays.Slower.{Slower, Slower-refl, Slower-trans, modify-Slower}
use latest_zsim_dramsim.Refresh
use latest_zsim_dramsim.Refresh.{Refresh, refresh_first_awake, insert_refresh, is_due}
use latest_zsim_dramsim.Queue.{CommandQueue, num_queues, get_next_queue}
use latest_zsim_dramsim.Queue.Arbiter.{
  Outside, may_issue, first_ready_from, get_first_ready_in_queue,
}
use latest_zsim_dramsim.Queue.Issue.{
  Found, is_refreshing, take_out, issue_loop, get_command_to_issue, begin_refresh, finish_refresh,
}
use latest_zsim_dramsim.Queue.Room.{searched}
use latest_zsim_dramsim.Controller.Issue.{serve, is_served, mark_service}
use latest_zsim_dramsim.Controller.Tick.{expire_service, expire_rank}

-- The times of one state's banks are no later than those of the other.
abbrev pub TimesKept : ChannelState → ChannelState → Type 0
TimesKept s s' = Slower s.bank_states s'.bank_states

module _ (config : Config) where
  module _ (clk : ℕ) where
    first_ready_from-TimesKept :
        (before queue : List Command) (o : Outside) {r : Command × Outside}
        → first_ready_from config clk before queue o ≡ some r
        → TimesKept o.channel r.1.channel
    unfolding first_ready_from
    first_ready_from-TimesKept before [] o e =
        subst (λ (x : Command × Outside). TimesKept o.channel x.1.channel) (some-injective _ _ e)
          (Slower-refl o.channel.bank_states)
    first_ready_from-TimesKept before (it ∷ after) o {r} e =
        let (p, placed, e1) = >>=_inv (place? config it.addr) _ e in
        let ((c, channel), ready, e2) = >>=_inv (get_ready_command config o.channel it clk) _ e1 in
        let verdict = may_issue (channel.bank_states p.i p.j p.k) c before it after o.stats in
        let here = get_ready_command-Slower config o.channel it clk ready in
        elim (Bool-cases verdict.0) [
          | inl y ↦
              subst (λ (x : Command × Outside). TimesKept o.channel x.1.channel)
                (some-injective _ r (rw y at e2)) here
          | inr n ↦ Slower-trans here (
              first_ready_from-TimesKept (before ++ it ∷ []) after
                (record { channel = channel; stats = verdict.1 }) (rw n at e2))
        ]

  searched-TimesKept :
      (n : ℕ) (q : CommandQueue) (o : Outside) {found : Found}
      → ((o' : Outside)
          → issue_loop config n q o' ≡ some found
          → TimesKept o'.channel found.outside.channel)
      → searched config n q o ≡ some found
      → TimesKept o.channel found.outside.channel
  unfolding get_first_ready_in_queue
  searched-TimesKept n q o again e =
      let ((cmd, o'), e1, e2) =
        >>=_inv (get_first_ready_in_queue config q.clk (q.queues q.queue_idx) o) _ e in
      let here = first_ready_from-TimesKept q.clk [] (q.queues q.queue_idx) o e1 in
      elim (Bool-cases (is_valid cmd)) [
        | inl y ↦
            let (q', e3, e4) = >>=_inv (take_out config q cmd) _ (rw y at e2) in
            subst (λ (x : Found). TimesKept o.channel x.outside.channel) (some-injective _ _ e4)
              here
        | inr n' ↦ Slower-trans here (again o' (rw n' at e2))
      ]

  issue_loop-TimesKept :
      (n : ℕ) (q : CommandQueue) (o : Outside) {found : Found}
      → issue_loop config n q o ≡ some found
      → TimesKept o.channel found.outside.channel
  unfolding issue_loop
  issue_loop-TimesKept zero q o e =
      subst (λ (x : Found). TimesKept o.channel x.outside.channel) (some-injective _ _ e)
        (Slower-refl o.channel.bank_states)
  issue_loop-TimesKept (suc n) q o e =
      let q' = get_next_queue config q in
      elim (Bool-cases (is_refreshing q')) [
        | inl y ↦ issue_loop-TimesKept n q' o (rw (y, issue_loop) at e)
        | inr n' ↦
            searched-TimesKept n q' o (λ o'. issue_loop-TimesKept n q' o')
              (rw (n', issue_loop) at e)
      ]

  pub get_command_to_issue-TimesKept :
      (q : CommandQueue) (o : Outside) {found : Found}
      → get_command_to_issue config q o ≡ some found
      → TimesKept o.channel found.outside.channel
  unfolding get_command_to_issue
  get_command_to_issue-TimesKept q o e = issue_loop-TimesKept (num_queues config) q o e

  pub finish_refresh-TimesKept :
      (q : CommandQueue) (o : Outside) {found : Found}
      → finish_refresh config q o ≡ some found
      → TimesKept o.channel found.outside.channel
  unfolding finish_refresh
  finish_refresh-TimesKept q o e =
      let (ref, _, e1) = >>=_inv (pending_ref_command o.channel) _ e in
      let (q', _, e2) = >>=_inv (begin_refresh config q ref) _ e1 in
      let ((cmd, channel), asked, e3) =
        >>=_inv (get_ready_command config o.channel ref q.clk) _ e2 in
      subst (λ (x : Found). TimesKept o.channel x.outside.channel) (some-injective _ _ e3)
        (get_ready_command-Slower config o.channel ref q.clk asked)

  first_awake-bank_states :
      (n i : ℕ) (s : ChannelState) → (refresh_first_awake config n i s).bank_states ≡ s.bank_states
  unfolding refresh_first_awake rank_need_refresh
  first_awake-bank_states zero i s = refl
  first_awake-bank_states (suc n) i s = elim (Bool-cases (s.rank_is_sref i)) [
    | inl y ↦ rw y (first_awake-bank_states n (i + 1) s)
    | inr m ↦ rw m refl
  ]

  insert_refresh-bank_states :
      (t : RefreshPolicy) (r : Refresh) (s : ChannelState) {out : Refresh × ChannelState}
      → insert_refresh config t r s ≡ some out
      → out.1.bank_states ≡ s.bank_states
  unfolding insert_refresh rank_need_refresh bank_need_refresh
  insert_refresh-bank_states rank_level_simultaneous r s e =
      subst (λ (x : Refresh × ChannelState). x.1.bank_states ≡ s.bank_states) (some-injective _ _ e)
        (first_awake-bank_states config.ranks 0 s)
  insert_refresh-bank_states rank_level_staggered r s e = ground arith
  insert_refresh-bank_states bank_level_staggered r s e = ground arith
  insert_refresh-bank_states _ r s e = cc

  pub clock_tick-bank_states :
      (r : Refresh) (s : ChannelState) {out : Refresh × ChannelState}
      → Refresh.clock_tick config r s ≡ some out
      → out.1.bank_states ≡ s.bank_states
  unfolding Refresh.clock_tick
  clock_tick-bank_states r s {out} e = elim (Bool-cases (r.refresh_interval == 0)) [
    | inl y ↦ absurd (ground arith)
    | inr n ↦
        let (mid, e1, e2) =
          >>=_inv
            (if is_due config r
              then insert_refresh config config.refresh_policy r s
              else some (r, s))
            _ (rw n at e) in
        let same : mid.1.bank_states ≡ s.bank_states = elim (Bool-cases (is_due config r)) [
          | inl y ↦ insert_refresh-bank_states config.refresh_policy r s (rw y at e1)
          | inr m ↦ sym (
              ap (λ (x : Refresh × ChannelState). x.1.bank_states)
                (some-injective (r, s) mid (rw m at e1)))
        ] in
        subst (λ (x : Refresh × ChannelState). x.1.bank_states ≡ s.bank_states)
          (some-injective _ out e2) same
  ]

  serve-cmd_timing :
      (t : CommandType) (clk : ℕ) (b : BankState) → (serve config t clk b).cmd_timing ≡ b.cmd_timing
  serve-cmd_timing t clk b = ground arith

  pub mark_service-TimesKept :
      (s : ChannelState) (cmd : Command) (clk : ℕ) {s' : ChannelState}
      → mark_service config s cmd clk ≡ some s'
      → TimesKept s s'
  unfolding mark_service
  mark_service-TimesKept s cmd clk {s'} e = elim (Bool-cases (is_served config cmd.cmd_type)) [
    | inl y ↦
        let (p, _, e1) = >>=_inv (place? config cmd.addr) _ (rw y at e) in
        subst (TimesKept s) (some-injective _ s' e1) (
          modify-Slower s.bank_states p.i p.j p.k (serve config cmd.cmd_type clk)
            (λ t. rw (serve-cmd_timing cmd.cmd_type clk (s.bank_states p.i p.j p.k)) (le_refl _)))
    | inr n ↦ subst (TimesKept s) (some-injective s s' (rw n at e)) (Slower-refl s.bank_states)
  ]

  expire-cmd_timing : (clk : ℕ) (b : BankState) → (expire_service clk b).cmd_timing ≡ b.cmd_timing
  expire-cmd_timing clk b = ground arith

  pub expire_rank-Slower : (clk i : ℕ) (g : Grid) → Slower g (expire_rank config clk i g)
  unfolding expire_rank
  expire_rank-Slower clk i g =
      for_range_keep (Slower g) _
        (λ j g' s.
          for_range_keep (Slower g) _
            (λ k g'' s'. Slower-trans s' (
              modify-Slower g'' i j k (expire_service clk)
                (λ t. rw (expire-cmd_timing clk (g'' i j k)) (le_refl _))))
            config.banks_per_group 0 g' s)
        config.bankgroups 0 g (Slower-refl g)
