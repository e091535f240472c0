-- ===== src/Controller/WakeUp.antt =====
-- src/controller.cc: what becomes of a rank in self-refresh that has commands waiting.
use latest_zsim_dramsim.Prelude.{
  ℕ, zero, suc, ◌+◌, ◌≤◌, ◌<◌, for_range, ◌≡◌, refl, true, false, Option, none, some, arith,
  for_range?, pos,
}
use latest_zsim_dramsim.Common.{Command, sref_exit}
use latest_zsim_dramsim.Bank.Exit.{no_exit}
use latest_zsim_dramsim.Config.{Config}
use latest_zsim_dramsim.Timing.{Timing}
use latest_zsim_dramsim.Channel.{ChannelState, Place, rank?}
use latest_zsim_dramsim.Channel.Ready.{
  bank_ready, scan_bank, scan_rank, rank_ready_command, get_ready_command,
}
use latest_zsim_dramsim.Channel.Ready.Rounds.{scan_start}
use latest_zsim_dramsim.Controller.{Controller}
use latest_zsim_dramsim.Controller.Tick.{
  sref_type, sref_command, sref_rank, self_refresh, issue_next, power_rank, tick,
}
use latest_zsim_dramsim.Refresh
use latest_zsim_dramsim.Refresh.{Refresh}
use native.Mathlib.Decide.{ℕ_discrete}

scan-none :
    (s : ChannelState) (p : Place) (cmd : Command) (clk : ℕ)
    → cmd.cmd_type ≡ sref_exit
    → scan_bank cmd clk p (scan_start s) ≡ none
unfolding scan_bank bank_ready
scan-none s p cmd clk e = rw (no_exit (s.bank_states p.i p.j p.k) cmd clk e) refl

-- A loop whose first round does not go on does not.
first-none {ℓ} :
    {S : Type ℓ} (body : ℕ → S → Option S) (n : ℕ) (s : S)
    → 0 < n
    → body 0 s ≡ none
    → for_range? n 0 body s ≡ none
unfolding for_range?
first-none body zero s lt e = absurd (omega arith)
first-none body (suc n) s lt e = rw e refl

module _ (config : Config) (timing : Timing) where
  in_range : (i : ℕ) → i < config.ranks → rank? config (pos i) ≡ some i
  in_range i li = ground arith

  rank-none :
      (s : ChannelState) (i clk : ℕ)
      → i < config.ranks
      → 0 < config.bankgroups
      → 0 < config.banks_per_group
      → get_ready_command config s (sref_command config sref_exit i) clk ≡ none
  unfolding get_ready_command rank_ready_command scan_rank
  rank-none s i clk li lj lk =
      let cmd = sref_command config sref_exit i in
      let first =
        first-none (λ k a. scan_bank cmd clk (record { i = i; j = 0; k = k }) a)
          config.banks_per_group (scan_start s) lk
          (scan-none s (record { i = i; j = 0; k = 0 }) cmd clk refl) in
      let all =
        first-none
          (λ j a.
            for_range? config.banks_per_group 0
              (λ k a'. scan_bank cmd clk (record { i = i; j = j; k = k }) a') a)
          config.bankgroups (scan_start s) lj first in
      rw (in_range i li, all, rank_ready_command) refl

  -- The loop of `ClockTick` asks for the exit of a rank in self-refresh that has had a command queued, and
  -- the question ends the process.
  wake_up-none :
      (c : Controller) (i : ℕ)
      → i < config.ranks
      → 0 < config.bankgroups
      → 0 < config.banks_per_group
      → c.channel.rank_is_sref i ≡ true
      → c.queue.rank_q_empty i ≡ false
      → sref_rank config timing i (false, c) ≡ none
  unfolding sref_rank
  wake_up-none c i li lj lk r q =
      let e = rank-none c.channel i c.clk li lj lk in rw (r, q, e, sref_rank) refl

  module _ (c : Controller) (i : ℕ) (ends : sref_rank config timing i (false, c) ≡ none)
      (before : (k : ℕ) → k < i → sref_type config c k ≡ none) where
    -- Ranks that have nothing to do are passed over.
    loop-none :
        (n k : ℕ) → k ≤ i → i < k + n → for_range? n k (sref_rank config timing) (false, c) ≡ none
    unfolding for_range? sref_rank
    loop-none zero k lo hi = absurd (omega arith)
    loop-none (suc n) k lo hi = elim (ℕ_discrete k i) [
      | yes here ↦ rw (here, ends) refl
      | no there ↦
          rw (before k (omega arith), sref_rank) (loop-none n (k + 1) (omega arith) (omega arith))
    ]

    self_refresh-none : i < config.ranks → self_refresh config timing c ≡ none
    unfolding self_refresh
    self_refresh-none h = rw (loop-none config.ranks 0 (omega arith) (omega arith)) refl

  -- With self-refresh enabled, in a configuration with banks, a cycle in which no command is issued ends
  -- the process where, once the idle cycles are counted, a rank `i` is in self-refresh and has had a
  -- command queued, and no rank before it is to enter or leave self-refresh.
  pub asleep_idle-none :
      (c : Controller) (i : ℕ) {r : Refresh} {s : ChannelState} {idle : Controller}
      → config.enable_self_refresh ≡ true
      → Refresh.clock_tick config c.refresh c.channel ≡ some (r, s)
      → issue_next config timing (record c { refresh = r; channel = s }) ≡ some (false, idle)
      → i < config.ranks
      → 0 < config.bankgroups
      → 0 < config.banks_per_group
      → let c' = for_range config.ranks 0 (power_rank config) idle in
        c'.channel.rank_is_sref i ≡ true
        → c'.queue.rank_q_empty i ≡ false
        → ((k : ℕ) → k < i → sref_type config c' k ≡ none)
        → tick config timing c ≡ none
  unfolding tick
  asleep_idle-none c i {idle = idle} on refreshed none_issued li lj lk asleep queued before =
      let c' = for_range config.ranks 0 (power_rank config) idle in
      let ends = wake_up-none c' i li lj lk asleep queued in
      rw (refreshed, none_issued, on, self_refresh-none c' i ends before li) refl
