-- ===== src/Channel/Keeps.antt =====
-- What the operations of a channel do to the times of its banks (src/channel_state.cc).
use latest_zsim_dramsim.Prelude.{
  ℕ, ◌≡◌, refl, subst, true, inl, inr, some, arith, >>=_inv, for_range?_keep,
}
use native.Mathlib.Nat.{le_refl}
use mathlib.Core.Option.{some-injective}
use latest_zsim_dramsim.Common.{CommandType, Command, is_valid, refresh}
use latest_zsim_dramsim.Bank
use latest_zsim_dramsim.Bank.{State, opened, BankState, transition, required_type}
use latest_zsim_dramsim.Bank.Times.{required-cmd_timing, transition-cmd_timing}
use latest_zsim_dramsim.Bank.Due.{ready_required}
use latest_zsim_dramsim.Config.{Config}
use latest_zsim_dramsim.Timing.{Timing}
use latest_zsim_dramsim.Channel.{Grid, ChannelState, Place, modify}
use latest_zsim_dramsim.Channel.Ready.{
  Scan, bank_ready, scan_bank, scan_answer, scan_result, window_checked, get_ready_command,
}
use latest_zsim_dramsim.Channel.Ready.Rounds.{
  scan_bank_cases, scan_rank_keep, scan_start, get_ready_branch, rank_ready_inv, bank_ready_inv,
}
use latest_zsim_dramsim.Channel.RefreshQueue.{rank_need_refresh, bank_need_refresh}
use latest_zsim_dramsim.Channel.Update.{
  update_bank, update_banks, update_state, settle_rank, settle_bank, update_timing_and_states,
}
use latest_zsim_dramsim.Channel.Update.Branches.{update_branch}
use latest_zsim_dramsim.Channel.Delays.Slower.{Slower, Slower-refl, Slower-trans, modify-Slower}
use latest_zsim_dramsim.Channel.Delays.Separation.{update_timing-Slower}

-- A bank put in place of one with the same times.
place-Slower :
    (g : Grid) (p : Place) (b : BankState)
    → b.cmd_timing ≡ (g p.i p.j p.k).cmd_timing
    → Slower g (modify g p.i p.j p.k (λ _. b))
place-Slower g p b e = modify-Slower g p.i p.j p.k (λ _. b) (λ t. rw e (le_refl _))

pub bank_ready-inv :
    (s : ChannelState) (p : Place) (cmd : Command) (clk : ℕ) {c : Command} {s' : ChannelState}
    → bank_ready s p cmd clk ≡ some (c, s')
    → (b : BankState) × (Bank.get_ready_command (s.bank_states p.i p.j p.k) cmd clk ≡ some (c, b))
      × (s' ≡ record s { bank_states = modify s.bank_states p.i p.j p.k (λ _. b) })
unfolding bank_ready
bank_ready-inv s p cmd clk e =
    let ((c, b), asked, e') =
      >>=_inv (Bank.get_ready_command (s.bank_states p.i p.j p.k) cmd clk) _ e in
    (b, ground arith, ground arith)

bank_ready-Slower :
    (s : ChannelState) (p : Place) (cmd : Command) (clk : ℕ) {c : Command} {s' : ChannelState}
    → bank_ready s p cmd clk ≡ some (c, s')
    → Slower s.bank_states s'.bank_states
bank_ready-Slower s p cmd clk e =
    let (b, asked, e') = bank_ready-inv s p cmd clk e in
    let (t, q, _) = ready_required (s.bank_states p.i p.j p.k) cmd clk asked in
    rw e' (place-Slower s.bank_states p b (required-cmd_timing _ _ _ cmd q))

scan_answer-state :
    (a : Scan) (p : Place) (cmd : Command) (r : Command × ChannelState)
    → (scan_answer a p cmd r).state ≡ r.1
scan_answer-state a p cmd (c, s) = ground arith

scan_bank-Slower :
    (g : Grid) (cmd : Command) (clk : ℕ) (p : Place) (a a' : Scan)
    → Slower g a.state.bank_states
    → scan_bank cmd clk p a ≡ some a'
    → Slower g a'.state.bank_states
scan_bank-Slower g cmd clk p a a' s e = elim (scan_bank_cases cmd clk p a e) [
  | inl (same, _) ↦ rw same s
  | inr ((c, t), asked, e') ↦
      rw (e', scan_answer-state a p cmd (c, t))
        (Slower-trans s (bank_ready-Slower a.state p cmd clk asked))
]

scan_result-state :
    (config : Config) (a : Scan) {c : Command} {s : ChannelState}
    → scan_result config a ≡ (c, s)
    → s ≡ a.state
scan_result-state config a e = ground arith

pub checked-state :
    (config : Config) (i clk : ℕ) (q : Command × ChannelState) {c : Command} {s' : ChannelState}
    → window_checked config i clk q ≡ (c, s')
    → (s' ≡ q.1) × (is_valid c ≡ true → c ≡ q.0)
checked-state config i clk q e = (ground arith, λ v. ground arith)

-- Asking for a ready command moves no time.
pub get_ready_command-Slower :
    (config : Config) (s : ChannelState) (cmd : Command) (clk : ℕ) {c : Command} {s' : ChannelState}
    → get_ready_command config s cmd clk ≡ some (c, s')
    → Slower s.bank_states s'.bank_states
get_ready_command-Slower config s cmd clk e = elim (get_ready_branch config s cmd clk e) [
  | inl (_, e') ↦
      let (i, a, _, scanned, result) = rank_ready_inv config s cmd clk e' in
      rw (scan_result-state config a result) (
        scan_rank_keep config cmd clk i (λ b. Slower s.bank_states b.state.bank_states)
          (λ j k b b'. scan_bank-Slower s.bank_states cmd clk _ b b') (scan_start s)
          (Slower-refl s.bank_states) scanned)
  | inr (_, e') ↦
      let (p, (c0, s0), _, asked, checked) = bank_ready_inv config s cmd clk e' in
      rw ((checked-state config p.i clk (c0, s0) checked).0) (bank_ready-Slower s p cmd clk asked)
]

update_bank-Slower :
    (g : Grid) (cmd : Command) (p : Place) (h h' : Grid)
    → Slower g h
    → update_bank cmd p h ≡ some h'
    → Slower g h'
unfolding update_bank Bank.update_state
update_bank-Slower g cmd p h h' s e =
    let (b, updated, e') = >>=_inv (Bank.update_state (h p.i p.j p.k) cmd) _ e in
    Slower-trans s (
      subst (Slower h) (some-injective _ _ e')
        (place-Slower h p b (transition-cmd_timing _ _ _ cmd updated)))

update_banks-Slower :
    (config : Config) (cmd : Command) (i : ℕ) (g : Grid) {h : Grid}
    → update_banks config cmd i g ≡ some h
    → Slower g h
unfolding update_banks
update_banks-Slower config cmd i g e =
    for_range?_keep (Slower g) _
      (λ j h h' s.
        for_range?_keep (Slower g) _ (λ k. update_bank-Slower g cmd _) config.banks_per_group 0 h s)
      config.bankgroups 0 g (Slower-refl g) e

settle_rank-bank_states :
    (config : Config) (t : CommandType) (i : ℕ) (cmd : Command) (s : ChannelState)
    → (settle_rank config t i cmd s).bank_states ≡ s.bank_states
unfolding rank_need_refresh
settle_rank-bank_states config refresh i cmd s = refl
settle_rank-bank_states config _ i cmd s = refl

settle_bank-bank_states :
    (config : Config) (cmd : Command) (s : ChannelState)
    → (settle_bank config cmd s).bank_states ≡ s.bank_states
unfolding bank_need_refresh
settle_bank-bank_states config cmd s = ground arith

pub update_state-Slower :
    (config : Config) (s : ChannelState) (cmd : Command) {s' : ChannelState}
    → update_state config s cmd ≡ some s'
    → Slower s.bank_states s'.bank_states
update_state-Slower config s cmd e = elim (update_branch config s cmd e) [
  | inl (i, g, _, updated, e') ↦
      rw (← e', settle_rank-bank_states config cmd.cmd_type i cmd (record s { bank_states = g }))
        (update_banks-Slower config cmd i s.bank_states updated)
  | inr (p, g, _, updated, e') ↦
      rw (← e', settle_bank-bank_states config cmd (record s { bank_states = g }))
        (update_bank-Slower s.bank_states cmd p s.bank_states g (Slower-refl _) updated)
]

pub update_timing_and_states-Slower :
    (config : Config) (timing : Timing) (s : ChannelState) (cmd : Command) (clk : ℕ)
    {s' : ChannelState}
    → update_timing_and_states config timing s cmd clk ≡ some s'
    → Slower s.bank_states s'.bank_states
unfolding update_timing_and_states
update_timing_and_states-Slower config timing s cmd clk e =
    let (t, updated, timed) = >>=_inv (update_state config s cmd) _ e in
    Slower-trans (update_state-Slower config s cmd updated)
      (update_timing-Slower config timing t cmd clk timed)
