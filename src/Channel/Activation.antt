-- ===== src/Channel/Activation.antt =====
-- What the channel's commands do to the activation windows (src/channel_state.cc).
use latest_zsim_dramsim.Prelude.{
  ℕ, ◌≡◌, ◌⊎◌, inl, inr, ◌∙◌, refl, subst, true, false, List, Option, some, none, arith, >>=_inv,
  Bool, Bool-cases,
}
use latest_zsim_dramsim.Common.{CommandType, activate, refresh, Command, is_valid, is_rank_cmd}
use latest_zsim_dramsim.Config.{Config}
use latest_zsim_dramsim.Timing.{Timing}
use latest_zsim_dramsim.Channel.{ChannelState, put, Place, rank?}
use latest_zsim_dramsim.Channel.Windows.{push_window, activation_window_ok, update_activation_times}
use latest_zsim_dramsim.Channel.Ready.{
  Scan, scan_result, window_checked, bank_ready, scan_bank, scan_answer, rank_ready_command,
  bank_ready_command, get_ready_command,
}
use latest_zsim_dramsim.Channel.Ready.Rounds.{
  scan_bank_cases, scan_rank_keep, scan_start, place?-rank?, get_ready_branch, rank_ready_inv,
  bank_ready_inv,
}
use latest_zsim_dramsim.Channel.RefreshQueue.{rank_need_refresh, bank_need_refresh}
use latest_zsim_dramsim.Channel.Delays.{update_bank_timing, update_rank_timing, update_timing}
use latest_zsim_dramsim.Channel.Delays.Dispatch.{
  activates, entered, bank, rank, update_timing-Timed,
}
use latest_zsim_dramsim.Channel.Update.Branches.{update_branch}
use latest_zsim_dramsim.Channel.Update.{
  update_state, settle_rank, settle_bank, update_timing_and_states,
}

bank_ready-four_aw :
    (s : ChannelState) (p : Place) (cmd : Command) (clk : ℕ) {c : Command} {s' : ChannelState}
    → bank_ready s p cmd clk ≡ some (c, s')
    → s'.four_aw ≡ s.four_aw
unfolding bank_ready
bank_ready-four_aw s p cmd clk e = ground arith

abbrev activates? : Option Command → Bool
activates? none = false
activates? (some c) = activates c.cmd_type

bank_ready-rank_type :
    (s : ChannelState) (p : Place) (cmd : Command) (clk : ℕ) {c : Command} {s' : ChannelState}
    → is_rank_cmd cmd ≡ true
    → bank_ready s p cmd clk ≡ some (c, s')
    → activates c.cmd_type ≡ false
unfolding bank_ready
bank_ready-rank_type s p cmd clk r e = ground arith

-- A scan has met no ACTIVATE, and has left the windows alone.
record Quiet (fw : ℕ → List ℕ) (a : Scan) : Type 0 where
  same : a.state.four_aw ≡ fw
  idle : activates a.ready_cmd.cmd_type ≡ false
  returned : activates? a.returned ≡ false

answer-Quiet :
    (fw : ℕ → List ℕ) (cmd : Command) (p : Place) (a : Scan) (r : Command × ChannelState)
    → Quiet fw a
    → r.1.four_aw ≡ fw
    → activates r.0.cmd_type ≡ false
    → Quiet fw (scan_answer a p cmd r)
answer-Quiet fw cmd p a (c, s) q e n = ground arith

scan_bank-Quiet :
    (fw : ℕ → List ℕ) (cmd : Command) (clk : ℕ) (p : Place) (a a' : Scan)
    → is_rank_cmd cmd ≡ true
    → Quiet fw a
    → scan_bank cmd clk p a ≡ some a'
    → Quiet fw a'
scan_bank-Quiet fw cmd clk p a a' r q e = elim (scan_bank_cases cmd clk p a e) [
  | inl (same, _) ↦ rw same q
  | inr ((c, s), asked, e') ↦ rw e' (
      answer-Quiet fw cmd p a (c, s) q (bank_ready-four_aw a.state p cmd clk asked ∙ q.same)
        (bank_ready-rank_type a.state p cmd clk r asked))
]

result-Quiet :
    (config : Config) (fw : ℕ → List ℕ) (a : Scan) {c : Command} {s' : ChannelState}
    → Quiet fw a
    → scan_result config a ≡ (c, s')
    → (s'.four_aw ≡ fw) × (activates c.cmd_type ≡ false)
result-Quiet config fw a q e = ground arith

-- The rank branch hands out no ACTIVATE.
rank_ready-quiet :
    (config : Config) (s : ChannelState) (cmd : Command) (clk : ℕ) {c : Command} {s' : ChannelState}
    → is_rank_cmd cmd ≡ true
    → rank_ready_command config s cmd clk ≡ some (c, s')
    → (s'.four_aw ≡ s.four_aw) × (activates c.cmd_type ≡ false)
rank_ready-quiet config s cmd clk r e =
    let (i, a, _, scanned, e') = rank_ready_inv config s cmd clk e in
    result-Quiet config s.four_aw a
      (scan_rank_keep config cmd clk i (Quiet s.four_aw)
        (λ j k b b' h h'. scan_bank-Quiet s.four_aw cmd clk _ b b' r h h') (scan_start s)
        (record { same = refl; idle = refl; returned = refl }) scanned)
      e'

-- What the bank branch hands out: an ACTIVATE only where the window is ready.
checked-window :
    (config : Config) (i clk : ℕ) (q : Command × ChannelState) {c : Command} {s' : ChannelState}
    → window_checked config i clk q ≡ (c, s')
    → (s' ≡ q.1)
      × ((activates c.cmd_type ≡ false)
          ⊎ ((c ≡ q.0) × (activation_window_ok config s' i clk ≡ true)))
checked-window config i clk q e = ground arith

bank_ready-rank :
    (s : ChannelState) (p : Place) (cmd : Command) (clk : ℕ) {c : Command} {s' : ChannelState}
    → bank_ready s p cmd clk ≡ some (c, s')
    → is_valid c ≡ true
    → c.addr ≡ cmd.addr
unfolding bank_ready
bank_ready-rank s p cmd clk e v = ground arith

bank_branch-window :
    (config : Config) (s : ChannelState) (cmd : Command) (clk : ℕ) {c : Command} {s' : ChannelState}
    → bank_ready_command config s cmd clk ≡ some (c, s')
    → (s'.four_aw ≡ s.four_aw)
      × ((activates c.cmd_type ≡ false)
          ⊎ ((i : ℕ) × (rank? config c.rank ≡ some i)
              × (activation_window_ok config s' i clk ≡ true)))
bank_branch-window config s cmd clk {c} {s'} e =
    let (p, (c0, s0), placed, asked, checked) = bank_ready_inv config s cmd clk e in
    let (same, out) = checked-window config p.i clk (c0, s0) checked in
    (
      rw same (bank_ready-four_aw s p cmd clk asked),
      elim out [
        | inl n ↦ inl n
        | inr (q, ok) ↦ elim (Bool-cases (is_valid c)) [
          | inl v ↦ inr (
            p.i,
            rw (q, bank_ready-rank s p cmd clk asked (rw q at v))
                (place?-rank? config cmd.addr placed),
            ok,
          )
          | inr v ↦ inl (ground arith)
        ]
      ],
    )

-- `GetReadyCommand` leaves the windows alone, and hands out an ACTIVATE only where the window of its
-- rank is ready.
pub get_ready_command-window :
    (config : Config) (s : ChannelState) (cmd : Command) (clk : ℕ) {c : Command} {s' : ChannelState}
    → get_ready_command config s cmd clk ≡ some (c, s')
    → (s'.four_aw ≡ s.four_aw)
      × ((activates c.cmd_type ≡ false)
          ⊎ ((i : ℕ) × (rank? config c.rank ≡ some i)
              × (activation_window_ok config s' i clk ≡ true)))
get_ready_command-window config s cmd clk e = elim (get_ready_branch config s cmd clk e) [
  | inl (r, e') ↦ let (same, n) = rank_ready-quiet config s cmd clk r e' in (same, inl n)
  | inr (_, e') ↦ bank_branch-window config s cmd clk e'
]

settle_rank-four_aw :
    (config : Config) (t : CommandType) (i : ℕ) (cmd : Command) (s : ChannelState)
    → (settle_rank config t i cmd s).four_aw ≡ s.four_aw
unfolding rank_need_refresh
settle_rank-four_aw config refresh i cmd s = refl
settle_rank-four_aw config _ i cmd s = refl

settle_bank-four_aw :
    (config : Config) (cmd : Command) (s : ChannelState)
    → (settle_bank config cmd s).four_aw ≡ s.four_aw
unfolding bank_need_refresh
settle_bank-four_aw config cmd s = ground arith

update_state-four_aw :
    (config : Config) (s : ChannelState) (cmd : Command) {s' : ChannelState}
    → update_state config s cmd ≡ some s'
    → s'.four_aw ≡ s.four_aw
update_state-four_aw config s cmd e = elim (update_branch config s cmd e) [
  | inl (i, g, _, _, e') ↦ rw (← e') (settle_rank-four_aw config cmd.cmd_type i cmd _)
  | inr (p, g, _, _, e') ↦ rw (← e') (settle_bank-four_aw config cmd _)
]

entered-four_aw :
    (config : Config) (t : CommandType) (s : ChannelState) (i clk : ℕ)
    → ((activates t ≡ false) × ((entered config t i clk s).four_aw ≡ s.four_aw))
      ⊎ ((activates t ≡ true)
          × ((entered config t i clk s).four_aw
              ≡ put s.four_aw i (push_window (s.four_aw i) config.t_faw clk)))
unfolding update_activation_times
entered-four_aw config activate s i clk = inr (refl, ground arith)
entered-four_aw config _ s i clk = inl (refl, refl)

-- Only an ACTIVATE enters the window, and only its rank's.
update_timing-four_aw :
    (config : Config) (timing : Timing) (s : ChannelState) (cmd : Command) (clk : ℕ)
    {s' : ChannelState}
    → update_timing config timing s cmd clk ≡ some s'
    → ((activates cmd.cmd_type ≡ false) × (s'.four_aw ≡ s.four_aw))
      ⊎ ((i : ℕ) × (activates cmd.cmd_type ≡ true)
          × (rank? config cmd.rank ≡ some i)
          × (s'.four_aw ≡ put s.four_aw i (push_window (s.four_aw i) config.t_faw clk)))
unfolding update_bank_timing update_rank_timing
update_timing-four_aw config timing s cmd clk e =
    elim (update_timing-Timed config timing s cmd clk e) [
      | bank p r placed e' ↦ rw e' (elim (entered-four_aw config cmd.cmd_type s p.i clk) [
        | inl n ↦ inl n
        | inr (y, q) ↦ inr (p.i, y, place?-rank? config cmd.addr placed, q)
      ])
      | rank i r ranked e' ↦ rw e' (inl (ground arith, refl))
    ]

pub update-four_aw :
    (config : Config) (timing : Timing) (s : ChannelState) (cmd : Command) (clk : ℕ)
    {s' : ChannelState}
    → update_timing_and_states config timing s cmd clk ≡ some s'
    → ((activates cmd.cmd_type ≡ false) × (s'.four_aw ≡ s.four_aw))
      ⊎ ((i : ℕ) × (activates cmd.cmd_type ≡ true)
          × (rank? config cmd.rank ≡ some i)
          × (s'.four_aw ≡ put s.four_aw i (push_window (s.four_aw i) config.t_faw clk)))
unfolding update_timing_and_states
update-four_aw config timing s cmd clk {s'} e =
    let (t, updated, timed) = >>=_inv (update_state config s cmd) _ e in
    subst
      (λ fw.
        ((activates cmd.cmd_type ≡ false) × (s'.four_aw ≡ fw))
        ⊎ ((i : ℕ) × (activates cmd.cmd_type ≡ true)
            × (rank? config cmd.rank ≡ some i)
            × (s'.four_aw ≡ put fw i (push_window (fw i) config.t_faw clk))))
      (update_state-four_aw config s cmd updated)
      (update_timing-four_aw config timing t cmd clk timed)
