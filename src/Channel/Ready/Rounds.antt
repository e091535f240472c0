-- ===== src/Channel/Ready/Rounds.antt =====
-- The loop over the banks of a rank in `GetReadyCommand` (src/channel_state.cc), one round at a time.
use mathlib.Core.Option.{some-injective}
use latest_zsim_dramsim.Prelude.{
  ℕ, Bool-cases, true, false, ◌≡◌, ◌≢◌, refl, sym, subst, ◌⊎◌, inl, inr, Option, none, some, ◌>>=◌,
  for_range?_keep, >>=_inv, arith,
}
use latest_zsim_dramsim.Common.{Address, Command, no_command, is_rank_cmd}
use latest_zsim_dramsim.Config.{Config}
use latest_zsim_dramsim.Channel.{ChannelState, Place, rank?, place?}
use latest_zsim_dramsim.Channel.Ready.{
  Scan, bank_ready, scan_answer, scan_bank, scan_rank, scan_result, window_checked,
  rank_ready_command, bank_ready_command, get_ready_command,
}

asked :
    (cmd : Command) (p : Place) (a : Scan) (m : Option (Command × ChannelState)) {a' : Scan}
    → (m >>= λ r. some (scan_answer a p cmd r)) ≡ some a'
    → (r : Command × ChannelState) × (m ≡ some r) × (a' ≡ scan_answer a p cmd r)
asked cmd p a none q = cc
asked cmd p a (some r) q = (r, refl, sym (some-injective _ _ q))

round_in :
    (cmd : Command) (clk : ℕ) (p : Place) (a : Scan) (o : Option Command) {a' : Scan}
    → a.returned ≡ o
    → scan_bank cmd clk p a ≡ some a'
    → ((a' ≡ a) × (a.returned ≢ none))
      ⊎ ((r : Command × ChannelState) × (bank_ready a.state p cmd clk ≡ some r)
          × (a' ≡ scan_answer a p cmd r))
unfolding scan_bank
round_in cmd clk p a (some c) w e = inl (ground arith, cc)
round_in cmd clk p a none {a'} w e = inr (
    asked cmd p a (bank_ready a.state p cmd clk) (
      subst
        (λ (o : Option Command).
          (let m : Option Scan = elim o [
            | some c ↦ some a
            | none ↦ bank_ready a.state p cmd clk >>= λ r. some (scan_answer a p cmd r)
          ] in
            m)
          ≡ some a')
        w e))

-- A round after a `return` does nothing; any other asks the bank and enters its answer.
pub scan_bank_cases :
    (cmd : Command) (clk : ℕ) (p : Place) (a : Scan) {a' : Scan}
    → scan_bank cmd clk p a ≡ some a'
    → ((a' ≡ a) × (a.returned ≢ none))
      ⊎ ((r : Command × ChannelState) × (bank_ready a.state p cmd clk ≡ some r)
          × (a' ≡ scan_answer a p cmd r))
scan_bank_cases cmd clk p a e = round_in cmd clk p a a.returned refl e

-- What every round keeps, the whole scan keeps.
pub scan_rank_keep {κ} :
    (config : Config) (cmd : Command) (clk i : ℕ) (P : Scan → Type κ)
    → ((j k : ℕ) (a a' : Scan)
        → P a
        → scan_bank cmd clk (record { i = i; j = j; k = k }) a ≡ some a'
        → P a')
    → (a : Scan) {a' : Scan} → P a
    → scan_rank config cmd clk i a ≡ some a'
    → P a'
unfolding scan_rank
scan_rank_keep config cmd clk i P keep a p e =
    for_range?_keep P _ (λ j b b' q. for_range?_keep P _ (keep j) config.banks_per_group 0 b q)
      config.bankgroups 0 a p e

-- The scan's first state.
abbrev pub scan_start : ChannelState → Scan
scan_start s = record { state = s; returned = none; num_ready = 0; ready_cmd = no_command }

-- The two branches of `GetReadyCommand` taken apart.
pub rank_ready_inv :
    (config : Config) (s : ChannelState) (cmd : Command) (clk : ℕ) {r : Command × ChannelState}
    → rank_ready_command config s cmd clk ≡ some r
    → (i : ℕ) × (a : Scan) × (rank? config cmd.rank ≡ some i)
      × (scan_rank config cmd clk i (scan_start s) ≡ some a)
      × (scan_result config a ≡ r)
unfolding rank_ready_command
rank_ready_inv config s cmd clk e =
    let (i, ranked, e1) = >>=_inv (rank? config cmd.rank) _ e in
    let (a, scanned, e2) = >>=_inv (scan_rank config cmd clk i (scan_start s)) _ e1 in
    (i, a, ranked, scanned, some-injective _ _ e2)

pub bank_ready_inv :
    (config : Config) (s : ChannelState) (cmd : Command) (clk : ℕ) {r : Command × ChannelState}
    → bank_ready_command config s cmd clk ≡ some r
    → (p : Place) × (q : Command × ChannelState) × (place? config cmd.addr ≡ some p)
      × (bank_ready s p cmd clk ≡ some q)
      × (window_checked config p.i clk q ≡ r)
unfolding bank_ready_command
bank_ready_inv config s cmd clk e =
    let (p, placed, e1) = >>=_inv (place? config cmd.addr) _ e in
    let (q, asked, e2) = >>=_inv (bank_ready s p cmd clk) _ e1 in
    (p, q, placed, asked, some-injective _ _ e2)

pub get_ready_branch :
    (config : Config) (s : ChannelState) (cmd : Command) (clk : ℕ) {r : Command × ChannelState}
    → get_ready_command config s cmd clk ≡ some r
    → ((is_rank_cmd cmd ≡ true) × (rank_ready_command config s cmd clk ≡ some r))
      ⊎ ((is_rank_cmd cmd ≡ false) × (bank_ready_command config s cmd clk ≡ some r))
unfolding get_ready_command
get_ready_branch config s cmd clk e = elim (Bool-cases (is_rank_cmd cmd)) [
  | inl y ↦ inl (y, rw y at e)
  | inr n ↦ inr (n, rw n at e)
]

-- A bank that is there stands in a rank that is there.
pub place?-rank? :
    (config : Config) (a : Address) {p : Place}
    → place? config a ≡ some p
    → rank? config a.rank ≡ some p.i
place?-rank? config a e = ground arith
