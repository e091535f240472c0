-- ===== src/Bank/Progress.antt =====
-- How many commands stand between a bank and the read or write that it is asked for
-- (src/bankstate.cc).
use latest_zsim_dramsim.Prelude.{
  ℕ, suc, ◌≤◌, ◌≡◌, ◌≢◌, refl, true, eq_ℤ, eq_ℤ_refl, some, arith, if◌then◌else◌, subst, eq_ℤ→eq,
  ◌⊎◌, inl, inr,
}
use latest_zsim_dramsim.Common.{
  CommandType, CommandType-discrete, read, Command, is_valid, is_read_write,
}
use latest_zsim_dramsim.Bank.{
  State, opened, closed, sref, pd, size, BankState, required_type, get_ready_command, update_state,
}
use latest_zsim_dramsim.Bank.Due.{ready_valid}

-- 0 at a row hit, 1 at a closed bank, 2 at a row miss or in self-refresh.
abbrev pub distance_in : State → BankState → Command → ℕ
distance_in opened b cmd = if eq_ℤ cmd.row b.open_row then 0 else 2
distance_in closed b cmd = 1
distance_in sref b cmd = 2
distance_in pd b cmd = 0
distance_in size b cmd = 0

abbrev pub distance : BankState → Command → ℕ
distance b cmd = distance_in b.state b cmd

step_required :
    (s : State) (t : CommandType) (b : BankState) (cmd : Command) {u : CommandType}
    {b' b'' : BankState}
    → b.state ≡ s
    → cmd.cmd_type ≡ t
    → is_read_write cmd ≡ true
    → required_type s t b cmd ≡ some (u, b')
    → update_state b' (record cmd { cmd_type = u }) ≡ some b''
    → u ≢ t
    → distance b cmd ≡ suc (distance b'' cmd)
unfolding required_type update_state
step_required opened read b cmd p q w e h n = ground (arith, eq_ℤ_refl cmd.row)
step_required _ _ b cmd p q w e h n = ground (arith, eq_ℤ_refl cmd.row)

hit_required :
    (s : State) (t : CommandType) (b : BankState) (cmd : Command) {b' : BankState}
    → b.state ≡ s
    → cmd.cmd_type ≡ t
    → is_read_write cmd ≡ true
    → required_type s t b cmd ≡ some (t, b')
    → (b.state ≡ opened) × (cmd.row ≡ b.open_row)
unfolding required_type
hit_required s t b cmd p q w e = ground (arith, eq_ℤ→eq cmd.row b.open_row)

distance-le : (s : State) (b : BankState) (cmd : Command) → distance_in s b cmd ≤ 2
distance-le opened b cmd = ground arith
distance-le _ b cmd = ground arith

-- A bank that is asked for a read or write is never more than two commands away from it. The valid
-- command that it hands out either is the one asked for, and then the bank is open at the row
-- asked for, or brings the bank, once it has executed it, exactly one command nearer.
pub ready_progress :
    (b : BankState) (cmd : Command) (clk : ℕ) {c : Command} {b' b'' : BankState}
    → is_read_write cmd ≡ true
    → get_ready_command b cmd clk ≡ some (c, b')
    → is_valid c ≡ true
    → update_state b' c ≡ some b''
    → (distance b cmd ≤ 2)
      × (((c.cmd_type ≡ cmd.cmd_type) × (b.state ≡ opened) × (cmd.row ≡ b.open_row))
          ⊎ (distance b cmd ≡ suc (distance b'' cmd)))
ready_progress b cmd clk {c} {b'} {b''} w e v u =
    let (q, p, h) = ready_valid b cmd clk e v in
    (
      distance-le b.state b cmd,
      elim (CommandType-discrete c.cmd_type cmd.cmd_type) [
        | yes same ↦
            let hit =
              hit_required b.state cmd.cmd_type b cmd {b' = b'} refl refl w
                (subst (λ x. required_type b.state cmd.cmd_type b cmd ≡ some (x, b')) same q) in
            inl (same, hit.0, hit.1)
        | no other ↦ inr (
            step_required b.state cmd.cmd_type b cmd refl refl w q
              (subst (λ x. update_state b' x ≡ some b'') p u) other)
      ],
    )
