-- ===== src/Channel/Update/Branches.antt =====
-- The two branches of `UpdateState` (src/channel_state.cc) taken apart.
use mathlib.Core.Option.{some-injective}
use latest_zsim_dramsim.Prelude.{ℕ, ◌≡◌, ◌⊎◌, inl, inr, some, >>=_inv, Bool-cases}
use latest_zsim_dramsim.Common.{Command, is_rank_cmd}
use latest_zsim_dramsim.Config.{Config}
use latest_zsim_dramsim.Channel.{Grid, ChannelState, Place, rank?, place?}
use latest_zsim_dramsim.Channel.Update.{
  update_bank, update_banks, settle_rank, settle_bank, update_rank_state, update_bank_state,
  update_state,
}

pub update_rank_inv :
    (config : Config) (s : ChannelState) (cmd : Command) {s' : ChannelState}
    → update_rank_state config s cmd ≡ some s'
    → (i : ℕ) × (g : Grid) × (rank? config cmd.rank ≡ some i)
      × (update_banks config cmd i s.bank_states ≡ some g)
      × (settle_rank config cmd.cmd_type i cmd (record s { bank_states = g }) ≡ s')
unfolding update_rank_state
update_rank_inv config s cmd e =
    let (i, ranked, e1) = >>=_inv (rank? config cmd.rank) _ e in
    let (g, updated, e2) = >>=_inv (update_banks config cmd i s.bank_states) _ e1 in
    (i, g, ranked, updated, some-injective _ _ e2)

pub update_bank_inv :
    (config : Config) (s : ChannelState) (cmd : Command) {s' : ChannelState}
    → update_bank_state config s cmd ≡ some s'
    → (p : Place) × (g : Grid) × (place? config cmd.addr ≡ some p)
      × (update_bank cmd p s.bank_states ≡ some g)
      × (settle_bank config cmd (record s { bank_states = g }) ≡ s')
unfolding update_bank_state
update_bank_inv config s cmd e =
    let (p, placed, e1) = >>=_inv (place? config cmd.addr) _ e in
    let (g, updated, e2) = >>=_inv (update_bank cmd p s.bank_states) _ e1 in
    (p, g, placed, updated, some-injective _ _ e2)

pub update_branch :
    (config : Config) (s : ChannelState) (cmd : Command) {s' : ChannelState}
    → update_state config s cmd ≡ some s'
    → ((i : ℕ) × (g : Grid) × (rank? config cmd.rank ≡ some i)
        × (update_banks config cmd i s.bank_states ≡ some g)
        × (settle_rank config cmd.cmd_type i cmd (record s { bank_states = g }) ≡ s'))
      ⊎ ((p : Place) × (g : Grid) × (place? config cmd.addr ≡ some p)
          × (update_bank cmd p s.bank_states ≡ some g)
          × (settle_bank config cmd (record s { bank_states = g }) ≡ s'))
unfolding update_state
update_branch config s cmd e = elim (Bool-cases (is_rank_cmd cmd)) [
  | inl y ↦ inl (update_rank_inv config s cmd (rw y at e))
  | inr n ↦ inr (update_bank_inv config s cmd (rw n at e))
]
