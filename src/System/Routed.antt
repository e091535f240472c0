-- ===== src/System/Routed.antt =====
-- Where `AddTransaction` of `JedecDRAMSystem` puts a transaction (src/dram_system.cc).
use mathlib.Core.Option.{some-injective}
use latest_zsim_dramsim.Prelude.{
  ℕ, ◌≡◌, ◌≢◌, refl, ◌∙◌, ap, subst, true, Bool, Bool-cases, inl, inr, some, >>=_inv, arith,
}
use latest_zsim_dramsim.Common.{new_transaction}
use latest_zsim_dramsim.Config.{Config}
use latest_zsim_dramsim.Config.Mapping.{get_channel}
use latest_zsim_dramsim.Channel.{put_self, put_ne}
use latest_zsim_dramsim.Controller.{Controller, will_accept_transaction, add_transaction}
use latest_zsim_dramsim.System.Jedec.{JedecSystem, channel?, jedec_will_accept, jedec_add}

module _ (config : Config) where
  channel?-get_channel : (a i : ℕ) → channel? config a ≡ some i → i ≡ get_channel config a
  channel?-get_channel a i e = ground arith

  -- A transaction that `AddTransaction` takes is one that `WillAcceptTransaction` accepts; it goes to
  -- the controller of its address's channel, and every other controller stays as it is.
  pub jedec_add_routed :
      (s : JedecSystem) (a : ℕ) (w : Bool) (k : ℕ) {s' : JedecSystem}
      → k ≢ get_channel config a
      → jedec_add config s a w ≡ some s'
      → (jedec_will_accept config s a w ≡ some true)
        × (s'.ctrls (get_channel config a)
            ≡ add_transaction config (s.ctrls (get_channel config a)) (new_transaction a w))
        × (s'.ctrls k ≡ s.ctrls k)
  unfolding jedec_add jedec_will_accept
  jedec_add_routed s a w k {s'} ne e =
      let (i, found, e1) = >>=_inv (channel? config a) _ e in
      let c = add_transaction config (s.ctrls i) (new_transaction a w) in
      let here = channel?-get_channel a i found in
      elim (Bool-cases (will_accept_transaction config (s.ctrls i) w)) [
        | inl y ↦
            let same = ap (λ (x : JedecSystem). x.ctrls) (some-injective _ s' (rw y at e1)) in
            (
              rw (found, y) refl,
              subst (λ j. s'.ctrls j ≡ add_transaction config (s.ctrls j) (new_transaction a w))
                  here (subst (λ (v : ℕ → Controller). v i ≡ c) same (put_self s.ctrls i c)),
              subst (λ (v : ℕ → Controller). v k ≡ s.ctrls k) same
                  (put_ne s.ctrls i k c (λ q. ne (q ∙ here))),
            )
        | inr n ↦ absurd (ground arith)
      ]
