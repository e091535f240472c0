-- ===== src/Hmc/Cube/Vaults.antt =====
-- `DRAMClockTick` and what the callbacks of the vaults leave as it is (src/hmc.cc).
use latest_zsim_dramsim.Prelude.{
  ℕ, suc, ◌+◌, ◌≡◌, refl, ◌∙◌, subst, List, [], ◌∷◌, some, >>=_inv, for_range?_keep, for_range?,
  length,
}
use mathlib.Core.Option.{some-injective}
use latest_zsim_dramsim.Common.{u64}
use latest_zsim_dramsim.Config.{Config}
use latest_zsim_dramsim.Timing.{Timing}
use latest_zsim_dramsim.Controller.{Controller}
use latest_zsim_dramsim.Controller.Tick.{tick}
use latest_zsim_dramsim.Channel.{put}
use latest_zsim_dramsim.System.Jedec.{Call, return_all}
use latest_zsim_dramsim.Hmc.Crossbar.Steps.{put-Aged}
use latest_zsim_dramsim.Hmc.Cube.{Cube}
use latest_zsim_dramsim.Hmc.Cube.Ready.{clocks, Ready}
use latest_zsim_dramsim.Hmc.Cube.Cycle.{
  take_response, vault_callback, vault_callbacks, return_vault, tick_vault, dram_clock_tick,
}

module _ (config : Config) where
  -- What a part of a cycle keeps.
  abbrev pub Keeps : Cube → Cube → Type 0
  Keeps s s' = Ready config s' × (clocks s' ≡ clocks s)

  vault_callback-Keeps :
      (req_id : ℕ) (s s' : Cube)
      → Ready config s
      → vault_callback config req_id s ≡ some s'
      → Keeps s s'
  unfolding vault_callback
  vault_callback-Keeps req_id s s' r e =
      let ((resp, table), e1, e2) = >>=_inv (take_response config req_id s.resp_lookup_table) _ e in
      subst (Keeps s) (some-injective _ s' e2) (
        record {
          links = r.links;
          turn = r.turn;
          requests = r.requests;
          responses = put-Aged s.responses resp.quad resp r.responses;
          vaults = r.vaults;
        },
        refl,
      )

  vault_callbacks-Keeps :
      (calls : List Call) (s s' : Cube)
      → Ready config s
      → vault_callbacks config calls s ≡ some s'
      → Keeps s s'
  unfolding vault_callbacks
  vault_callbacks-Keeps [] s s' r e = subst (Keeps s) (some-injective s s' e) (r, refl)
  vault_callbacks-Keeps (call ∷ calls) s s' r e =
      let (t, e1, e2) = >>=_inv (vault_callback config call.0 s) (vault_callbacks config calls) e in
      let (r1, c1) = vault_callback-Keeps call.0 s t r e1 in
      let (r2, c2) = vault_callbacks-Keeps calls t s' r1 e2 in (r2, c2 ∙ c1)

  -- The controllers, the clock and the logic clock are no part of what is kept.
  elsewhere :
      (s : Cube) (ctrls : ℕ → Controller) (clk : ℕ)
      → Ready config s
      → Ready config (record s { ctrls = ctrls; clk = clk })
  elsewhere s ctrls clk r = record {
    links = r.links;
    turn = r.turn;
    requests = r.requests;
    responses = r.responses;
    vaults = r.vaults;
  }

  return_vault-Keeps :
      (i : ℕ) (s s' : Cube) → Ready config s → return_vault config i s ≡ some s' → Keeps s s'
  unfolding return_vault
  return_vault-Keeps i s s' r e =
      let x = return_all (suc (length (s.ctrls i).return_queue)) (s.ctrls i) s.clk in
      vault_callbacks-Keeps x.0 (record s { ctrls = put s.ctrls i x.1 }) s'
        (elsewhere s (put s.ctrls i x.1) s.clk r) e

  tick_vault-Keeps :
      (timing : Timing) (i : ℕ) (s s' : Cube)
      → Ready config s
      → tick_vault config timing i s ≡ some s'
      → Keeps s s'
  unfolding tick_vault
  tick_vault-Keeps timing i s s' r e =
      let (c, e1, e2) = >>=_inv (tick config timing (s.ctrls i)) _ e in
      subst (Keeps s) (some-injective (record s { ctrls = put s.ctrls i c }) s' e2)
        (elsewhere s (put s.ctrls i c) s.clk r, refl)

  pub dram_clock_tick-Keeps :
      (timing : Timing) (s s' : Cube)
      → Ready config s
      → dram_clock_tick config timing s ≡ some s'
      → Keeps s s'
  unfolding dram_clock_tick
  dram_clock_tick-Keeps timing s s' r e =
      let (t, e1, e') = >>=_inv (for_range? config.channels 0 (return_vault config) s) _ e in
      let (u, e2, e3) = >>=_inv (for_range? config.channels 0 (tick_vault config timing) t) _ e' in
      let returned =
        for_range?_keep (Keeps s) (return_vault config)
          (λ i x y h q. let (r', c) = return_vault-Keeps i x y h.0 q in (r', c ∙ h.1))
          config.channels 0 s (r, refl) e1 in
      let ticked =
        for_range?_keep (Keeps s) (tick_vault config timing)
          (λ i x y h q. let (r', c) = tick_vault-Keeps timing i x y h.0 q in (r', c ∙ h.1))
          config.channels 0 t returned e2 in
      subst (Keeps s) (some-injective (record u { clk = u64 (u.clk + 1) }) s' e3)
        (elsewhere u u.ctrls (u64 (u.clk + 1)) ticked.0, ticked.1)
