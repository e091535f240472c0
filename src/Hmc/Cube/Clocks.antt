-- ===== src/Hmc/Cube/Clocks.antt =====
-- The logic clock and the DRAM clock of `HMCMemorySystem::ClockTick` (src/hmc.cc).
use latest_zsim_dramsim.Prelude.{
  ℕ, zero, suc, ◌+◌, ◌-◌, ◌*◌, ◌%◌, ◌^◌, ◌≤◌, ◌<◌, ◌≡◌, refl, ap, sym, ◌∙◌, subst, ltb, ◌==◌, true,
  Bool-cases, inl, inr, List, [], ◌++◌, some, arith, >>=_inv,
}
use mathlib.Core.Option.{some-injective}
use native.Mathlib.Nat.{suc-mul, mod-eq_of_lt, mul-le-mul_left}
use latest_zsim_dramsim.Common.{u64}
use latest_zsim_dramsim.Config.{Config}
use latest_zsim_dramsim.Timing.{Timing}
use latest_zsim_dramsim.System.Jedec.{Call}
use latest_zsim_dramsim.Hmc.Cube.{Cube}
use latest_zsim_dramsim.Hmc.Cube.Ready.{clocks, Ready, drain_requests-Ready, drain_responses-Ready}
use latest_zsim_dramsim.Hmc.Cube.Vaults.{Keeps, dram_clock_tick-Keeps}
use latest_zsim_dramsim.Hmc.Cube.Cycle.{
  dram_clock_tick, advance_logic, logic_cycle, catch_up, first_cycle, cube_tick,
}

-- The logic clock counts its periods, and is less than a period ahead of `bound`, which fits in the
-- word.
pub record Timed (bound : ℕ) (c : ℕ × ℕ × ℕ × ℕ × ℕ) : Type 0 where
  pub period : 0 < c.4
  pub fits : bound + c.4 < 2 ^ 64
  pub ahead : c.0 < bound + c.4
  pub counts : c.0 ≡ c.1 * c.4

suc_mul : (n p : ℕ) → (n + 1) * p ≡ n * p + p
suc_mul n p = let e : n + 1 ≡ suc n = omega arith in rw e (suc-mul n p)

le_mul : (n p : ℕ) → 0 < p → n ≤ n * p
le_mul n p h = let m : n * 1 ≤ n * p = mul-le-mul_left n (omega arith) in omega arith

advance-Timed :
    (bound : ℕ) (s : Cube)
    → s.logic_ps < bound
    → Timed bound (clocks s)
    → Timed bound (clocks (advance_logic s))
      × (u64 (s.logic_ps + s.ps_per_logic) ≡ s.logic_ps + s.ps_per_logic)
advance-Timed bound s h t =
    let ps : (s.logic_ps + s.ps_per_logic) % 2 ^ 64 ≡ s.logic_ps + s.ps_per_logic =
      mod-eq_of_lt (omega (arith, t.fits)) in
    let more : (s.logic_clk + 1) * s.ps_per_logic ≡ s.logic_ps + s.ps_per_logic =
      suc_mul s.logic_clk s.ps_per_logic ∙ ap (λ x. x + s.ps_per_logic) (sym t.counts) in
    let some_ps : s.logic_clk + 1 ≤ (s.logic_clk + 1) * s.ps_per_logic =
      le_mul (s.logic_clk + 1) s.ps_per_logic t.period in
    let clk : (s.logic_clk + 1) % 2 ^ 64 ≡ s.logic_clk + 1 =
      mod-eq_of_lt (omega (arith, t.fits, some_ps, more)) in
    (
      record {
        period = t.period;
        fits = t.fits;
        ahead = rw ps (omega arith);
        counts = rw (ps, clk) (sym more);
      },
      ps,
    )

module _ (config : Config) where
  pub logic_cycle-Ready :
      (calls : List Call) (s : Cube)
      → Ready config s
      → (more : List Call) × (s' : Cube) × (logic_cycle config (calls, s)
          ≡ some (more, advance_logic s'))
        × Ready config s'
        × (clocks s' ≡ clocks s)
  unfolding logic_cycle
  logic_cycle-Ready calls s r =
      let (more, s', e, r', c) = drain_responses-Ready config s r in
      let (s'', e', r'', c') = drain_requests-Ready config s' r' in
      (calls ++ more, s'', rw (e, e') refl, r'', c' ∙ c)

  catch_up_step :
      (fuel : ℕ) (calls : List Call) (s : Cube) {b : ℕ} {x : List Call × Cube}
      → u64 (s.dram_ps + s.ps_per_dram) ≡ b
      → ltb s.logic_ps b ≡ true
      → logic_cycle config (calls, s) ≡ some x
      → catch_up config (suc fuel) (calls, s) ≡ catch_up config fuel x
  unfolding catch_up
  catch_up_step fuel calls s end below e = rw (end, below, e) refl

  -- The fields that the loop leaves alone.
  abbrev Same : ℕ × ℕ × ℕ → Cube → Type 0
  Same k s = (s.dram_ps, s.ps_per_dram, s.ps_per_logic) ≡ k

  clocks-Same : (k : ℕ × ℕ × ℕ) (s s' : Cube) → clocks s' ≡ clocks s → Same k s → Same k s'
  clocks-Same k s s' c same = ap (λ (x : ℕ × ℕ × ℕ × ℕ × ℕ). (x.2, x.3, x.4)) c ∙ same

  bound_of : (k : ℕ × ℕ × ℕ) (s : Cube) → Same k s → s.dram_ps + s.ps_per_dram ≡ k.0 + k.1
  bound_of k s same = ap (λ (x : ℕ × ℕ × ℕ). x.0 + x.1) same

  -- The loop ends with the logic clock caught up.
  catch_up-Timed :
      (k : ℕ × ℕ × ℕ) (fuel : ℕ) (calls : List Call) (s : Cube)
      → Ready config s
      → Same k s
      → Timed (k.0 + k.1) (clocks s)
      → k.0 + k.1 - s.logic_ps < fuel
      → (all : List Call) × (s' : Cube) × (catch_up config fuel (calls, s) ≡ some (all, s'))
        × (Ready config s' × Same k s' × Timed (k.0 + k.1) (clocks s') × (k.0 + k.1 ≤ s'.logic_ps))
  unfolding catch_up
  catch_up-Timed k zero calls s r same t f = absurd (omega arith)
  catch_up-Timed k (suc fuel) calls s r same t f =
      let fits : (k.0 + k.1) % 2 ^ 64 ≡ k.0 + k.1 = mod-eq_of_lt (omega (arith, t.fits)) in
      let end : u64 (s.dram_ps + s.ps_per_dram) ≡ k.0 + k.1 =
        ap (λ x. x % 2 ^ 64) (bound_of k s same) ∙ fits in
      elim (Bool-cases (ltb s.logic_ps (k.0 + k.1))) [
        | inl y ↦
            let (more, s', e, r', c) = logic_cycle-Ready calls s r in
            let t' = subst (Timed (k.0 + k.1)) (sym c) t in
            let ps : s'.logic_ps ≡ s.logic_ps = ap (λ (x : ℕ × ℕ × ℕ × ℕ × ℕ). x.0) c in
            let (t'', sum) = advance-Timed (k.0 + k.1) s' (ground arith) t' in
            let r'' : Ready config (advance_logic s') = record {
              links = r'.links;
              turn = r'.turn;
              requests = r'.requests;
              responses = r'.responses;
              vaults = r'.vaults;
            } in
            let low : s.logic_ps < k.0 + k.1 = ground arith in
            let less : k.0 + k.1 - u64 (s'.logic_ps + s'.ps_per_logic) < fuel =
              rw sum (omega (arith, t'.period, ps, low, f)) in
            let (all, z, e', done) =
              catch_up-Timed k fuel more (advance_logic s') r'' (clocks-Same k s s' c same) t''
                less in
            (all, z, catch_up_step fuel calls s end y e ∙ e', done)
        | inr n ↦ (calls, s, rw (end, n) refl, (r, same, t, ground arith))
      ]

  -- The clocks between two calls of `ClockTick`.
  pub record Between (s : Cube) : Type 0 where
    pub period : 0 < s.ps_per_logic
    pub slower : s.ps_per_logic ≤ s.ps_per_dram
    pub behind : s.dram_ps ≤ s.logic_ps
    pub near : s.logic_ps < s.dram_ps + s.ps_per_logic
    pub counts : s.logic_ps ≡ s.logic_clk * s.ps_per_logic

  -- The state of a cycle with the logic clock at most a period ahead of the cycle's end.
  abbrev Started : Cube → Cube → Type 0
  Started s s' =
      Ready config s'
      × Same (s.dram_ps, s.ps_per_dram, s.ps_per_logic) s'
      × Timed (s.dram_ps + s.ps_per_dram) (clocks s')

  advanced :
      (s u : Cube)
      → Keeps config s u
      → s.logic_ps < s.dram_ps + s.ps_per_dram
      → Timed (s.dram_ps + s.ps_per_dram) (clocks s)
      → Started s (advance_logic u)
  advanced s u (r, c) low t =
      let bound = s.dram_ps + s.ps_per_dram in
      let ps : u.logic_ps ≡ s.logic_ps = ap (λ (x : ℕ × ℕ × ℕ × ℕ × ℕ). x.0) c in
      let t' : Timed bound (clocks u) = subst (Timed bound) (sym c) t in
      let (t'', _) = advance-Timed bound u (omega (arith, ps, low)) t' in
      let r' : Ready config (advance_logic u) = record {
        links = r.links;
        turn = r.turn;
        requests = r.requests;
        responses = r.responses;
        vaults = r.vaults;
      } in
      (r', clocks-Same (s.dram_ps, s.ps_per_dram, s.ps_per_logic) s u c refl, t'')

  Between-Timed :
      (s : Cube)
      → Between s
      → s.dram_ps + s.ps_per_dram + s.ps_per_logic < 2 ^ 64
      → Timed (s.dram_ps + s.ps_per_dram) (clocks s)
  Between-Timed s b fits = record {
    period = b.period;
    fits = fits;
    ahead = omega (arith, b.near, b.slower);
    counts = b.counts;
  }

  first_cycle-Started :
      (timing : Timing) (s : Cube) (calls : List Call) (s' : Cube)
      → Ready config s
      → Between s
      → s.dram_ps + s.ps_per_dram + s.ps_per_logic < 2 ^ 64
      → first_cycle config timing s ≡ some (calls, s')
      → Started s s'
  unfolding first_cycle
  first_cycle-Started timing s calls s' r b fits e =
      let t = Between-Timed s b fits in
      let low : s.logic_ps < s.dram_ps + s.ps_per_dram = omega (arith, b.near, b.slower) in
      elim (Bool-cases (s.dram_ps == s.logic_ps)) [
        | inl y ↦
            let (calls1, s1, d1, r1, c1) = drain_responses-Ready config s r in
            let (u, e1, e2) = >>=_inv (dram_clock_tick config timing s1) _ (rw (y, d1) at e) in
            let (r2, c2) = dram_clock_tick-Keeps config timing s1 u r1 e1 in
            let (w, d3, r3, c3) = drain_requests-Ready config u r2 in
            let pair = some-injective (calls1, advance_logic w) (calls, s') (rw d3 at e2) in
            subst (Started s) (ap (λ (x : List Call × Cube). x.1) pair)
              (advanced s w (r3, c3 ∙ c2 ∙ c1) low t)
        | inr n ↦
            let (u, e1, e2) = >>=_inv (dram_clock_tick config timing s) _ (rw n at e) in
            let (r', c) = dram_clock_tick-Keeps config timing s u r e1 in
            let pair = some-injective ([], u) (calls, s') e2 in
            subst (Started s) (ap (λ (x : List Call × Cube). x.1) pair) (
              r',
              clocks-Same (s.dram_ps, s.ps_per_dram, s.ps_per_logic) s u c refl,
              subst (Timed (s.dram_ps + s.ps_per_dram)) (sym c) t,
            )
      ]

  -- Between two calls the logic clock is at the first of its ticks that is not before the DRAM clock.
  -- Then, once the vaults have had their cycle, `ClockTick` ends, its loop included, with the DRAM
  -- clock a period later and the clocks so again. The sums of picoseconds are to fit in the word.
  pub cube_tick-Between :
      (timing : Timing) (s : Cube) {calls : List Call} {started : Cube}
      → Ready config s
      → Between s
      → s.dram_ps + s.ps_per_dram + s.ps_per_logic < 2 ^ 64
      → first_cycle config timing s ≡ some (calls, started)
      → (all : List Call) × (s' : Cube) × (cube_tick config timing s ≡ some (all, s'))
        × Ready config s'
        × Between s'
        × (s'.dram_ps ≡ s.dram_ps + s.ps_per_dram)
  unfolding cube_tick
  cube_tick-Between timing s {calls} {started} r b fits e =
      let k : ℕ × ℕ × ℕ = (s.dram_ps, s.ps_per_dram, s.ps_per_logic) in
      let (r', same, t) = first_cycle-Started timing s calls started r b fits e in
      let fuel = suc (started.dram_ps + started.ps_per_dram - started.logic_ps) in
      let enough : s.dram_ps + s.ps_per_dram - started.logic_ps < fuel =
        omega (arith, bound_of k started same) in
      let (all, s', e', (r'', same', t', caught)) =
        catch_up-Timed k fuel calls started r' same t enough in
      let sd : s'.dram_ps ≡ s.dram_ps = ap (λ (x : ℕ × ℕ × ℕ). x.0) same' in
      let sq : s'.ps_per_dram ≡ s.ps_per_dram = ap (λ (x : ℕ × ℕ × ℕ). x.1) same' in
      let sp : s'.ps_per_logic ≡ s.ps_per_logic = ap (λ (x : ℕ × ℕ × ℕ). x.2) same' in
      let sum : u64 (s'.dram_ps + s'.ps_per_dram) ≡ s.dram_ps + s.ps_per_dram =
        rw (sd, sq) (mod-eq_of_lt (omega (arith, fits))) in
      (
        all,
        record s' { dram_ps = u64 (s'.dram_ps + s'.ps_per_dram) },
        rw (e, e') refl,
        record {
          links = r''.links;
          turn = r''.turn;
          requests = r''.requests;
          responses = r''.responses;
          vaults = r''.vaults;
        },
        record {
          period = t'.period;
          slower = omega (arith, sp, sq, b.slower);
          behind = omega (arith, sum, caught);
          near = omega (arith, sum, t'.ahead);
          counts = t'.counts;
        },
        sum,
      )
