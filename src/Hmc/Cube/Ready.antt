-- ===== src/Hmc/Cube/Ready.antt =====
-- What the queues of `HMCMemorySystem` hold between its steps, and that draining them goes on
-- (src/hmc.cc).
use latest_zsim_dramsim.Prelude.{
  ℕ, ◌<◌, ◌≡◌, refl, ◌∙◌, ltb, leb, true, ◌&&◌, Bool-cases, List-cases, inl, inr, List, [], ◌∷◌,
  All, some, arith, for_range, for_range_keep, for_range?_total, lt→ltb, length,
}
use native.Mathlib.Decide.{ℕ_discrete}
use latest_zsim_dramsim.Config.{Config}
use latest_zsim_dramsim.Channel.{put, put_self, put_ne}
use latest_zsim_dramsim.Controller.{will_accept_transaction}
use latest_zsim_dramsim.System.Jedec.{Call}
use latest_zsim_dramsim.Hmc.Packets.{Request, Response}
use latest_zsim_dramsim.Hmc.Crossbar.Steps.{Aged, drain_crossbar-Aged, drain_crossbar-Every, Every}
use latest_zsim_dramsim.Hmc.Cube.{Cube}
use latest_zsim_dramsim.Hmc.Cube.Cycle.{
  stamp_request, stamp_response, return_front, drain_responses, insert_req_to_dram, drain_quad,
  drain_requests,
}

-- The fields of the clocks, which draining the queues leaves alone.
abbrev pub clocks : Cube → ℕ × ℕ × ℕ × ℕ × ℕ
clocks s = (s.logic_ps, s.logic_clk, s.dram_ps, s.ps_per_dram, s.ps_per_logic)

module _ (config : Config) where
  abbrev pub InVault : Request → Type 0
  InVault r = r.vault < config.channels

  -- The ages tell which queues hold packets, and every request is for a vault there is.
  pub record Ready (s : Cube) : Type 0 where
    pub links : 0 < s.links
    pub turn : s.next_link < s.links
    pub requests : Aged s.requests
    pub responses : Aged s.responses
    pub vaults : Every InVault s.requests

  insert_req_to_dram-Ready :
      (i : ℕ) (s : Cube) (req : Request) (rest : List Request)
      → s.requests.output i ≡ req ∷ rest
      → Ready s
      → Ready (insert_req_to_dram config i req rest s)
  insert_req_to_dram-Ready i s req rest e r = record {
    links = r.links;
    turn = r.turn;
    requests = record { holds = r.requests.holds; waits = r.requests.waits };
    responses = r.responses;
    vaults = λ j. ((r.vaults j).0, left j);
  }
    where
      left : (j : ℕ) → All InVault (put s.requests.output i rest j)
      left j = elim (ℕ_discrete j i) [
        | yes here ↦ rw (here, put_self s.requests.output i rest) (rw e at (r.vaults i).1).1
        | no n ↦ rw (put_ne s.requests.output i j rest n) (r.vaults j).1
      ]

  drain_quad_front :
      (i : ℕ) (s : Cube) (req : Request) (rest : List Request)
      → s.requests.output i ≡ req ∷ rest
      → Ready s
      → (s' : Cube) × (drain_quad config i s ≡ some s') × Ready s' × (clocks s' ≡ clocks s)
  unfolding drain_quad
  drain_quad_front i s req rest e r =
      let inside : ltb req.vault config.channels ≡ true = lt→ltb _ _ (rw e at (r.vaults i).1).0 in
      elim (Bool-cases
        (ltb (length (s.responses.input i)) s.queue_depth && leb req.exit_time s.logic_clk)) [
          | inl y ↦
              elim (Bool-cases (will_accept_transaction config (s.ctrls req.vault) req.is_write)) [
                | inl accepted ↦ (
                  insert_req_to_dram config i req rest s,
                  rw (e, y, inside, accepted, drain_quad) refl,
                  insert_req_to_dram-Ready i s req rest e r,
                  refl,
                )
                | inr busy ↦ (s, rw (e, y, inside, busy, drain_quad) refl, r, refl)
              ]
          | inr n ↦ (s, rw (e, n, drain_quad) refl, r, refl)
        ]

  drain_quad-Ready :
      (i : ℕ) (s : Cube)
      → Ready s
      → (s' : Cube) × (drain_quad config i s ≡ some s') × Ready s' × (clocks s' ≡ clocks s)
  unfolding drain_quad
  drain_quad-Ready i s r = elim (List-cases (s.requests.output i)) [
    | inl e ↦ (s, rw (e, drain_quad) refl, r, refl)
    | inr (req, rest, e) ↦ drain_quad_front i s req rest e r
  ]

  -- With a link, ages that tell which queues hold packets, and requests for vaults there are,
  -- `DrainRequests` comes to its end, keeps all that so, and leaves the clocks alone.
  pub drain_requests-Ready :
      (s : Cube)
      → Ready s
      → (s' : Cube) × (drain_requests config s ≡ some s') × Ready s' × (clocks s' ≡ clocks s)
  unfolding drain_requests
  drain_requests-Ready s r =
      let (s', e, h) =
        for_range?_total (λ x. Ready x × (clocks x ≡ clocks s)) (drain_quad config)
          (λ i x h. let (y, e, r', c) = drain_quad-Ready i x h.0 in (y, e, (r', c ∙ h.1))) 4 0 s
          (r, refl) in
      let (x, e', a, v) =
        drain_crossbar-Every (λ (r : Request). r.quad) (λ (r : Request). r.flits) stamp_request
          s'.queue_depth s'.logic_clk InVault (λ t p q. q) s'.links s'.requests h.0.links
          h.0.requests h.0.vaults in
      (
        record s' { requests = x },
        rw (e, e') refl,
        record {
          links = h.0.links;
          turn = h.0.turn;
          requests = a;
          responses = h.0.responses;
          vaults = v;
        },
        h.1,
      )

  return_front-Ready :
      (i : ℕ) (x : List Call × Cube)
      → Ready x.1
      → Ready (return_front i x).1 × (clocks (return_front i x).1 ≡ clocks x.1)
  unfolding return_front
  return_front-Ready i (calls, s) r = elim (List-cases (s.responses.output i)) [
    | inl e ↦ rw (e, return_front) (r, refl)
    | inr (resp, rest, e) ↦ elim (Bool-cases (leb resp.exit_time s.logic_clk)) [
      | inl y ↦
          rw (e, y, return_front)
            (
              record {
                links = r.links;
                turn = r.turn;
                requests = r.requests;
                responses = record { holds = r.responses.holds; waits = r.responses.waits };
                vaults = r.vaults;
              },
              refl,
            )
      | inr n ↦ rw (e, n, return_front) (r, refl)
    ]
  ]

  pub drain_responses-Ready :
      (s : Cube)
      → Ready s
      → (calls : List Call) × (s' : Cube) × (drain_responses s ≡ some (calls, s'))
        × Ready s'
        × (clocks s' ≡ clocks s)
  unfolding drain_responses
  drain_responses-Ready s r =
      let start : List Call × Cube = ([], s) in
      let (r', c) =
        for_range_keep (λ (x : List Call × Cube). Ready x.1 × (clocks x.1 ≡ clocks s)) return_front
          (λ i x h. let (r', c) = return_front-Ready i x h.0 in (r', c ∙ h.1)) s.links 0 start
          (r, refl) in
      let (calls, s') = for_range s.links 0 return_front start in
      let (x, e', _, a) =
        drain_crossbar-Aged (λ (r : Response). r.link) (λ (r : Response). r.flits) stamp_response
          s'.queue_depth s'.logic_clk 4 s'.responses (omega arith) r'.responses in
      (
        calls,
        record s' { responses = x },
        rw e' refl,
        record {
          links = r'.links;
          turn = r'.turn;
          requests = r'.requests;
          responses = a;
          vaults = r'.vaults;
        },
        c,
      )
