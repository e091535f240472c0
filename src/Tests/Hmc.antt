-- ===== src/Tests/Hmc.antt =====
-- The hybrid memory cube at concrete packets.
use latest_zsim_dramsim.Prelude.{
  ℕ, zero, suc, ◌≤◌, ◌<◌, ◌≡◌, refl, false, ltb, ◌==◌, ◌&&◌, if◌then◌else◌, List, [], ◌∷◌, length,
  All, some, arith,
}
use latest_zsim_dramsim.System.Jedec.{Call}
use latest_zsim_dramsim.Hmc.Packets
use latest_zsim_dramsim.Hmc.Packets.{RespType, Request, request_flits, response_form}
use latest_zsim_dramsim.Hmc.Packets.Sizes.{request_flits-carries}
use latest_zsim_dramsim.Hmc.Crossbar.{Crossbar, empty_crossbar, build_age_queue, drain_crossbar}
use latest_zsim_dramsim.Hmc.Crossbar.Ages.{occurrences, build_age_queue-exact}
use latest_zsim_dramsim.Hmc.Crossbar.Steps.{Aged}
use latest_zsim_dramsim.Hmc.Crossbar.Flow.{Sourced, flow, drain_crossbar-flow, drain_crossbar-room}
use latest_zsim_dramsim.Hmc.Cube.{Cube, cube_will_accept, insert_hmc_req}
use latest_zsim_dramsim.Config.{Config, HmcConfig, hmc}
use latest_zsim_dramsim.Controller.{new_controller}
use latest_zsim_dramsim.Hmc.Cube.Cycle.{stamp_request, first_cycle, cube_tick}
use latest_zsim_dramsim.Hmc.Cube.Inserted.{
  Outcome, insert_hmc_req-Outcome, insert_hmc_req-will_accept,
}
use latest_zsim_dramsim.Hmc.Cube.Ready.{Ready}
use latest_zsim_dramsim.Hmc.Cube.Clocks.{Between, cube_tick-Between}
use latest_zsim_dramsim.Tests.Sample.{config, timing, no_queue}

request_flits-carries_example :
    (request_flits Packets.p_wr64 ≡ some 5)
    × (response_form Packets.p_wr64 ≡ some (Packets.no_rs, 0))
request_flits-carries_example = request_flits-carries Packets.p_wr64

-- Three queues with ages 1, 9 and 2.
abbrev ages : ℕ → ℕ
ages i = if i == 0 then 1 else if i == 1 then 9 else 2

-- The oldest queue is not the first: an age is compared with the number of a queue.
oldest_is_second : build_age_queue 3 0 ages ≡ some (2 ∷ 1 ∷ 0 ∷ [])
unfolding build_age_queue
oldest_is_second = refl

build_age_queue-exact_example :
    (queue : List ℕ) × (build_age_queue 3 7 ages ≡ some queue)
    × ((j : ℕ) → occurrences j queue ≡ (if ltb j 3 && ltb 0 (ages j) then 1 else 0))
build_age_queue-exact_example = build_age_queue-exact 3 7 ages (omega arith)

-- A read that waits at a link for a quad.
abbrev waiting : ℕ → ℕ → Request
waiting link quad = record {
  req_type = Packets.rd64;
  mem_operand = 64;
  link = link;
  quad = quad;
  vault = quad;
  flits = 1;
  is_write = false;
  exit_time = 0;
}

abbrev link_queue : ℕ → List Request
link_queue zero = waiting 0 3 ∷ waiting 0 3 ∷ []
link_queue (suc i) = []

abbrev link_age : ℕ → ℕ
link_age zero = 1
link_age (suc i) = 0

-- Two reads at link 0 for quad 3.
abbrev crossbar : Crossbar Request
crossbar = record empty_crossbar { input = link_queue; age = link_age }

held : (i : ℕ) → 0 < link_age i → 0 < length (link_queue i)
held zero h = omega arith
held (suc i) h = h

aged : (i : ℕ) → 0 < length (link_queue i) → 0 < link_age i
aged zero h = omega arith
aged (suc i) h = h

crossbar-Aged : Aged crossbar
crossbar-Aged = record { holds = held; waits = aged }

sourced : (i : ℕ) → All (λ (r : Request). r.link ≡ i) (link_queue i)
sourced zero = (refl, (refl, tt))
sourced (suc i) = tt

drain_crossbar-flow_example :
    (y : Crossbar Request) × (drain_crossbar
        (λ (r : Request). r.quad)
        (λ (r : Request). r.flits)
        stamp_request
        2
        5
        4
        crossbar
      ≡ some y)
    × (flow
          (λ (r : Request). r.quad)
          (λ (r : Request). r.flits)
          (λ (r : Request). r.link)
          stamp_request
          (λ (r : Request). r.mem_operand)
          2
          5
          0
          3
          y
        ≡ 64 ∷ 64 ∷ [])
    × Sourced
        (λ (r : Request). r.quad)
        (λ (r : Request). r.flits)
        (λ (r : Request). r.link)
        stamp_request
        (λ (r : Request). r.mem_operand)
        2
        5
        y
drain_crossbar-flow_example =
    drain_crossbar-flow (λ (r : Request). r.quad) (λ (r : Request). r.flits)
      (λ (r : Request). r.link) stamp_request (λ (r : Request). r.mem_operand) 2 5 (λ t p. refl)
      (λ t p. refl) 4 0 3 crossbar (omega arith) crossbar-Aged sourced

drain_crossbar-room_example :
    (y : Crossbar Request) × (drain_crossbar
        (λ (r : Request). r.quad)
        (λ (r : Request). r.flits)
        stamp_request
        2
        5
        4
        crossbar
      ≡ some y)
    × (length (y.output 3) ≤ 2)
drain_crossbar-room_example =
    drain_crossbar-room (λ (r : Request). r.quad) (λ (r : Request). r.flits) stamp_request 2 5 4
      crossbar 3 (omega arith) crossbar-Aged (omega arith)

-- A cube of two links, the first of which is full.
abbrev cube : Cube
cube = record {
  clk = 0;
  last_req_clk = 0;
  logic_clk = 0;
  logic_ps = 0;
  dram_ps = 0;
  ps_per_dram = 800;
  ps_per_logic = 533;
  next_link = 0;
  links = 2;
  queue_depth = 2;
  resp_lookup_table = [];
  requests = crossbar;
  responses = empty_crossbar;
  ctrls = λ i. new_controller config no_queue;
}

rd64_known : response_form Packets.rd64 ≡ some (Packets.rd_rs, 5)
unfolding response_form
rd64_known = refl

insert_hmc_req-Outcome_example :
    Outcome
      (waiting 0 3)
      {form = (Packets.rd_rs, 5)}
      rd64_known
      cube
      (insert_hmc_req (waiting 0 3) cube)
insert_hmc_req-Outcome_example =
    insert_hmc_req-Outcome (waiting 0 3) {form = (Packets.rd_rs, 5)} rd64_known cube (omega arith)

accepted_as_announced :
    (s' : Cube) × (insert_hmc_req (waiting 0 3) cube ≡ some (cube_will_accept cube, s'))
accepted_as_announced =
    insert_hmc_req-will_accept (waiting 0 3) {form = (Packets.rd_rs, 5)} cube rd64_known
      (omega arith)

abbrev hmc_config : HmcConfig
hmc_config = record {
  num_links = 2;
  link_width = 16;
  link_speed = 15000;
  block_size = 64;
  xbar_queue_depth = 2;
}

-- The cube at its start.
abbrev idle : Cube
idle = record cube { requests = empty_crossbar }

-- The configuration of a cube.
abbrev cube_config : Config
cube_config = record config { protocol = hmc }

idle-Ready : Ready config idle
idle-Ready = record {
  links = omega arith;
  turn = omega arith;
  requests = record { holds = λ i h. h; waits = λ i h. h };
  responses = record { holds = λ i h. h; waits = λ i h. h };
  vaults = λ i. (tt, tt);
}

idle-Between : Between config idle
idle-Between = record {
  period = omega arith;
  slower = omega arith;
  behind = omega arith;
  near = omega arith;
  counts = refl;
}

cube_tick-Between_example :
    (all : List Call) × (s' : Cube) × (cube_tick config timing idle ≡ some (all, s'))
    × Ready config s'
    × Between config s'
    × (s'.dram_ps ≡ 800)
unfolding first_cycle latest_zsim_dramsim.Channel.RefreshQueue.is_refresh_waiting
cube_tick-Between_example =
    cube_tick-Between config timing idle idle-Ready idle-Between (omega arith) refl
