-- ===== src/Hmc/Cube.antt =====
-- `HMCMemorySystem` of src/hmc.h and src/hmc.cc: its state, the clocks' ratio and the insertion of
-- requests. The two directions of the crossbar hold the link and the quad queues; the multimap of the
-- responses is a list in the order of insertion, of which `find` takes the first with the key.
pub mod Inserted
pub mod Ready
pub mod Vaults
pub mod Clocks
pub mod Runs
pub mod Cycle
use latest_zsim_dramsim.Prelude.{
  ℕ, zero, suc, ◌+◌, ◌/◌, ◌%◌, min, ltb, ◌==◌, if◌then◌else◌, Bool, true, false, List, [], ◌∷◌,
  ◌++◌, length, Option, none, some, ◌>>=◌, ◌>>◌, ◌||◌,
}
use latest_zsim_dramsim.Common.{u64}
use latest_zsim_dramsim.Config.{Config, HmcConfig, is_hmc}
use latest_zsim_dramsim.Config.Mapping.{get_channel}
use latest_zsim_dramsim.Channel.{put}
use latest_zsim_dramsim.Controller.{Controller}
use latest_zsim_dramsim.Hmc.Packets
use latest_zsim_dramsim.Hmc.Packets.{ReqType, Request, Response, new_request, new_response}
use latest_zsim_dramsim.Hmc.Crossbar.{Crossbar, empty_crossbar}

-- `requests` goes from the links to the quads, `responses` from the quads to the links.
pub record Cube : Type 0 where
  pub clk : ℕ
  pub last_req_clk : ℕ
  pub logic_clk : ℕ
  pub logic_ps : ℕ
  pub dram_ps : ℕ
  pub ps_per_dram : ℕ
  pub ps_per_logic : ℕ
  pub next_link : ℕ
  pub links : ℕ
  pub queue_depth : ℕ
  pub resp_lookup_table : List Response
  pub requests : Crossbar Request
  pub responses : Crossbar Response
  pub ctrls : ℕ → Controller

-- `ps_per_dram_`
abbrev pub dram_period : ℕ
dram_period = 800

-- `SetClockRatio`: the period of the logic. A division by 0 ends the process; the quotient of the
-- doubles is that of the integers, cut off.
unfoldable pub logic_period : HmcConfig → Option ℕ
logic_period h =
    let link_cycles_per_flit = 128 / h.link_width in
    let logic_speed = h.link_speed / link_cycles_per_flit in
    if (h.link_width == 0) || (link_cycles_per_flit == 0) || (logic_speed == 0)
    then none
    else some (min dram_period (1000000 / logic_speed))

-- `HMCMemorySystem::HMCMemorySystem`; a configuration that is not of an HMC ends the process.
unfoldable pub new_cube : Config → HmcConfig → (ℕ → Controller) → Option Cube
unfolding logic_period
new_cube config h ctrls =
    if is_hmc config
    then (do
      p ← logic_period h
      some (record {
        clk = 0;
        last_req_clk = 0;
        logic_clk = 0;
        logic_ps = 0;
        dram_ps = 0;
        ps_per_dram = dram_period;
        ps_per_logic = p;
        next_link = 0;
        links = h.num_links;
        queue_depth = h.xbar_queue_depth;
        resp_lookup_table = [];
        requests = empty_crossbar;
        responses = empty_crossbar;
        ctrls = ctrls;
      }))
    else none

-- `IterateNextLink`
abbrev pub iterate_next_link : Cube → Cube
iterate_next_link s = record s { next_link = (s.next_link + 1) % s.links }

abbrev pub has_room : Cube → ℕ → Bool
has_room s link = ltb (length (s.requests.input link)) s.queue_depth

-- The loop of `WillAcceptTransaction`.
unfoldable pub some_room : ℕ → ℕ → Cube → Bool
some_room zero i s = false
some_room (suc rounds) i s = if has_room s i then true else some_room rounds (i + 1) s

-- `HMCMemorySystem::WillAcceptTransaction`
unfoldable pub cube_will_accept : Cube → Bool
unfolding some_room
cube_will_accept s = some_room s.links 0 s

-- What a request and its response change at a link with room.
abbrev pub place : Request → Response → ℕ → Cube → Cube
place req resp link s = record s {
  requests = record s.requests {
    input = put s.requests.input link (s.requests.input link ++ record req { link = link } ∷ []);
    age = put s.requests.age link 1;
  };
  resp_lookup_table = s.resp_lookup_table ++ resp ∷ [];
  last_req_clk = s.clk;
}

-- `InsertReqToLink`; a link out of range is out of the vectors.
unfoldable pub insert_req_to_link : Request → ℕ → Cube → Option (Bool × Cube)
unfolding new_response
insert_req_to_link req link s =
    let made = (do
      resp ← new_response req.mem_operand req.req_type link req.quad
      some (true, place req resp link s)) in
    if ltb link s.links then if has_room s link then made else some (false, s) else none

-- The loop of `InsertHMCReq`, and its end without a link.
unfoldable pub insert_round : ℕ → ℕ → Request → Cube → Option (Bool × Cube)
unfolding insert_req_to_link
insert_round zero start_link req s = none
insert_round (suc fuel) start_link req s =
    let rest = (do
      (inserted, s') ← insert_req_to_link req s.next_link s
      let s'' = iterate_next_link s'
      if inserted then some (true, s'') else insert_round fuel start_link req s'') in
    if start_link == s.next_link then some (false, s) else rest

-- `InsertHMCReq`
unfoldable pub insert_hmc_req : Request → Cube → Option (Bool × Cube)
unfolding insert_req_to_link insert_round
insert_hmc_req req s = do
  (inserted, s') ← insert_req_to_link req s.next_link s
  let s'' = iterate_next_link s'
  if inserted then some (true, s'') else insert_round s.links s.next_link req s''

-- The type of a request of the configured block size; another size ends the process.
unfoldable pub block_type : ℕ → Bool → Option ReqType
block_type block_size is_write =
    if block_size == 0
    then some (if is_write then Packets.wr0 else Packets.rd0)
    else if block_size == 32
    then some (if is_write then Packets.wr32 else Packets.rd32)
    else if block_size == 64
    then some (if is_write then Packets.wr64 else Packets.rd64)
    else if block_size == 128
    then some (if is_write then Packets.wr128 else Packets.rd128)
    else if block_size == 256
    then some (if is_write then Packets.wr256 else Packets.rd256)
    else none

-- `HMCMemorySystem::AddTransaction`
unfoldable pub cube_add : Config → HmcConfig → ℕ → Bool → Cube → Option (Bool × Cube)
unfolding block_type get_channel new_request insert_hmc_req
cube_add config h hex_addr is_write s = do
  req_type ← block_type h.block_size is_write
  req ← new_request req_type hex_addr (get_channel config hex_addr)
  insert_hmc_req req s
