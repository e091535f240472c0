-- ===== src/Hmc/Cube/Cycle.antt =====
-- The cycles of `HMCMemorySystem` (src/hmc.cc): the crossbar and the vaults. A call of a callback is the
-- address and whether it is a write. The printing of the epochs is not modelled.
use latest_zsim_dramsim.Prelude.{
  ℕ, zero, suc, ◌+◌, ◌-◌, ltb, leb, ◌==◌, if◌then◌else◌, Bool, true, false, ◌&&◌, List, [], ◌∷◌,
  ◌++◌, length, Option, none, some, ◌>>=◌, for_range, for_range?,
}
use latest_zsim_dramsim.Common.{u64, new_transaction}
use latest_zsim_dramsim.Config.{Config}
use latest_zsim_dramsim.Timing.{Timing}
use latest_zsim_dramsim.Channel.{put}
use latest_zsim_dramsim.Controller.{will_accept_transaction, add_transaction}
use latest_zsim_dramsim.Controller.Tick.{tick}
use latest_zsim_dramsim.System.Jedec.{Call, return_all}
use latest_zsim_dramsim.Hmc.Packets
use latest_zsim_dramsim.Hmc.Packets.{RespType, Request, Response}
use latest_zsim_dramsim.Hmc.Crossbar.{drain_crossbar}
use latest_zsim_dramsim.Hmc.Cube.{Cube}

abbrev pub stamp_request : ℕ → Request → Request
stamp_request t r = record r { exit_time = t }

abbrev pub stamp_response : ℕ → Response → Response
stamp_response t r = record r { exit_time = t }

-- The callback for a response: anything but a read is a write.
abbrev pub is_write_call : RespType → Bool
is_write_call Packets.rd_rs = false
is_write_call _ = true

-- One link of the first loop of `DrainResponses`.
unfoldable pub return_front : ℕ → List Call × Cube → List Call × Cube
return_front i (calls, s) = elim (s.responses.output i) [
  | [] ↦ (calls, s)
  | resp ∷ rest ↦
      let s' = record s {
        responses = record s.responses { output = put s.responses.output i rest };
      } in
      if leb resp.exit_time s.logic_clk
      then (calls ++ (resp.resp_id, is_write_call resp.resp_type) ∷ [], s')
      else (calls, s)
]

-- `DrainResponses`
unfoldable pub drain_responses : Cube → Option (List Call × Cube)
unfolding for_range return_front drain_crossbar
drain_responses s = do
  let (calls, s') = for_range s.links 0 return_front ([], s)
  responses ←
      drain_crossbar (λ (r : Response). r.link) (λ (r : Response). r.flits) stamp_response
        s'.queue_depth s'.logic_clk 4 s'.responses
  some (calls, record s' { responses = responses })

-- `logic_ps_ += ps_per_logic_; logic_clk_ += 1`
abbrev pub advance_logic : Cube → Cube
advance_logic s = record s {
  logic_ps = u64 (s.logic_ps + s.ps_per_logic);
  logic_clk = u64 (s.logic_clk + 1);
}

module _ (config : Config) where
  -- `InsertReqToDRAM`, and the request leaves its quad.
  abbrev pub insert_req_to_dram : ℕ → Request → List Request → Cube → Cube
  insert_req_to_dram i req rest s = record s {
    requests = record s.requests { output = put s.requests.output i rest };
    ctrls =
        put s.ctrls req.vault (
          add_transaction config (s.ctrls req.vault)
            (new_transaction req.mem_operand req.is_write));
  }

  -- One quad of the first loop of `DrainRequests`; a vault out of range is out of `ctrls_`.
  unfoldable pub drain_quad : ℕ → Cube → Option Cube
  unfolding will_accept_transaction add_transaction
  drain_quad i s = elim (s.requests.output i) [
    | [] ↦ some s
    | req ∷ rest ↦
        let accepted = will_accept_transaction config (s.ctrls req.vault) req.is_write in
        let sent = if accepted then insert_req_to_dram i req rest s else s in
        if ltb (length (s.responses.input i)) s.queue_depth && leb req.exit_time s.logic_clk
        then if ltb req.vault config.channels then some sent else none
        else some s
  ]

  -- `DrainRequests`
  unfoldable pub drain_requests : Cube → Option Cube
  unfolding for_range? drain_quad drain_crossbar
  drain_requests s = do
    s' ← for_range? 4 0 drain_quad s
    requests ←
        drain_crossbar (λ (r : Request). r.quad) (λ (r : Request). r.flits) stamp_request
          s'.queue_depth s'.logic_clk s'.links s'.requests
    some (record s' { requests = requests })

  -- `find` and `erase` of the multimap.
  unfoldable pub take_response : ℕ → List Response → Option (Response × List Response)
  take_response req_id [] = none
  take_response req_id (resp ∷ table) =
      let rest = (do (found, table') ← take_response req_id table; some (found, resp ∷ table')) in
      if resp.resp_id == req_id then some (resp, table) else rest

  -- `VaultCallback`; with no response of the key the end of the table is read.
  unfoldable pub vault_callback : ℕ → Cube → Option Cube
  unfolding take_response
  vault_callback req_id s = do
    (resp, table) ← take_response req_id s.resp_lookup_table
    some (record s {
      resp_lookup_table = table;
      responses = record s.responses {
        input = put s.responses.input resp.quad (s.responses.input resp.quad ++ resp ∷ []);
        age = put s.responses.age resp.quad 1;
      };
    })

  unfoldable pub vault_callbacks : List Call → Cube → Option Cube
  unfolding vault_callback
  vault_callbacks [] s = some s
  vault_callbacks (call ∷ calls) s = vault_callback call.0 s >>= vault_callbacks calls

  -- One vault of the first loop of `DRAMClockTick`. A callback leaves the controllers alone, so all of
  -- a vault's answers are collected first.
  unfoldable pub return_vault : ℕ → Cube → Option Cube
  unfolding return_all vault_callbacks
  return_vault i s =
      let c = s.ctrls i in
      let r = return_all (suc (length c.return_queue)) c s.clk in
      vault_callbacks r.0 (record s { ctrls = put s.ctrls i r.1 })

  unfoldable pub tick_vault : Timing → ℕ → Cube → Option Cube
  unfolding tick
  tick_vault timing i s = do
    c ← tick config timing (s.ctrls i)
    some (record s { ctrls = put s.ctrls i c })

  -- `DRAMClockTick`
  unfoldable pub dram_clock_tick : Timing → Cube → Option Cube
  unfolding for_range? return_vault tick_vault
  dram_clock_tick timing s = do
    s' ← for_range? config.channels 0 return_vault s
    s'' ← for_range? config.channels 0 (tick_vault timing) s'
    some (record s'' { clk = u64 (s''.clk + 1) })

  -- One round of the loop of `ClockTick`.
  unfoldable pub logic_cycle : List Call × Cube → Option (List Call × Cube)
  unfolding drain_responses drain_requests
  logic_cycle (calls, s) = do
    (more, s') ← drain_responses s
    s'' ← drain_requests s'
    some (calls ++ more, advance_logic s'')

  -- The loop of `ClockTick`, and its end without fuel.
  unfoldable pub catch_up : ℕ → List Call × Cube → Option (List Call × Cube)
  unfolding logic_cycle
  catch_up zero (calls, s) = none
  catch_up (suc fuel) (calls, s) =
      let rest = logic_cycle (calls, s) >>= catch_up fuel in
      if ltb s.logic_ps (u64 (s.dram_ps + s.ps_per_dram)) then rest else some (calls, s)

  -- The first part of `ClockTick`.
  unfoldable pub first_cycle : Timing → Cube → Option (List Call × Cube)
  unfolding drain_responses dram_clock_tick drain_requests
  first_cycle timing s =
      let both = (do
        (calls, s') ← drain_responses s
        s'' ← dram_clock_tick timing s'
        s''' ← drain_requests s''
        some (calls, advance_logic s''')) in
      let only = (do s' ← dram_clock_tick timing s; some ([], s')) in
      if s.dram_ps == s.logic_ps then both else only

  -- `HMCMemorySystem::ClockTick`. The loop runs once for each picosecond at most.
  unfoldable pub cube_tick : Timing → Cube → Option (List Call × Cube)
  unfolding first_cycle catch_up
  cube_tick timing s = do
    (calls, s') ← first_cycle timing s
    (all, s'') ← catch_up (suc (s'.dram_ps + s'.ps_per_dram - s'.logic_ps)) (calls, s')
    some (all, record s'' { dram_ps = u64 (s''.dram_ps + s''.ps_per_dram) })
