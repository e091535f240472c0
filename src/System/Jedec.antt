-- ===== src/System/Jedec.antt =====
-- `JedecDRAMSystem` of src/dram_system.cc: a controller for each channel. A call of a callback is the
-- address and whether it is a write. The printing of the epochs is not modelled.
use latest_zsim_dramsim.Prelude.{
  ℕ, zero, suc, ◌+◌, Bool, ltb, if◌then◌else◌, List, [], ◌∷◌, ◌++◌, length, Option, none, some,
  ◌>>=◌, for_range, for_range?,
}
use latest_zsim_dramsim.Common.{new_transaction, u64}
use latest_zsim_dramsim.Config.{Config, is_hmc}
use latest_zsim_dramsim.Config.Mapping.{get_channel}
use latest_zsim_dramsim.Timing.{Timing}
use latest_zsim_dramsim.Channel.{put}
use latest_zsim_dramsim.Queue.{new_command_queue}
use latest_zsim_dramsim.Controller.{
  Controller, new_controller, will_accept_transaction, add_transaction, return_done_trans,
}
use latest_zsim_dramsim.Controller.Tick.{tick}

abbrev pub Call : Type 0
Call = ℕ × Bool

pub record JedecSystem : Type 0 where
  pub clk : ℕ
  pub last_req_clk : ℕ
  pub concurrent_serve : ℕ
  pub active_cycles : ℕ
  pub ctrls : ℕ → Controller

-- The inner loop of `ClockTick`: a controller is asked until it has nothing more to return.
unfoldable pub return_all : ℕ → Controller → ℕ → List Call × Controller
unfolding return_done_trans
return_all zero c clk = ([], c)
return_all (suc rounds) c clk =
    let (answer, c') = return_done_trans c clk in
    let rest = return_all rounds c' clk in
    elim answer [ none ↦ ([], c') | some call ↦ (call ∷ rest.0, rest.1) ]

module _ (config : Config) where
  abbrev pub channel? : ℕ → Option ℕ
  channel? hex_addr =
      let i = get_channel config hex_addr in if ltb i config.channels then some i else none

  -- `JedecDRAMSystem::JedecDRAMSystem`, of a configuration with a channel: the controllers are all alike.
  -- The configuration of an HMC ends the process.
  unfoldable pub new_jedec : Option JedecSystem
  unfolding new_command_queue
  new_jedec = if is_hmc config then none else do
    q ← new_command_queue config.queue_structure
    some (record {
      clk = 0;
      last_req_clk = 0;
      concurrent_serve = 0;
      active_cycles = 0;
      ctrls = λ i. new_controller config q;
    })

  -- `JedecDRAMSystem::WillAcceptTransaction`
  unfoldable pub jedec_will_accept : JedecSystem → ℕ → Bool → Option Bool
  unfolding get_channel will_accept_transaction
  jedec_will_accept s hex_addr is_write = do
    i ← channel? hex_addr
    some (will_accept_transaction config (s.ctrls i) is_write)

  -- `JedecDRAMSystem::AddTransaction`; a transaction that is not accepted ends the process at the
  -- `assert`.
  unfoldable pub jedec_add : JedecSystem → ℕ → Bool → Option JedecSystem
  unfolding get_channel will_accept_transaction add_transaction
  jedec_add s hex_addr is_write = do
    i ← channel? hex_addr
    let c = add_transaction config (s.ctrls i) (new_transaction hex_addr is_write)
    if will_accept_transaction config (s.ctrls i) is_write
        then some (record s { ctrls = put s.ctrls i c; last_req_clk = s.clk })
        else none

  -- One controller of the first loop of `ClockTick`.
  abbrev pub return_channel : ℕ → List Call × JedecSystem → List Call × JedecSystem
  return_channel i (calls, s) =
      let c = s.ctrls i in
      let r = return_all (suc (length c.return_queue)) c s.clk in
      (calls ++ r.0, record s { ctrls = put s.ctrls i r.1 })

  -- What a controller adds to the system's counters.
  abbrev pub count_active : Controller → JedecSystem → JedecSystem
  count_active c s =
      if c.is_active_cycles
      then record s {
        active_cycles = u64 (s.active_cycles + 1);
        concurrent_serve = u64 (s.concurrent_serve + c.concurrent_serve);
      }
      else s

  -- One controller of the second loop.
  unfoldable pub tick_channel : Timing → ℕ → JedecSystem → Option JedecSystem
  unfolding tick
  tick_channel timing i s = do
    c ← tick config timing (s.ctrls i)
    some (count_active c (record s { ctrls = put s.ctrls i c }))

  -- `JedecDRAMSystem::ClockTick`
  unfoldable pub jedec_tick : Timing → JedecSystem → Option (List Call × JedecSystem)
  unfolding for_range for_range? return_all tick_channel
  jedec_tick timing s = do
    let (calls, s') = for_range config.channels 0 return_channel ([], s)
    s'' ← for_range? config.channels 0 (tick_channel timing) s'
    some (calls, record s'' { clk = u64 (s''.clk + 1) })
