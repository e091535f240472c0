-- ===== src/Cpu/Systems.antt =====
-- What the front ends of src/cpu.cc call: `MemorySystem` of src/memory_system.cc, which passes its calls
-- on to the system that the protocol asks for. The front ends ignore the callbacks.
use latest_zsim_dramsim.Prelude.{ℕ, Bool, List, ◌++◌, [], ◌∷◌, Option, some, ◌>>=◌}
use latest_zsim_dramsim.Config.{Config, HmcConfig}
use latest_zsim_dramsim.Timing.{Timing}
use latest_zsim_dramsim.System.Jedec.{JedecSystem, jedec_tick, jedec_will_accept, jedec_add}
use latest_zsim_dramsim.Hmc.Cube.{Cube, cube_will_accept, cube_add}
use latest_zsim_dramsim.Hmc.Cube.Cycle.{cube_tick}

-- The operations, on the states `S` of a memory system.
pub record Memory (S : Type 0) : Type 0 where
  pub clock_tick : S → Option S
  pub will_accept : ℕ → Bool → S → Option Bool
  pub add : ℕ → Bool → S → Option S

-- `dram_system_`: the ideal system is another build.
pub data DramSystem : Type 0 where
  jedec : JedecSystem → DramSystem
  hmc : Cube → DramSystem

module _ (config : Config) (h : HmcConfig) (timing : Timing) where
  -- `MemorySystem::ClockTick`
  unfoldable pub system_tick : DramSystem → Option DramSystem
  unfolding jedec_tick cube_tick
  system_tick (jedec s) = do (calls, s') ← jedec_tick config timing s; some (jedec s')
  system_tick (hmc s) = do (calls, s') ← cube_tick config timing s; some (hmc s')

  -- `MemorySystem::WillAcceptTransaction`
  unfoldable pub system_will_accept : ℕ → Bool → DramSystem → Option Bool
  unfolding jedec_will_accept cube_will_accept
  system_will_accept hex_addr is_write (jedec s) = jedec_will_accept config s hex_addr is_write
  system_will_accept hex_addr is_write (hmc s) = some (cube_will_accept s)

  -- `MemorySystem::AddTransaction`
  unfoldable pub system_add : ℕ → Bool → DramSystem → Option DramSystem
  unfolding jedec_add cube_add
  system_add hex_addr is_write (jedec s) = do
    s' ← jedec_add config s hex_addr is_write
    some (jedec s')
  system_add hex_addr is_write (hmc s) = do
    (accepted, s') ← cube_add config h hex_addr is_write s
    some (hmc s')

  abbrev pub memory_system : Memory DramSystem
  memory_system = record {
    clock_tick = system_tick;
    will_accept = system_will_accept;
    add = system_add;
  }

-- A memory that keeps what was added to it, in order.
abbrev pub logged : {S : Type 0} → Memory S → Memory (List (ℕ × Bool) × S)
logged m = record {
  clock_tick = λ x. m.clock_tick x.1 >>= λ s. some (x.0, s);
  will_accept = λ hex_addr is_write x. m.will_accept hex_addr is_write x.1;
  add = λ hex_addr is_write x.
      m.add hex_addr is_write x.1 >>= λ s. some (x.0 ++ (hex_addr, is_write) ∷ [], s);
}
