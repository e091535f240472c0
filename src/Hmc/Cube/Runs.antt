-- ===== src/Hmc/Cube/Runs.antt =====
-- The runs of `HMCMemorySystem` (src/hmc.cc): insertions and cycles in any order.
use latest_zsim_dramsim.Prelude.{ℕ, ◌<◌, ◌≡◌, Bool, List, some}
use latest_zsim_dramsim.Config.{Config, HmcConfig}
use latest_zsim_dramsim.Config.Mapping.{get_channel}
use latest_zsim_dramsim.Timing.{Timing}
use latest_zsim_dramsim.Controller.{Controller}
use latest_zsim_dramsim.System.Jedec.{Call}
use latest_zsim_dramsim.Hmc.Cube.{Cube, new_cube, cube_add}
use latest_zsim_dramsim.Hmc.Cube.Ready.{Ready}
use latest_zsim_dramsim.Hmc.Cube.Cycle.{cube_tick}

module _ (config : Config) (timing : Timing) (h : HmcConfig) where
  -- Every order of insertions and cycles that go on, for addresses of vaults there are.
  pub data CubeRun : Cube → Type 0 where
    start :
        {s : Cube} (ctrls : ℕ → Controller)
        → 0 < h.num_links
        → new_cube config h ctrls ≡ some s
        → CubeRun s
    added :
        {s s' : Cube} {ok : Bool} (hex_addr : ℕ) (is_write : Bool)
        → CubeRun s
        → get_channel config hex_addr < config.channels
        → cube_add config h hex_addr is_write s ≡ some (ok, s')
        → CubeRun s'
    ticked :
        {s s' : Cube} {calls : List Call}
        → CubeRun s
        → cube_tick config timing s ≡ some (calls, s')
        → CubeRun s'
