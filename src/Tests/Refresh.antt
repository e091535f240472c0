-- ===== src/Tests/Refresh.antt =====
-- Three bank refreshes.
use latest_zsim_dramsim.Prelude.{◌+◌, ◌%◌, ◌≡◌, some, arith}
use latest_zsim_dramsim.Refresh.{Refresh, new_refresh}
use latest_zsim_dramsim.Refresh.Rotation.{Turn, turn, total, iterate_times, rotation}
use latest_zsim_dramsim.Tests.Sample.{config}

rotation_example :
    (r : Refresh) × (iterate_times config 3 (new_refresh config) ≡ some r)
    × Turn config r
    × (turn config r ≡ (0 + 3) % total config)
rotation_example =
    rotation config 3 (new_refresh config)
      (record { rank = omega arith; bank = omega arith; bankgroup = omega arith })
