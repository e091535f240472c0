-- ===== src/Hmc.antt =====
-- src/hmc.h and src/hmc.cc: the hybrid memory cube. `Packets` has the packets of the links, `Crossbar`
-- the two directions of the crossbar, `Links` the insertion, `Cube` the system and its clocks.
pub mod Packets
pub mod Crossbar
pub mod Cube
