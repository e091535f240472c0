-- ===== src/System.antt =====
-- src/dram_system.h and src/dram_system.cc: the memory systems above the controllers.
pub mod Ideal
pub mod Jedec
pub mod Served
pub mod Returned
pub mod Routed
pub mod Accounts
