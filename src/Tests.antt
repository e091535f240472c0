-- ===== src/Tests.antt =====
-- Runs of the model at concrete inputs.
mod Sample
mod Bank
mod Channel
mod Window
mod Queue
mod Stats
mod Hmc
mod Cpu
mod Config
mod Controller
mod Refresh
mod System
