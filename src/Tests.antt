-- ===== src/Tests.antt =====
-- The theorems at concrete inputs.
mod Setting
mod Files
mod Scans
mod Scanners
mod Pools
mod Nexts
mod Sessions
mod Leftovers
mod Runs
mod Reals
mod Mappings
