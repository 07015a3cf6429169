-- ===== src/Pool.antt =====
-- pkg/pool: capacity accounting, placement, provider observations and configuration of a pool of
-- parent filesystems.
pub mod Errors
pub mod Ratio
pub mod Arithmetic
pub mod Capacity
pub mod StatFs
pub mod Config
pub mod Selection
pub mod Refresh
mod Examples
