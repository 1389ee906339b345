-- ===== src/Uftl.antt =====
-- The flash translation layer of modules/uftl: block device sectors over a UBI volume.
pub mod Types
pub mod Arrays
pub mod Flash
pub mod Pages
pub mod Gc
pub mod Sync
pub mod Io
pub mod Index
pub mod Init
pub mod Frame
pub mod Buffers
pub mod FindBuf
pub mod Claim
pub mod WriteRead
pub mod Faults
pub mod IntArray
pub mod PageLog
mod Tests
