-- ===== src/Ubi.antt =====
-- modules/ubi: volumes of logical eraseblocks on a raw flash.
pub mod Rb
pub mod Scan
pub mod Eba
pub mod Misc
pub mod Upd
pub mod Change
pub mod Tests
