-- ===== src/Ubifs.antt =====
-- Parts of the file system of modules/ubifs.
pub mod Key
pub mod Lpt
pub mod Lprops
