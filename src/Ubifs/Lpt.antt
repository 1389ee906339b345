-- ===== src/Ubifs/Lpt.antt =====
-- modules/ubifs/lpt.c: the tree of LEB properties on the flash.
pub mod BitFields
pub mod Types
pub mod Geometry
pub mod Pack
pub mod Unpack
pub mod Dirt
pub mod Check
mod Sound
mod Numbers
mod Tables
mod Shifts
mod Layers
mod RoundTrip
mod Fit
mod Tests
pub mod Sample
