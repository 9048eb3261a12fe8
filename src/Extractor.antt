-- ===== src/Extractor.antt =====
-- crates/bootycall-extractor: reading boot images.
pub mod Slice
pub mod Copy
pub mod Sync
pub mod Cache
pub mod Walk
pub mod Artifact
pub mod Iso
pub mod Disk
pub mod Written
pub mod Images
