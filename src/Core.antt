-- ===== src/Core.antt =====
-- crates/bootycall-core: what the servers share.
pub mod Mac
pub mod HostMap
pub mod Store
pub mod Net
pub mod Config
pub mod Path
