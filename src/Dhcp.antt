-- ===== src/Dhcp.antt =====
-- crates/bootycall-dhcp/src/server.rs: the proxy-DHCP server.
pub mod Pxe
pub mod Route
pub mod Handler
