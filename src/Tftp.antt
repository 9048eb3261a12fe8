-- ===== src/Tftp.antt =====
-- crates/bootycall-tftp: the TFTP server.
pub mod Wire
pub mod Request
pub mod Negotiate
pub mod Reader
pub mod Blocks
pub mod Session
pub mod Loop
pub mod Handshake
pub mod Transfer
pub mod Listener
