-- ===== src/Tests.antt =====
-- The theorems at concrete inputs.
mod Core
mod Dhcp
mod Wire
mod Tftp
mod Listener
mod Devices
mod Http
mod Routes
mod Images
mod Display
mod Suite
