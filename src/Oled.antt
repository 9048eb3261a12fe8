-- ===== src/Oled.antt =====
-- crates/bootycall-oled: the display of the appliance.
pub mod Framebuffer
pub mod Layout
pub mod Draw
pub mod Panel
pub mod Png
pub mod Page
pub mod Sample
pub mod Metrics
