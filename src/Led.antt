-- ===== src/Led.antt =====
-- The LED driver of section-08/lab/led_device and the program that uses it.
pub mod Device
pub mod Files
pub mod Control
mod Examples
