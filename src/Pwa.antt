-- ===== src/Pwa.antt =====
-- What the application keeps on the device.
pub mod Storage
