-- ===== src/Gaming.antt =====
-- The gaming stations.
pub mod Station
