-- ===== src/Stations.antt =====
-- The gaming stations: the package of their client, and what a page says of a station.
pub mod Package
pub mod Presentation
