-- ===== src/Sessions.antt =====
-- The signed-in devices of a user.
pub mod Dashboard
pub mod Presentation
