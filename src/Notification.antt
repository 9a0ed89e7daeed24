-- ===== src/Notification.antt =====
-- The notifications of a user.
pub mod Preferences
