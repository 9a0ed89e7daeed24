-- ===== src/Audit.antt =====
-- The comparison and the display of the states of a resource in the audit log.
pub mod Diff
pub mod Lines
