-- ===== src/Calendar.antt =====
-- The weekly calendar: which column an event is drawn in, and at which row.
pub mod Weekly
