-- ===== src/Booking.antt =====
-- Bookings: the types they share, and the dialog of the customer.
pub mod Types
pub mod BusinessTime
pub mod Customer
