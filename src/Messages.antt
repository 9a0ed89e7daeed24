-- ===== src/Messages.antt =====
-- What the parts of the program tell the user about a failed request.
pub mod Chain
pub mod Booking
pub mod Waitlist
pub mod Settings
pub mod Station
pub mod Orders
pub mod Laws
mod Tests
