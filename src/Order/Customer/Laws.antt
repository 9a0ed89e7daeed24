-- ===== src/Order/Customer/Laws.antt =====
-- What the customer's cart guarantees: the lock of an open attempt, its one request, the valid
-- quantities, and the stored draft.
pub mod Quantities
pub mod Invariant
pub mod Attempts
pub mod Settled
pub mod RoundTrip
