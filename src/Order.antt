-- ===== src/Order.antt =====
-- Ordering by customers: the cart, its stored draft, and the submission of an order.
pub mod Types
pub mod Cart
pub mod Customer
pub mod Workflow
pub mod Tests
