-- ===== src/Orders/Payment.antt =====
-- The confirmation of a payment (`OrdersService.handleGcashPayment`), as a whole.
pub mod Reading
pub mod Refs
pub mod Concurrent
pub mod Laws
