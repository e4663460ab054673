-- ===== src/Tests.antt =====
-- Concrete runs of the services.
pub mod Contract
pub mod Reads
pub mod Anchor
pub mod Frontend
pub mod Sponsorship
pub mod Site
pub mod Auth
pub mod Data
pub mod Orders
pub mod Stellar
pub mod Startup
pub mod Wallets
pub mod Products
pub mod Withdrawals
pub mod System
