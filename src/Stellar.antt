-- ===== src/Stellar.antt =====
-- backend/src/stellar.
pub mod Split
pub mod Horizon
pub mod Rpc
pub mod Recording
pub mod Settlement
pub mod Sponsorship
