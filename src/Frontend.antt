-- ===== src/Frontend.antt =====
-- The frontend's client of the API: the session, the requests and their errors, and the withdrawal
-- through an anchor (frontend/src/lib/api: session.ts, client.ts, sep24.ts).
pub mod Session
pub mod Client
pub mod Anchor
pub mod Laws
pub mod Backend
pub mod Refused
