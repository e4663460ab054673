-- ===== src/Lib.antt =====
-- Kreav's backend: from a checkout to a settlement on Stellar.
--
-- A buyer orders a product (OrdersService.checkout), a payment provider's webhook confirms the
-- payment (OrdersController.handleGcashWebhook, OrdersService.handleGcashPayment), the event
-- `payment.received` starts the settlement (SettlementService.handlePaymentReceived), which invokes
-- the settlement contract through Soroban RPC (SorobanRpcService) and records the result; a start of
-- the backend recovers the orders that were left in between (StartupRecoveryService).
--
-- What each file models:
--   Base, Base/*: the shared types, tests, list lemmas, and the integers over the native numbers.
--   Store, Store/*: the tables of backend/prisma/schema.prisma as lists of rows, the operations
--     `findUnique` and `update` by key, and the queries that several services make.
--   App, App/*: a service call as a function of the database, the emitted events and the network's
--     state, with exceptions as results; Reads is about the calls that only read.
--   Orders: backend/src/orders/orders.service.ts; Orders/Machine is order-state-machine.ts,
--     Orders/Webhook is webhook-signature.ts with the endpoints of orders.controller.ts; Evolves is
--     how the orders table may change.
--   Stellar/Split, Stellar/Recording, Stellar/Settlement: backend/src/stellar/settlement.service.ts;
--     Split also holds the money helpers of integration/helpers/assertion.ts. Settlement/Verdict and
--     Settlement/Trust say which answers of the network lead to which ending.
--   Stellar/Rpc, Stellar/Horizon: backend/src/stellar/soroban-rpc.service.ts and horizon.service.ts.
--   Stellar/Sponsorship: backend/src/stellar/sponsorship.service.ts.
--   Contract: the settlement contract, smartcontract/src/lib.rs; Contract/Pays is about the
--     settlement that the backend sends to it.
--   Startup: backend/src/common/startup/startup-recovery.service.ts.
--   Products: backend/src/products/products.service.ts.
--   Wallets: backend/src/wallets/wallets.service.ts; Wallets/History is its `getTransactions`.
--   Withdrawals: backend/src/withdrawals/withdrawals.service.ts.
--   Anchor: backend/src/withdrawals/anchor/withdrawals-anchor.controller.ts and
--     anchor-sep24.service.ts.
--   Users: backend/src/users/users.service.ts; Site: backend/src/site/site.service.ts; Site/Public
--     is the public page of users.service.ts.
--   Auth: backend/src/auth/auth.service.ts, auth.controller.ts and jwt-auth.guard.ts; Accounts is
--     the calls that write the table of users, in any order.
--   Analytics: backend/src/analytics/analytics.service.ts.
--   App/Filter: backend/src/common/exceptions/domain-exception.filter.ts.
--   Frontend: frontend/src/lib/api/session.ts (Session), client.ts (Client) and sep24.ts (Anchor);
--     Frontend/Backend puts the backend's handlers behind its requests.
--   System: the order pipeline as one step relation.
--   Tests: concrete runs.
--
-- Parameters: the Stellar SDK's RPC server and Horizon server answer from a state of the network of
-- any type and may change it, or throw; nothing is assumed of them. So do the SDK's XDR, the
-- submission of transactions and the anchor's HTTP endpoints; that XDR is read as what was written is
-- a hypothesis, where it is needed. The token that the settlement contract transfers is any state
-- with a transfer that may trap. HMAC-SHA256, the digest of a challenge, the checks of the SDK's
-- WebAuth and the JWT library are functions. The browser's wallet is any function that may change the
-- network. New ids and the time are arguments, but for Auth, whose
-- timers run on a clock of its own.
--
-- Bounds: amounts are natural numbers of cents or of base units (1 cent is 100000 base units), as
-- Decimal and BigInt are exact; what a BigInt subtraction leaves may be negative and is an integer.
-- The contract's i128 has its overflow checks. The poll has the 30 attempts, and the retry loops the
-- 3 attempts of the source, as structural recursion; no loop is bounded by fuel.
--
-- Not modelled: HTTP, validation of request bodies, logs, mail, links to an explorer, the building
-- of the login challenge, which only calls the SDK, and the frontend's pages, which present what
-- the backend answers. A service call runs to its end before the next step of System;
-- Orders/Payment/Concurrent has the reading and the writing half of a confirmation interleaved. A
-- settlement's row is made in base units, and its amounts are rounded to cents when it is stored.
-- One time stands for the createdAt of a settlement and of its recipients' rows, which one nested
-- create writes. The lifetimes of the contract's storage entries are left out.
pub mod Base
pub mod Orders
pub mod Store
pub mod Stellar
pub mod Startup
pub mod Wallets
pub mod Users
pub mod Site
pub mod Auth
pub mod Anchor
pub mod Analytics
pub mod Contract
pub mod Frontend
pub mod Accounts
pub mod Products
pub mod Withdrawals
pub mod System
pub mod Tests
pub mod App
