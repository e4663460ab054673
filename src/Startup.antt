-- ===== src/Startup.antt =====
-- The recovery of stuck orders when the backend starts
-- (backend/src/common/startup/startup-recovery.service.ts). Counters and logs are left out.
pub mod Ending
pub mod Steps
pub mod Pending
pub mod Laws
pub mod Evolves
pub mod Bootstrap
pub mod Lost
use Prim.Native.String
use kreav.Base.{
  ℕ, String, Bool, true, false, ◌||◌, Option, none, some, List, [], ◌∷◌, map, keep, ◌==◌,
  if◌then◌else◌,
}
use kreav.App.{App, Event, payment_received, pure, gets, emit, try_catch, ◌>>=◌, ◌>>◌}
use kreav.Orders.Machine.{OrderStatus, status_eq}
use kreav.Store.{Db, Order, Product, Wallet, Settlement}
use kreav.Store.Query.{find_product, find_wallet_of, find_settlement, update_order, with_status}
use kreav.Stellar.Horizon.{StellarConfig}
use kreav.Stellar.Rpc.{
  RpcServer, TxStatus, success, failed, not_found, get_transaction_status, is_settled,
}
use kreav.Stellar.Recording.{record_recovered_settlement}

abbrev pub is_stuck : OrderStatus → Bool
is_stuck s = status_eq s OrderStatus.payment_received || status_eq s OrderStatus.settlement_pending

-- `x-${order.id.slice(0, 8)}`
abbrev pub short_ref : String → String → String
short_ref prefix id = String.◌++◌ prefix (String.slice id 0 8)

-- `order.product?.creatorId ?? ''`
abbrev pub creator_of : Option Product → String
creator_of none = ""
creator_of (some p) = p.creator_id

abbrev pub ref_or : String → Option String → String
ref_or default none = default
ref_or default (some ref) = ref

abbrev address_of : Option Wallet → Option String
address_of none = none
address_of (some w) = some w.wallet_address

abbrev pub reannounced : Order → Option Product → Option Wallet → String → Event
reannounced o p wallet ref = payment_received (record {
  order_id = o.id;
  amount_usd = o.amount_usd;
  creator_id = creator_of p;
  wallet_address = address_of wallet;
  payment_ref = ref;
})

abbrev pub rolled_back : Order → Order
rolled_back o = record o { status = OrderStatus.payment_received; tx_hash = none }

-- The stuck orders, each with its product.
abbrev pub stuck_orders : Db → List (Order × Option Product)
stuck_orders d =
    map (λ (o : Order). (o, find_product o.product_id d))
      (keep (λ (o : Order). is_stuck o.status) d.orders)

module _ {N : Type 0} where
  -- `recoverPaymentReceived`
  pub recover_payment_received : Order → Option Product → App N Bool
  recover_payment_received o p = do
    wallet ← gets (find_wallet_of (creator_of p))
    emit (reannounced o p wallet (ref_or (short_ref "recovery-" o.id) o.payment_ref))
    pure true

  -- Marks the order and reports it as not recovered.
  unfoldable pub give_up : Order → App N Bool
  give_up o = do update_order o.id (with_status OrderStatus.settlement_failed); pure false

  unfoldable pub record_as : Order → String → App N Bool
  record_as o tx_hash = do record_recovered_settlement o.id tx_hash; pure true

  -- Still NOT_FOUND after the second check.
  pub roll_back : Order → Option Product → App N Bool
  roll_back o p = do
    update_order o.id rolled_back
    emit (reannounced o p none (short_ref "recovery-" o.id))
    pure true

  -- The transaction succeeded.
  pub confirm_found : Order → String → Option Settlement → App N Bool
  unfolding record_as
  confirm_found o tx_hash (some s) = do
    update_order o.id (with_status OrderStatus.settled)
    pure true
  confirm_found o tx_hash none = record_as o tx_hash

  -- The second check of a transaction's status; none when it settles nothing.
  pub on_retry : Order → String → TxStatus → App N (Option Bool)
  unfolding record_as give_up
  on_retry o tx_hash success = do b ← record_as o tx_hash; pure (some b)
  on_retry o tx_hash failed = do b ← give_up o; pure (some b)
  on_retry o tx_hash not_found = pure none

module _ {N : Type 0} (config : StellarConfig) (rpc : RpcServer N) where
  -- `recoverSettlementPending` without a hash: the `try` block, which says whether it returned.
  unfoldable pub recover_marked : Order → App N Bool
  unfolding record_as
  recover_marked o =
      try_catch
        (do
          settled ← is_settled config rpc o.id
          if settled then record_as o (short_ref "unknown-" o.id) else pure false)
        (λ e. pure false)

  unfoldable pub recover_unhashed : Order → App N Bool
  unfolding recover_marked give_up
  recover_unhashed o = do recovered ← recover_marked o; if recovered then pure true else give_up o

  -- The `try` block around the second check.
  pub recheck : Order → String → App N (Option Bool)
  unfolding on_retry
  recheck o tx_hash =
      try_catch (do status ← get_transaction_status config rpc tx_hash; on_retry o tx_hash status)
        (λ e. pure none)

  -- What follows the first check of a transaction's status.
  pub on_first : Order → Option Product → String → TxStatus → App N Bool
  unfolding confirm_found give_up recheck roll_back
  on_first o p tx_hash success = do
    existing ← gets (find_settlement o.id)
    confirm_found o tx_hash existing
  on_first o p tx_hash failed = give_up o
  on_first o p tx_hash not_found = do
    answered ← recheck o tx_hash
    elim answered [ some b ↦ pure b | none ↦ roll_back o p ]

  -- `recoverSettlementPending` with a hash.
  pub recover_hashed : Order → Option Product → String → App N Bool
  unfolding on_first
  recover_hashed o p tx_hash =
      try_catch (do status ← get_transaction_status config rpc tx_hash; on_first o p tx_hash status)
        (λ e. pure false)

  -- `recoverSettlementPending`, by `order.txHash`.
  unfoldable pub recover_settlement_pending : Order → Option Product → Option String → App N Bool
  unfolding recover_unhashed recover_hashed
  recover_settlement_pending o p none = recover_unhashed o
  recover_settlement_pending o p (some tx_hash) =
      if tx_hash == "" then recover_unhashed o else recover_hashed o p tx_hash

  -- `recoverOrder`, by the order's status.
  unfoldable pub recover_by_status : Order → Option Product → OrderStatus → App N Bool
  unfolding recover_payment_received recover_settlement_pending
  recover_by_status o p OrderStatus.payment_received = recover_payment_received o p
  recover_by_status o p OrderStatus.settlement_pending = recover_settlement_pending o p o.tx_hash
  recover_by_status o p _ = pure false

  abbrev pub recover_order : Order → Option Product → App N Bool
  recover_order o p = recover_by_status o p o.status

  -- The loop over the stuck orders: an error of one does not stop the others.
  pub recover_all : List (Order × Option Product) → App N (Unit {0})
  recover_all [] = pure tt
  recover_all ((o, p) ∷ more) = do try_catch (recover_order o p) (λ e. pure false); recover_all more

  -- `onApplicationBootstrap`
  pub on_application_bootstrap : App N (Unit {0})
  unfolding recover_all
  on_application_bootstrap = do stuck ← gets stuck_orders; recover_all stuck
