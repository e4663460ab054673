-- ===== src/Orders.antt =====
-- backend/src/orders: the service's checkout and payment confirmation (orders.service.ts).
pub mod Reads
pub mod Machine
pub mod Evolves
pub mod Payment
pub mod Webhook
pub mod Checkout
use kreav.Base.{
  ℕ, String, Bool, true, false, not, ◌&&◌, Option, none, some, List, [], ◌∷◌, ◌++◌, ◌==◌,
  if◌then◌else◌, is_some, any,
}
use kreav.App.{
  App, Exn, not_found, other, invalid_transition, unique_violation, payment_received,
  wallet_connect_required, Event, pure, throw, gets, modify, emit, throw_if, or_throw, try_catch,
  ◌>>=◌, ◌>>◌,
}
use kreav.Orders.Machine.{OrderStatus, can_transition}
use kreav.Store.{Db, Order, Product, is_active, Wallet}
use kreav.Store.Table.{update_by}
use kreav.Store.Query.{
  order_id, find_order, find_product, find_wallet_of, find_ref, has_ref, set_orders,
}

-- `status: 'ACTIVE'` in the query for the product.
pub find_active_product : String → Db → Option Product
find_active_product id d = elim (find_product id d) [
  | none ↦ none
  | some p ↦ if is_active p.status then some p else none
]

abbrev pub new_order : String → String → String → Product → Order
new_order id product_id buyer_email p = record {
  id = id;
  product_id = product_id;
  buyer_email = buyer_email;
  amount_usd = p.price_usd;
  status = OrderStatus.payment_pending;
  tx_hash = none;
  payment_ref = none;
}

-- `payment_ref === ref` on another order than `id`: what the unique index refuses.
abbrev is_taken : String → String → List Order → Bool
is_taken id ref = any (λ o. has_ref ref o && not (o.id == id))

abbrev pub claimed : OrderStatus → String → Order → Order
claimed status ref o = record o { status = status; payment_ref = some ref }

-- What a confirmation has read before it writes.
pub data Plan : Type 0 where
  duplicate : Plan
  confirm : Order → String → Option Wallet → Plan

abbrev pub target_state : Option Wallet → OrderStatus
target_state none = OrderStatus.waiting_wallet
target_state (some w) = OrderStatus.payment_received

abbrev pub announcement : String → Order → String → Option Wallet → Event
announcement ref o creator_id none = wallet_connect_required (record {
  order_id = o.id;
  creator_id = creator_id;
  amount_usd = o.amount_usd;
  payment_ref = ref;
})
announcement ref o creator_id (some w) = payment_received (record {
  order_id = o.id;
  amount_usd = o.amount_usd;
  creator_id = creator_id;
  wallet_address = some w.wallet_address;
  payment_ref = ref;
})

-- `err.code === 'P2002'`: another request claimed the reference first.
abbrev is_unique_violation : Exn → Bool
is_unique_violation unique_violation = true
is_unique_violation _ = false

module _ {N : Type 0} where
  -- `OrdersService.checkout`; `id` is the new row's uuid.
  pub checkout : String → String → String → App N (String × ℕ)
  unfolding find_active_product
  checkout id product_id buyer_email = do
    p ← or_throw (← gets (find_active_product product_id)) not_found
    modify (set_orders (λ os. os ++ new_order id product_id buyer_email p ∷ []))
    pure (id, p.price_usd)

  -- `order.update({ where: { id }, data: { status, paymentRef } })` under the unique index.
  unfoldable pub claim_order : String → String → OrderStatus → App N (Unit {0})
  claim_order id ref status = do
    or_throw (← gets (find_order id)) other
    throw_if (← gets (λ d. is_taken id ref d.orders)) unique_violation
    modify (set_orders (update_by order_id id (claimed status ref)))

  -- Past the check for a duplicate: the order, its creator's wallet, and the guard.
  unfoldable pub read_order : String → App N Plan
  read_order id = do
    o ← or_throw (← gets (find_order id)) not_found
    p ← or_throw (← gets (find_product o.product_id)) other
    wallet ← gets (find_wallet_of p.creator_id)
    throw_if (not (can_transition o.status (target_state wallet)))
        (invalid_transition o.status (target_state wallet))
    pure (confirm o p.creator_id wallet)

  -- The part of `handleGcashPayment` that reads.
  unfoldable pub plan_payment : String → String → App N Plan
  unfolding read_order
  plan_payment id ref = do
    existing ← gets (λ d. find_ref ref d.orders)
    elim existing [ some o ↦ pure duplicate | none ↦ read_order id ]

  -- The part that writes, on a database that other requests may have changed meanwhile.
  unfoldable pub commit_payment : String → Plan → App N (Unit {0})
  unfolding claim_order
  commit_payment ref duplicate = pure tt
  commit_payment ref (confirm o creator_id wallet) =
      try_catch
        (do claim_order o.id ref (target_state wallet); emit (announcement ref o creator_id wallet))
        (λ e. if is_unique_violation e then pure tt else throw e)

  -- `OrdersService.handleGcashPayment`; it answers `{ status: 'paid', orderId }`.
  unfoldable pub handle_gcash_payment : String → String → App N String
  unfolding plan_payment commit_payment
  handle_gcash_payment id ref = do plan ← plan_payment id ref; commit_payment ref plan; pure id
