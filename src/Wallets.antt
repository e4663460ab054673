-- ===== src/Wallets.antt =====
-- Connecting a wallet (`WalletsService.connect`, backend/src/wallets/wallets.service.ts), which
-- resumes the orders that wait for it.
pub mod Laws
pub mod History
use kreav.Base.{
  ℕ, String, Bool, true, false, ◌&&◌, Option, none, some, List, [], ◌∷◌, ◌++◌, map, keep, ◌==◌,
  is_some, if◌then◌else◌,
}
use kreav.App.{
  App, Event, Exn, payment_received, not_found, conflict, unique_violation, pure, throw, gets,
  modify, emit, throw_if, or_throw, try_catch, ◌>>=◌, ◌>>◌,
}
use kreav.Orders.Machine.{OrderStatus, status_eq}
use kreav.Store.{Db, Product, Wallet, Order}
use kreav.Store.Table.{find_by}
use kreav.Store.Query.{user_id, find_product, find_wallet}
use kreav.Startup.{ref_or}
use Prim.Native.String

abbrev owned_by : String → Option Product → Bool
owned_by creator_id none = false
owned_by creator_id (some p) = p.creator_id == creator_id

-- `order.findMany({ where: { product: { creatorId }, status: 'WAITING_WALLET' } })`
abbrev pub is_waiting_for : String → Db → Order → Bool
is_waiting_for creator_id d o =
    owned_by creator_id (find_product o.product_id d)
    && status_eq o.status OrderStatus.waiting_wallet

abbrev pub waiting_orders : String → Db → List Order
waiting_orders creator_id d = keep (is_waiting_for creator_id d) d.orders

abbrev pub resumed : String → String → Order → Event
resumed creator_id address o = payment_received (record {
  order_id = o.id;
  amount_usd = o.amount_usd;
  creator_id = creator_id;
  wallet_address = some address;
  payment_ref = ref_or (String.◌++◌ "resume-" o.id) o.payment_ref;
})

abbrev pub new_wallet : String → String → ℕ → Wallet
new_wallet creator_id address now = record {
  creator_id = creator_id;
  wallet_address = address;
  connected_at = now;
}

abbrev pub add_wallet : Wallet → Db → Db
add_wallet v d = record d { wallets = d.wallets ++ v ∷ [] }

abbrev is_duplicate : Exn → Exn
is_duplicate unique_violation = conflict
is_duplicate e = e

module _ {N : Type 0} where
  -- `wallet.create` under the unique index on the address.
  pub create_wallet : Wallet → App N (Unit {0})
  create_wallet v = do
    throw_if (is_some (← gets (find_wallet v.wallet_address))) unique_violation
    modify (add_wallet v)

  -- The loop of `resumeWaitingWalletOrders`.
  pub resume : String → String → List Order → App N (Unit {0})
  resume creator_id address [] = pure tt
  resume creator_id address (o ∷ more) = do
    emit (resumed creator_id address o)
    resume creator_id address more

  pub resume_waiting_wallet_orders : String → String → App N (Unit {0})
  unfolding resume
  resume_waiting_wallet_orders creator_id address = do
    waiting ← gets (waiting_orders creator_id)
    resume creator_id address waiting

  -- `connect`; `now` is the new row's time.
  pub connect : String → String → ℕ → App N Wallet
  unfolding create_wallet resume_waiting_wallet_orders
  connect creator_id address now = do
    or_throw (← gets (λ d. find_by user_id creator_id d.users)) not_found
    throw_if (is_some (← gets (find_wallet address))) conflict
    try_catch (create_wallet (new_wallet creator_id address now)) (λ e. throw (is_duplicate e))
    resume_waiting_wallet_orders creator_id address
    pure (new_wallet creator_id address now)
