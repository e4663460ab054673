-- ===== src/Store/Query.antt =====
-- The queries that several services make. Where a `findFirst` has no `orderBy`, the row that
-- comes first in the table stands for the one that the database picks.
use kreav.Base.{
  String, Bool, false, ◌&&◌, Option, none, some, List, [], ◌∷◌, ◌==◌, if◌then◌else◌, keep,
}
use kreav.App.{App, other, gets, modify, or_throw, ◌>>=◌, ◌>>◌}
use kreav.Orders.Machine.{OrderStatus}
use kreav.Store.{Db, User, Product, Collaborator, is_enabled, Wallet, Order, Settlement}
use kreav.Store.Table.{find_by, update_by}

abbrev pub order_id : Order → String
order_id o = o.id

abbrev pub find_order : String → Db → Option Order
find_order id d = find_by order_id id d.orders

abbrev pub product_id : Product → String
product_id p = p.id

abbrev pub find_product : String → Db → Option Product
find_product id d = find_by product_id id d.products

-- `wallet.findFirst({ where: { creatorId } })`
abbrev wallet_creator : Wallet → String
wallet_creator w = w.creator_id

abbrev pub find_wallet_of : String → Db → Option Wallet
find_wallet_of creator_id d = find_by wallet_creator creator_id d.wallets

-- `wallet.findFirst({ where: { walletAddress } })`
abbrev wallet_key : Wallet → String
wallet_key w = w.wallet_address

abbrev pub find_wallet : String → Db → Option Wallet
find_wallet address d = find_by wallet_key address d.wallets

-- `payment_ref === ref`; null equals no text.
abbrev pub has_ref : String → Order → Bool
has_ref ref o = elim o.payment_ref [ none ↦ false | some r ↦ r == ref ]

-- `order.findFirst({ where: { paymentRef } })`
unfoldable pub find_ref : String → List Order → Option Order
find_ref ref [] = none
find_ref ref (o ∷ os) = if has_ref ref o then some o else find_ref ref os

-- `settlement.findUnique({ where: { orderId } })`
abbrev pub settlement_order : Settlement → String
settlement_order s = s.order_id

abbrev pub find_settlement : String → Db → Option Settlement
find_settlement id d = find_by settlement_order id d.settlements

-- `productCollaborator.findMany({ where: { productId, status: 'ACTIVE' } })`
unfoldable pub active_collaborators : String → Db → List Collaborator
active_collaborators id d = keep (λ c. c.product_id == id && is_enabled c.status) d.collaborators

abbrev pub user_id : User → String
user_id u = u.id

abbrev pub user_email : User → String
user_email u = u.email

-- `user.findUnique` by id, by email and by username; null equals no text.
abbrev pub find_user : String → Db → Option User
find_user id d = find_by user_id id d.users

abbrev pub find_email : String → Db → Option User
find_email email d = find_by user_email email d.users

abbrev pub has_username : String → User → Bool
has_username name u = elim u.username [ none ↦ false | some n ↦ n == name ]

unfoldable pub find_username : String → List User → Option User
find_username name [] = none
find_username name (u ∷ us) = if has_username name u then some u else find_username name us

abbrev pub set_orders : (List Order → List Order) → Db → Db
set_orders f d = record d { orders = f d.orders }

module _ {N : Type 0} where
  -- `order.update({ where: { id }, data })`; a missing row is refused (P2025).
  unfoldable pub update_order : String → (Order → Order) → App N (Unit {0})
  update_order id change = do
    or_throw (← gets (find_order id)) other
    modify (set_orders (update_by order_id id change))

abbrev pub with_status : OrderStatus → Order → Order
with_status s o = record o { status = s }
