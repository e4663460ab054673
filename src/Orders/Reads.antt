-- ===== src/Orders/Reads.antt =====
-- Reading orders (backend/src/orders/orders.service.ts: `findAll`, `findOne`, `getOrderStatus`). Dates
-- are left out; links and the printing of amounts are the interceptor's.
pub mod Laws
use kreav.Base.{
  ℕ, String, Bool, true, false, not, ◌&&◌, Option, none, some, List, [], ◌∷◌, map, keep, length,
  ◌==◌, if◌then◌else◌, Page, page_with,
}
use kreav.App.{App, not_found, pure, throw, gets, throw_if, or_throw, ◌>>=◌, ◌>>◌}
use kreav.Orders.Machine.{OrderStatus}
use kreav.Store.{Db, Product, Order, Settlement}
use kreav.Store.Query.{find_order, find_product, find_settlement}

-- An element of the list; the product is there by the foreign key.
pub record OrderSummary : Type 0 where
  pub order : Order
  pub product : Option Product

pub record OrderDetail : Type 0 where
  pub order : Order
  pub product : Product
  pub settlement : Option Settlement

pub record OrderSnapshot : Type 0 where
  pub id : String
  pub status : OrderStatus
  pub tx_hash : Option String

abbrev pub belongs_to : String → Option Product → Bool
belongs_to creator none = false
belongs_to creator (some p) = p.creator_id == creator

-- A condition on the creator that is missing or empty asks for nothing.
abbrev pub is_listed : Option String → Db → Order → Bool
is_listed none d o = true
is_listed (some creator) d o =
    if creator == "" then true else belongs_to creator (find_product o.product_id d)

abbrev pub summary_of : Db → Order → OrderSummary
summary_of d o = record { order = o; product = find_product o.product_id d }

abbrev pub listed : Option String → Db → List Order
listed creator d = keep (is_listed creator d) d.orders

pub page_of_orders : Option String → ℕ → ℕ → Db → Page OrderSummary
unfolding page_with
page_of_orders creator page limit d = page_with (summary_of d) page limit (listed creator d)

abbrev pub is_shown : Option String → Product → Bool
is_shown none p = true
is_shown (some creator) p = if creator == "" then true else p.creator_id == creator

module _ {N : Type 0} where
  unfoldable pub find_all : Option String → ℕ → ℕ → App N (Page OrderSummary)
  unfolding page_of_orders
  find_all creator page limit = gets (page_of_orders creator page limit)

  pub find_one : String → Option String → App N OrderDetail
  find_one id requester = do
    o ← or_throw (← gets (find_order id)) not_found
    p ← or_throw (← gets (find_product o.product_id)) not_found
    throw_if (not (is_shown requester p)) not_found
    s ← gets (find_settlement o.id)
    pure (record { order = o; product = p; settlement = s })

  pub get_order_status : String → String → App N OrderSnapshot
  get_order_status id buyer_email = do
    o ← or_throw (← gets (find_order id)) not_found
    throw_if (not (o.buyer_email == buyer_email)) not_found
    pure (record { id = o.id; status = o.status; tx_hash = o.tx_hash })
