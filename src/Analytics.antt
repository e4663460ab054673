-- ===== src/Analytics.antt =====
-- The numbers of a creator's dashboard (backend/src/analytics/analytics.service.ts). Amounts are in
-- cents; the service adds the days' amounts as floating numbers. An order's `createdAt`, in
-- milliseconds, comes beside its row. A day has 24 hours.
pub mod Series
use kreav.Base.{
  ℕ, zero, suc, ◌+◌, ◌-◌, ◌*◌, ◌/◌, String, Bool, true, false, ◌&&◌, ◌||◌, Option, none, some, List,
  [], ◌∷◌, map, keep, length, sum_by, ◌==◌, if◌then◌else◌, nat_eq, ltb, leb, take, sort, newer,
}
use kreav.App.{App, pure, gets, ◌>>=◌}
use kreav.Orders.Machine.{OrderStatus, status_eq}
use kreav.Orders.Reads.{belongs_to}
use kreav.Store.{Db, Product, Order, is_active}
use kreav.Store.Query.{find_product}

pub record Dated : Type 0 where
  pub order : Order
  pub created_at : ℕ

pub record TopProduct : Type 0 where
  pub product_id : String
  pub product_title : String
  pub sales : ℕ
  pub revenue : ℕ

pub record DayAmount : Type 0 where
  pub day : ℕ
  pub amount : ℕ

pub record Analytics : Type 0 where
  pub revenue_usd : ℕ
  pub sales : ℕ
  pub active_products : ℕ
  pub pending_payout : ℕ
  pub revenue_series : List DayAmount
  pub top_products : List TopProduct

abbrev pub amount_of : Order → ℕ
amount_of o = o.amount_usd

-- `where: { status: 'SETTLED', product: { creatorId } }`
abbrev pub is_settled_for : String → Db → Order → Bool
is_settled_for creator d o =
    status_eq o.status OrderStatus.settled && belongs_to creator (find_product o.product_id d)

abbrev pub is_pending_for : String → Db → Order → Bool
is_pending_for creator d o =
    (status_eq o.status OrderStatus.payment_received
      || status_eq o.status OrderStatus.settlement_pending)
    && belongs_to creator (find_product o.product_id d)

pub settled_stats : String → Db → ℕ × ℕ
settled_stats creator d =
    let orders = keep (is_settled_for creator d) d.orders in
    (sum_by amount_of orders, length orders)

abbrev pub pending_payout_of : String → Db → ℕ
pending_payout_of creator d = sum_by amount_of (keep (is_pending_for creator d) d.orders)

abbrev pub active_product_count : String → Db → ℕ
active_product_count creator d =
    length (keep (λ (p : Product). p.creator_id == creator && is_active p.status) d.products)

-- The row of the query's `GROUP BY` for a product.
abbrev pub product_stats : Db → Product → TopProduct
product_stats d p =
    let orders =
      keep (λ (o : Order). o.product_id == p.id && status_eq o.status OrderStatus.settled)
        d.orders in
    record {
      product_id = p.id;
      product_title = p.title;
      sales = length orders;
      revenue = sum_by amount_of orders;
    }

abbrev revenue_of : TopProduct → ℕ
revenue_of t = t.revenue

pub top_products_of : String → Db → List TopProduct
top_products_of creator d = take 5 (
    sort (newer revenue_of) (
      keep (λ (t : TopProduct). ltb 0 t.sales)
        (map (product_stats d) (keep (λ (p : Product). p.creator_id == creator) d.products))))

abbrev pub day_ms : ℕ
day_ms = 1000 * 60 * 60 * 24

-- `30 - daysAgo`, where it lies from 1 to 30
abbrev pub day_index : ℕ → ℕ → Option ℕ
day_index now created =
    if ltb now created
    then none
    else if ltb ((now - created) / day_ms) 30
    then some (30 - (now - created) / day_ms)
    else none

-- `dayTotals`, as the function that the map stands for
abbrev pub add_at : Option ℕ → ℕ → (ℕ → ℕ) → ℕ → ℕ
add_at none amount totals day = totals day
add_at (some i) amount totals day = if nat_eq day i then totals day + amount else totals day

pub day_totals : ℕ → List Dated → (ℕ → ℕ) → ℕ → ℕ
day_totals now [] totals = totals
day_totals now (o ∷ os) totals =
    day_totals now os (add_at (day_index now o.created_at) o.order.amount_usd totals)

-- `gte: thirtyDaysAgo`
abbrev pub is_recent : String → Db → ℕ → Dated → Bool
is_recent creator d now o = is_settled_for creator d o.order && leb now (o.created_at + 30 * day_ms)

-- `Array.from({ length: 30 }, ...)`: so many days from one on
abbrev pub days_from : ℕ → ℕ → (ℕ → ℕ) → List DayAmount
days_from zero day totals = []
days_from (suc left) day totals =
    record { day = day; amount = totals day } ∷ days_from left (suc day) totals

pub revenue_series_of : String → ℕ → List Dated → Db → List DayAmount
unfolding day_totals
revenue_series_of creator now orders d =
    days_from 30 1 (day_totals now (keep (is_recent creator d now) orders) (λ _. 0))

module _ {N : Type 0} where
  -- `getAnalytics`; its `deltas` are all 0.
  pub get_analytics : String → ℕ → List Dated → App N Analytics
  unfolding settled_stats top_products_of revenue_series_of
  get_analytics creator now orders = gets (λ d. record {
    revenue_usd = (settled_stats creator d).0;
    sales = (settled_stats creator d).1;
    active_products = active_product_count creator d;
    pending_payout = pending_payout_of creator d;
    revenue_series = revenue_series_of creator now orders d;
    top_products = top_products_of creator d;
  })
