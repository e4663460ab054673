-- ===== src/Orders/Reads/Laws.antt =====
-- Who is shown which orders, and how the pages of the list follow each other
-- (backend/src/orders/orders.service.ts).
use kreav.Base.{
  walked-all, page_with, walked, ℕ, zero, suc, ◌*◌, ◌≤◌, String, ◌≡◌, ◌⊎◌, refl, ap, ◌∙◌, Option,
  some, List, [], ◌++◌, map, length, ◌==◌, newest_first, Option-cases, Bool-cases, inl, inr, eq_iff,
  eq_false_of_ne, arith, ◌≢◌, true,
}
use mathlib.Core.Path.{subst}
use kreav.App.{World, ok, err, not_found}
use kreav.Store.{Db, Product, Order}
use kreav.Store.Query.{find_order, find_product, find_settlement}
use kreav.Orders.Reads.{
  OrderSummary, listed, summary_of, find_all, find_one, get_order_status, page_of_orders,
}

-- The order, if its product is the creator's.
abbrev pub Owned : String → String → Db → Order → Product → Type 0
Owned id creator d o p =
    (find_order id d ≡ some o) × (find_product o.product_id d ≡ some p) × (p.creator_id ≡ creator)

-- An order is shown, with its product and its settlement, to the creator of its product; whoever else
-- asks, or asks for an order that is not there, gets the same answer. The reading changes nothing.
pub find_one-cases :
    {N : Type 0} (id creator : String) (w : World N)
    → creator ≢ ""
    → let x = find_one id (some creator) w in
      ((o : Order) × (p : Product) × Owned id creator w.db o p
        × (x ≡ (ok (record { order = o; product = p; settlement = find_settlement o.id w.db }), w)))
      ⊎ (¬ ((o : Order) × (p : Product) × Owned id creator w.db o p) × (x ≡ (err not_found, w)))
unfolding find_one
find_one-cases id creator w named = elim (Option-cases (find_order id w.db)) [
  | inl missing ↦ inr (λ (o, p, h). cc (h.0, missing), ground (arith, missing))
  | inr (o, found) ↦ elim (Option-cases (find_product o.product_id w.db)) [
    | inl missing ↦ inr (
      λ (q, p, h).
          let same : q ≡ o = cc (h.0, found) in
          let sold : find_product o.product_id w.db ≡ some p =
            subst (λ (y : Order). find_product y.product_id w.db ≡ some p) same (h.1) in
          cc (sold, missing),
      ground (arith, found, missing),
    )
    | inr (p, sold) ↦ elim (Bool-cases (p.creator_id == creator)) [
      | inr foreign ↦ inr (
        λ (q, r, h).
            let same : q ≡ o = cc (h.0, found) in
            let also : find_product o.product_id w.db ≡ some r =
              subst (λ (y : Order). find_product y.product_id w.db ≡ some r) same (h.1) in
            let one : r ≡ p = cc (also, sold) in
            let own : p.creator_id ≡ creator =
              subst (λ (y : Product). y.creator_id ≡ creator) one (h.2) in
            let yes : (p.creator_id == creator) ≡ true = (eq_iff p.creator_id creator).1 own in
            cc (yes, foreign),
        ground (arith, found, sold, foreign, eq_false_of_ne creator "" named),
      )
      | inl own ↦ inl (
        o,
        p,
        (found, sold, (eq_iff p.creator_id creator).0 own),
        ground (arith, found, sold, own, eq_false_of_ne creator "" named),
      )
    ]
  ]
]

-- The status of an order is told to whoever names the order and its buyer's email, and nobody else.
pub get_order_status-cases :
    {N : Type 0} (id buyer_email : String) (w : World N)
    → let x = get_order_status id buyer_email w in
      ((o : Order) × (find_order id w.db ≡ some o)
        × (o.buyer_email ≡ buyer_email)
        × (x ≡ (ok (record { id = o.id; status = o.status; tx_hash = o.tx_hash }), w)))
      ⊎ (x ≡ (err not_found, w))
unfolding get_order_status
get_order_status-cases id buyer_email w = elim (Option-cases (find_order id w.db)) [
  | inl missing ↦ inr (ground (arith, missing))
  | inr (o, found) ↦ elim (Bool-cases (o.buyer_email == buyer_email)) [
    | inr stranger ↦ inr (ground (arith, found, stranger))
    | inl buyer ↦
        inl (o, found, (eq_iff o.buyer_email buyer_email).0 buyer, ground (arith, found, buyer))
  ]
]

-- The rows of the first `n` pages of the list.
abbrev pub first_pages : Option String → ℕ → ℕ → Db → List OrderSummary
first_pages creator zero limit d = []
first_pages creator (suc n) limit d =
    first_pages creator n limit d ++ (page_of_orders creator (suc n) limit d).data_rows

first_pages-walked :
    (creator : Option String) (n limit : ℕ) (d : Db)
    → first_pages creator n limit d ≡ walked (summary_of d) n limit (listed creator d)
unfolding page_of_orders
first_pages-walked creator zero limit d = refl
first_pages-walked creator (suc n) limit d =
    ap (λ l. l ++ (page_of_orders creator (suc n) limit d).data_rows)
      (first_pages-walked creator n limit d)

-- The list answers with the page that was asked for and changes nothing; enough pages together show
-- each order of the creator once, the newest first, as many as the total says.
pub find_all-pages :
    {N : Type 0} (creator : Option String) (n limit : ℕ) (w : World N)
    → length (listed creator w.db) ≤ n * limit
    → ((page : ℕ)
        → find_all creator page limit w ≡ (ok (page_of_orders creator page limit w.db), w))
      × (first_pages creator n limit w.db
          ≡ map (summary_of w.db) (newest_first (listed creator w.db)))
      × ((page : ℕ) → (page_of_orders creator page limit w.db).total ≡ length (listed creator w.db))
unfolding find_all page_of_orders page_with
find_all-pages creator n limit w h = (
  λ page. refl,
  first_pages-walked creator n limit w.db
      ∙ walked-all (summary_of w.db) n limit (listed creator w.db) h,
  λ page. refl,
)
