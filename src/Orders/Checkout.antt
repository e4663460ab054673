-- ===== src/Orders/Checkout.antt =====
-- What a checkout does (`OrdersService.checkout`).
use kreav.Base.{String, ◌≡◌, ◌⊎◌, inl, inr, refl, some, [], ◌∷◌, ◌++◌, arith, Option-cases}
use kreav.App.{World, ok, err, not_found}
use kreav.Orders.{find_active_product, new_order, checkout}
use kreav.Store.{Product, ProductStatus}
use kreav.Store.Query.{find_product, set_orders}

abbrev pub ordered_world : {N : Type 0} → String → String → String → Product → World N → World N
ordered_world id product_id buyer_email p w = record w {
  db = set_orders (λ os. os ++ new_order id product_id buyer_email p ∷ []) w.db;
}

-- A checkout of a product that is there and active adds one order, at the product's price and
-- PAYMENT_PENDING; any other is refused as not found and changes nothing.
pub checkout-cases :
    {N : Type 0} (id product_id buyer_email : String) (w : World N)
    → let x = checkout id product_id buyer_email w in
      ((p : Product) × (find_product product_id w.db ≡ some p)
        × (p.status ≡ ProductStatus.active)
        × (x ≡ (ok (id, p.price_usd), ordered_world id product_id buyer_email p w)))
      ⊎ (((p : Product) → find_product product_id w.db ≡ some p → p.status ≡ ProductStatus.archived)
          × (x ≡ (err not_found, w)))
unfolding checkout find_active_product
checkout-cases {N} id product_id buyer_email w =
    elim (Option-cases (find_product product_id w.db)) [
      | inl missing ↦ inr (λ p e. cc (e, missing), ground (arith, missing))
      | inr (p, found) ↦ by_status p found p.status refl
    ]
  where
    by_status :
        (p : Product)
        → find_product product_id w.db ≡ some p
        → (s : ProductStatus) → p.status ≡ s
        → ((q : Product) × (find_product product_id w.db ≡ some q)
            × (q.status ≡ ProductStatus.active)
            × (checkout id product_id buyer_email w
                ≡ (ok (id, q.price_usd), ordered_world id product_id buyer_email q w)))
          ⊎ (((q : Product)
                → find_product product_id w.db ≡ some q
                → q.status ≡ ProductStatus.archived)
              × (checkout id product_id buyer_email w ≡ (err not_found, w)))
    by_status p found ProductStatus.active at = inl (p, found, at, ground (arith, found, at))
    by_status p found ProductStatus.archived at =
        inr (λ q e. cc (e, found, at), ground (arith, found, at))
