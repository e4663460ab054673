-- ===== src/Products/Status.antt =====
-- Archiving and restoring a product (`setStatus`).
use kreav.Base.{
  ◌⊎◌, String, ◌≡◌, refl, false, Option, none, some, arith, inl, inr, Bool-cases, eq_iff, ◌==◌,
}
use kreav.App.{World, ok, err, not_found}
use kreav.Store.{Product, ProductStatus}
use kreav.Store.Table.{update_by}
use kreav.Store.Query.{find_product, product_id}
use kreav.Products.{set_status, set_products, load_owned_product, update_product}

abbrev pub with_product_status : ProductStatus → Product → Product
with_product_status s p = record p { status = s }

-- Only a product's creator can archive or restore it, which changes the status of that product and
-- nothing else; for anyone else, and for an unknown product, it is not found and nothing changes.
pub set_status-cases :
    {N : Type 0} (id creator_id : String) (s : ProductStatus) (w : World N)
    → let x = set_status id creator_id s w in
      ((p : Product) × (find_product id w.db ≡ some p)
        × (p.creator_id ≡ creator_id)
        × (x ≡ (
          ok (with_product_status s p),
          record w { db = set_products (update_by product_id id (with_product_status s)) w.db },
        )))
      ⊎ (((p : Product) → find_product id w.db ≡ some p → (p.creator_id == creator_id) ≡ false)
          × (x ≡ (err not_found, w)))
unfolding set_status load_owned_product update_product
set_status-cases {N} id creator_id s w = by_product (find_product id w.db) refl
  where
    by_product :
        (q : Option Product)
        → find_product id w.db ≡ q
        → ((p : Product) × (find_product id w.db ≡ some p)
            × (p.creator_id ≡ creator_id)
            × (set_status id creator_id s w ≡ (
              ok (with_product_status s p),
              record w { db = set_products (update_by product_id id (with_product_status s)) w.db },
            )))
          ⊎ (((p : Product) → find_product id w.db ≡ some p → (p.creator_id == creator_id) ≡ false)
              × (set_status id creator_id s w ≡ (err not_found, w)))
    by_product none e = inr (λ p f. cc (f, e), ground (arith, e))
    by_product (some p) e = elim (Bool-cases (p.creator_id == creator_id)) [
      | inl own ↦ inl (p, e, (eq_iff p.creator_id creator_id).0 own, ground (arith, e, own))
      | inr other ↦ inr (λ q f. cc (f, e, other), ground (arith, e, other))
    ]
