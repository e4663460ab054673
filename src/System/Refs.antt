-- ===== src/System/Refs.antt =====
-- The orders' ids and payment references under each step.
use kreav.Base.{
  String, ◌≡◌, ◌≢◌, refl, ◌∙◌, none, some, List, [], ◌∷◌, ◌++◌, arith, All, inl, inr, ◌==◌,
  Bool-cases, eq_iff, ◌⊎◌,
}
use mathlib.Core.Path.{subst}
use kreav.App.{World, Result}
use kreav.Store.{Order}
use kreav.Store.Table.{find_by, update_by}
use kreav.Store.Query.{order_id}
use kreav.Orders.Evolves.{HasUniqueIds}
use kreav.Orders.{confirm, claimed, target_state, handle_gcash_payment}
use kreav.Orders.Payment.Refs.{HasUniqueRefs, commit_payment-HasUniqueRefs}
use kreav.Orders.Payment.Laws.{
  Ends, repeated, refused, confirmed, commit_payment-writes, handle_gcash_payment-Ends,
}

pub fresh_of_missing :
    (id : String) (os : List Order)
    → find_by order_id id os ≡ none
    → All (λ (q : Order). q.id ≢ id) os
unfolding find_by
fresh_of_missing id [] e = tt
fresh_of_missing id (o ∷ os) e = elim (Bool-cases (o.id == id)) [
  | inl at ↦ absurd (ground (arith, at))
  | inr elsewhere ↦ (
    λ same. ground (arith, elsewhere, eq_iff o.id id),
    fresh_of_missing id os (ground (arith, elsewhere)),
  )
]

All-last :
    (id : String) (os : List Order) (o : Order)
    → All (λ (q : Order). id ≢ q.id) os
    → id ≢ o.id
    → All (λ (q : Order). id ≢ q.id) (os ++ o ∷ [])
All-last id [] o a ne = (ne, tt)
All-last id (q ∷ os) o a ne = (a.0, All-last id os o a.1 ne)

-- A new row at the end of the table.
pub append-HasUniqueIds :
    (os : List Order) (o : Order)
    → All (λ (q : Order). q.id ≢ o.id) os
    → HasUniqueIds os
    → HasUniqueIds (os ++ o ∷ [])
append-HasUniqueIds [] o fresh u = (tt, tt)
append-HasUniqueIds (q ∷ os) o fresh u =
    (All-last q.id os o u.0 fresh.0, append-HasUniqueIds os o fresh.1 u.1)

find_by-last :
    (os : List Order) (o : Order) (j : String) {q : Order}
    → find_by order_id j (os ++ o ∷ []) ≡ some q
    → (find_by order_id j os ≡ some q) ⊎ (q ≡ o)
unfolding find_by
find_by-last [] o j e = ground arith
find_by-last (p ∷ os) o j {q} e = ground (arith, find_by-last os o j {q = q})

pub append-HasUniqueRefs :
    (os : List Order) (o : Order)
    → o.payment_ref ≡ none
    → HasUniqueRefs os
    → HasUniqueRefs (os ++ o ∷ [])
append-HasUniqueRefs os o blank h = record {
  unique = λ j k ref p q ej ek rp rq. elim (find_by-last os o j ej) [
    | inr last ↦ absurd (ground (arith, last, blank))
    | inl oldp ↦ elim (find_by-last os o k ek) [
      | inr last ↦ absurd (ground (arith, last, blank))
      | inl oldq ↦ h.unique j k ref p q oldp oldq rp rq
    ]
  ];
}

others-update_by :
    (own id : String) (f : Order → Order) (os : List Order)
    → ((o : Order) → (f o).id ≡ o.id)
    → All (λ (q : Order). own ≢ q.id) os
    → All (λ (q : Order). own ≢ q.id) (update_by order_id id f os)
unfolding update_by
others-update_by own id f [] i a = tt
others-update_by own id f (o ∷ os) i a = elim (Bool-cases (order_id o == id)) [
  | inl at ↦ rw at (λ e. a.0 (e ∙ i o), others-update_by own id f os i a.1)
  | inr elsewhere ↦ rw elsewhere (a.0, others-update_by own id f os i a.1)
]

update_by-HasUniqueIds :
    (id : String) (f : Order → Order) (os : List Order)
    → ((o : Order) → (f o).id ≡ o.id)
    → HasUniqueIds os
    → HasUniqueIds (update_by order_id id f os)
unfolding update_by
update_by-HasUniqueIds id f [] i u = tt
update_by-HasUniqueIds id f (o ∷ os) i u = elim (Bool-cases (order_id o == id)) [
  | inl at ↦
      rw at (rw (i o) (others-update_by o.id id f os i u.0), update_by-HasUniqueIds id f os i u.1)
  | inr elsewhere ↦
      rw elsewhere (others-update_by o.id id f os i u.0, update_by-HasUniqueIds id f os i u.1)
]

-- A delivery of the payment webhook keeps ids and payment references unique.
pub handle_gcash_payment-IsUnique :
    {N : Type 0} (id ref : String) (w : World N)
    → HasUniqueIds w.db.orders
    → HasUniqueRefs w.db.orders
    → let os = (handle_gcash_payment id ref w).1.db.orders in HasUniqueIds os × HasUniqueRefs os
handle_gcash_payment-IsUnique {N} id ref w u h =
    go (handle_gcash_payment id ref w) (handle_gcash_payment-Ends id ref w)
  where
    go :
        (x : Result String × World N)
        → Ends id ref w x
        → HasUniqueIds x.1.db.orders × HasUniqueRefs x.1.db.orders
    go x (repeated _ e) = rw e (u, h)
    go x (refused _ _ _ e) = rw e (u, h)
    go x (confirmed o c wal clear e) = rw e (
      update_by-HasUniqueIds o.id (claimed (target_state wal) ref) w.db.orders (λ y. refl) u,
      subst (λ (y : Result (Unit {0}) × World N). HasUniqueRefs y.1.db.orders)
          (commit_payment-writes id ref w o c wal clear)
          (commit_payment-HasUniqueRefs ref (confirm o c wal) w h),
    )
