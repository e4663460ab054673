-- ===== src/Orders/Payment/Refs.antt =====
-- The unique index on `Order.paymentRef`.
use kreav.Base.{
  String, ◌≡◌, ◌≢◌, ◌⊎◌, ap, refl, sym, ◌∙◌, none, some, List, [], ◌∷◌, arith, inl, inr, false,
  Option-cases, Bool-cases, text-cases, eq_iff, eq_refl,
}
use kreav.App.{World}
use kreav.Orders.Machine.{OrderStatus}
use kreav.Orders.{Plan, duplicate, confirm, commit_payment, is_taken, claimed, target_state}
use kreav.Store.{Order}
use kreav.Store.Table.{
  find_by, update_by, find_by-update_by_self, find_by-update_by_ne, find_by-update_by_missing,
}
use kreav.Store.Query.{order_id, find_ref}

-- No two orders carry the same payment reference.
pub record HasUniqueRefs (os : List Order) : Type 0 where
  pub unique :
      (j k ref : String) (o p : Order)
      → find_by order_id j os ≡ some o
      → find_by order_id k os ≡ some p
      → o.payment_ref ≡ some ref
      → p.payment_ref ≡ some ref
      → j ≡ k

is_taken-find_by :
    (id k ref : String) (os : List Order) {p : Order}
    → is_taken id ref os ≡ false
    → find_by order_id k os ≡ some p
    → p.payment_ref ≡ some ref
    → k ≡ id
unfolding find_by
is_taken-find_by id k ref [] free e r = cc
is_taken-find_by id k ref (o ∷ os) {p} free e r =
    ground (arith, eq_iff o.id k, eq_iff o.id id, eq_refl ref, is_taken-find_by id k ref os {p = p})

-- Once an order has claimed a reference, the reference is found.
pub find_ref-update_by :
    (id ref : String) (s : OrderStatus) (os : List Order) {o : Order}
    → find_by order_id id os ≡ some o
    → find_ref ref (update_by order_id id (claimed s ref) os) ≢ none
unfolding find_ref find_by update_by
find_ref-update_by id ref s [] e = cc
find_ref-update_by id ref s (p ∷ os) {o} e =
    ground (arith, eq_refl ref, find_ref-update_by id ref s os {o = o})

-- A row after the claim: the order that claimed, or a row that was there.
claim_rows :
    (id ref : String) (s : OrderStatus) (os : List Order) (j : String) {o : Order} {r : String}
    → find_by order_id j (update_by order_id id (claimed s ref) os) ≡ some o
    → o.payment_ref ≡ some r
    → ((j ≡ id) × (r ≡ ref)) ⊎ (find_by order_id j os ≡ some o)
claim_rows id ref s os j {o} {r} e c = elim (text-cases id j) [
  | inr other ↦
      inr (sym (find_by-update_by_ne order_id id (claimed s ref) (λ x. refl) j os other.0) ∙ e)
  | inl same ↦ inl (sym same, claims (Option-cases (find_by order_id id os)) (rw (← same) at e))
]
  where
    claims :
        (find_by order_id id os ≡ none) ⊎ ((p : Order) × (find_by order_id id os ≡ some p))
        → find_by order_id id (update_by order_id id (claimed s ref) os) ≡ some o
        → r ≡ ref
    claims (inl missing) f =
        ground (arith, find_by-update_by_missing order_id id (claimed s ref) (λ x. refl) os missing)
    claims (inr (p, found)) f =
        ground (arith, find_by-update_by_self order_id id (claimed s ref) (λ x. refl) os found)

-- An update that claims a free reference keeps the references unique.
claim-HasUniqueRefs :
    (id ref : String) (s : OrderStatus) (os : List Order)
    → is_taken id ref os ≡ false
    → HasUniqueRefs os
    → HasUniqueRefs (update_by order_id id (claimed s ref) os)
claim-HasUniqueRefs id ref s os free h = record {
  unique = λ j k r o p ej ek ro rp. elim (claim_rows id ref s os j ej ro) [
    | inl (ji, rr) ↦ elim (claim_rows id ref s os k ek rp) [
      | inl (ki, _) ↦ ji ∙ sym ki
      | inr old ↦ ji ∙ sym (is_taken-find_by id k ref os free old (rp ∙ ap some rr))
    ]
    | inr old ↦ elim (claim_rows id ref s os k ek rp) [
      | inl (ki, rr) ↦ is_taken-find_by id j ref os free old (ro ∙ ap some rr) ∙ sym ki
      | inr old' ↦ h.unique j k r o p old old' ro rp
    ]
  ];
}

-- Whatever other requests did between the reading and the writing of a confirmation, its writing
-- keeps the payment references unique.
pub commit_payment-HasUniqueRefs :
    {N : Type 0} (ref : String) (plan : Plan) (w : World N)
    → HasUniqueRefs w.db.orders
    → HasUniqueRefs (commit_payment ref plan w).1.db.orders
unfolding commit_payment
commit_payment-HasUniqueRefs ref duplicate w h = h
commit_payment-HasUniqueRefs ref (confirm o c wal) w h =
    elim (Bool-cases (is_taken o.id ref w.db.orders)) [
      | inl taken ↦ ground arith
      | inr free ↦
          ground (arith, claim-HasUniqueRefs o.id ref (target_state wal) w.db.orders free h)
    ]
