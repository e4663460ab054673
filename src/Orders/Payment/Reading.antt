-- ===== src/Orders/Payment/Reading.antt =====
-- What a confirmation has read when it starts to write.
use kreav.Base.{
  String, ◌≡◌, ◌≢◌, refl, Option, none, some, List, [], ◌∷◌, arith, inl, inr, true, false,
  Option-cases,
}
use kreav.App.{World, ok, err, Exn, not_found, other, invalid_transition}
use kreav.Orders.Machine.{OrderStatus, can_transition}
use kreav.Orders.{duplicate, confirm, plan_payment, target_state, is_taken}
use kreav.Store.{Order, Wallet, Product}
use kreav.Store.Query.{find_order, find_product, find_wallet_of, find_ref}

-- The guards that a plan to write has passed.
pub record IsCleared {N : Type 0} (id ref : String) (w : World N) (o : Order) (creator_id : String)
    (wallet : Option Wallet) : Type 0 where
  pub unclaimed : find_ref ref w.db.orders ≡ none
  pub found : find_order id w.db ≡ some o
  pub permitted : can_transition o.status (target_state wallet) ≡ true
  pub wallet_of : find_wallet_of creator_id w.db ≡ wallet

pub plan_payment-reads :
    {N : Type 0} (id ref : String) (w : World N) → (plan_payment id ref w).1 ≡ w
unfolding plan_payment
plan_payment-reads id ref w = ground arith

pub plan_payment-IsCleared :
    {N : Type 0} (id ref : String) (w : World N) {o : Order} {c : String} {wal : Option Wallet}
    → (plan_payment id ref w).0 ≡ ok (confirm o c wal)
    → IsCleared id ref w o c wal
unfolding plan_payment
plan_payment-IsCleared id ref w e = ground arith

pub plan_payment-duplicate :
    {N : Type 0} (id ref : String) (w : World N) {o : Order}
    → find_ref ref w.db.orders ≡ some o
    → plan_payment id ref w ≡ (ok duplicate, w)
unfolding plan_payment
plan_payment-duplicate id ref w e = ground arith

pub is_taken_of_unclaimed :
    (id ref : String) (os : List Order) → find_ref ref os ≡ none → is_taken id ref os ≡ false
unfolding find_ref
is_taken_of_unclaimed id ref [] e = refl
is_taken_of_unclaimed id ref (o ∷ os) e = ground (arith, is_taken_of_unclaimed id ref os)

pub not_duplicate_of_unclaimed :
    {N : Type 0} (id ref : String) (w : World N)
    → find_ref ref w.db.orders ≡ none
    → (plan_payment id ref w).0 ≢ ok duplicate
unfolding plan_payment
not_duplicate_of_unclaimed id ref w free e = ground arith

-- The state that the creator's wallet, or its absence, calls for.
abbrev target_of : {N : Type 0} → Product → World N → OrderStatus
target_of p w = target_state (find_wallet_of p.creator_id w.db)

-- Why a plan is refused: no such order, a product row that is missing, or a status from which the
-- state that the creator's wallet calls for may not be entered.
pub data Refusal {N : Type 0} (id : String) (w : World N) (e : Exn) : Type 0 where
  no_order : find_order id w.db ≡ none → e ≡ not_found → Refusal id w e
  no_product :
      (o : Order)
      → find_order id w.db ≡ some o
      → find_product o.product_id w.db ≡ none
      → e ≡ other
      → Refusal id w e
  not_permitted :
      (o : Order) (p : Product)
      → find_order id w.db ≡ some o
      → find_product o.product_id w.db ≡ some p
      → can_transition o.status (target_of p w) ≡ false
      → e ≡ invalid_transition o.status (target_of p w)
      → Refusal id w e

pub plan_payment-Refusal :
    {N : Type 0} (id ref : String) (w : World N) {e : Exn}
    → (plan_payment id ref w).0 ≡ err e
    → Refusal id w e
unfolding plan_payment
plan_payment-Refusal id ref w {e} p = elim (Option-cases (find_order id w.db)) [
  | inl missing ↦ no_order missing (ground arith)
  | inr (o, found) ↦ elim (Option-cases (find_product o.product_id w.db)) [
    | inl missing ↦ no_product o found missing (ground arith)
    | inr (q, of) ↦ not_permitted o q found of (ground arith) (ground arith)
  ]
]
