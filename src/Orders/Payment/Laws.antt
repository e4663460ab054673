-- ===== src/Orders/Payment/Laws.antt =====
-- What one delivery of the payment webhook does.
use kreav.Base.{
  String, ◌≡◌, ◌≢◌, refl, ap, ◌∙◌, Option, none, some, [], ◌∷◌, ◌++◌, arith, inl, inr, Option-cases,
}
use kreav.App.{World, Result, ok, err, Exn}
use kreav.Orders.{
  Plan, duplicate, confirm, plan_payment, commit_payment, handle_gcash_payment, claimed,
  target_state, announcement,
}
use kreav.Orders.Machine.Laws.{Reach-one}
use kreav.Orders.Evolves.{Evolves, Evolves-refl, Evolves-update_by}
use kreav.Orders.Payment.Reading.{
  IsCleared, plan_payment-reads, plan_payment-IsCleared, plan_payment-duplicate,
  is_taken_of_unclaimed, Refusal, plan_payment-Refusal, not_duplicate_of_unclaimed,
}
use kreav.Orders.Payment.Refs.{find_ref-update_by}
use kreav.Store.{Order, Wallet}
use kreav.Store.Table.{find_by-key, update_by}
use kreav.Store.Query.{order_id, find_order, find_ref, set_orders}

-- The world after an order has been confirmed.
abbrev pub confirmed_world :
    {N : Type 0} → String → World N → Order → String → Option Wallet → World N
confirmed_world ref w o c wal = record w {
  db = set_orders (update_by order_id o.id (claimed (target_state wal) ref)) w.db;
  events = w.events ++ announcement ref o c wal ∷ [];
}

-- A plan whose guards still hold is carried out.
pub commit_payment-writes :
    {N : Type 0} (id ref : String) (w : World N) (o : Order) (c : String) (wal : Option Wallet)
    → IsCleared id ref w o c wal
    → commit_payment ref (confirm o c wal) w ≡ (ok tt, confirmed_world ref w o c wal)
unfolding commit_payment
commit_payment-writes id ref w o c wal h =
    let own : o.id ≡ id = find_by-key order_id id w.db.orders h.found in
    let here : find_order o.id w.db ≡ some o = ap (λ k. find_order k w.db) own ∙ h.found in
    ground (arith, is_taken_of_unclaimed o.id ref w.db.orders h.unclaimed)

-- How a delivery ends: a duplicate is acknowledged and changes nothing; what fails changes nothing;
-- the rest claims the reference, moves the order to the state that the wallet decides, and emits
-- one event.
pub data Ends {N : Type 0} (id ref : String) (w : World N) (x : Result String × World N)
    : Type 0 where
  repeated : {o : Order} → find_ref ref w.db.orders ≡ some o → x ≡ (ok id, w) → Ends id ref w x
  refused :
      (e : Exn)
      → find_ref ref w.db.orders ≡ none
      → Refusal id w e
      → x ≡ (err e, w)
      → Ends id ref w x
  confirmed :
      (o : Order) (c : String) (wal : Option Wallet)
      → IsCleared id ref w o c wal
      → x ≡ (ok id, confirmed_world ref w o c wal)
      → Ends id ref w x

planned_Ends :
    {N : Type 0} (id ref : String) (w : World N) (r : Result Plan)
    → find_ref ref w.db.orders ≡ none
    → (plan_payment id ref w).0 ≡ r
    → Ends id ref w (handle_gcash_payment id ref w)
unfolding handle_gcash_payment
planned_Ends id ref w (err e) free p =
    refused e free (plan_payment-Refusal id ref w p) (ground (arith, plan_payment-reads id ref w))
planned_Ends id ref w (ok duplicate) free p = absurd (not_duplicate_of_unclaimed id ref w free p)
planned_Ends id ref w (ok (confirm o c wal)) free p =
    let clear = plan_payment-IsCleared id ref w p in
    confirmed o c wal clear
      (ground (arith, plan_payment-reads id ref w, commit_payment-writes id ref w o c wal clear))

-- Every delivery ends in one of these ways.
pub handle_gcash_payment-Ends :
    {N : Type 0} (id ref : String) (w : World N) → Ends id ref w (handle_gcash_payment id ref w)
unfolding handle_gcash_payment
handle_gcash_payment-Ends id ref w = elim (Option-cases (find_ref ref w.db.orders)) [
  | inl free ↦ planned_Ends id ref w (plan_payment id ref w).0 free refl
  | inr (o, taken) ↦ repeated taken (ground (arith, plan_payment-duplicate id ref w taken))
]

repeats :
    {N : Type 0} (id ref : String) (w : World N)
    → find_ref ref w.db.orders ≢ none
    → handle_gcash_payment id ref w ≡ (ok id, w)
repeats id ref w taken = go (handle_gcash_payment-Ends id ref w)
  where
    go : Ends id ref w (handle_gcash_payment id ref w) → handle_gcash_payment id ref w ≡ (ok id, w)
    go (repeated _ e) = e
    go (refused _ free _ _) = absurd (taken free)
    go (confirmed o c wal clear _) = absurd (taken clear.unclaimed)

claimed_after :
    {N : Type 0} (id ref : String) (w : World N) (x : Result String × World N)
    → Ends id ref w x
    → x.0 ≡ ok id
    → find_ref ref x.1.db.orders ≢ none
claimed_after id ref w x (repeated taken e) a = ground arith
claimed_after id ref w x (refused y free r e) a = ground arith
claimed_after id ref w x (confirmed o c wal clear e) a = rw e (
    find_ref-update_by o.id ref (target_state wal) w.db.orders
      (ap (λ k. find_order k w.db) (find_by-key order_id id w.db.orders clear.found) ∙ clear.found))

-- A payment reference is honoured once: after a delivery that was accepted, every further delivery
-- with that reference, for this order or another, is acknowledged and changes nothing.
pub handle_gcash_payment-once :
    {N : Type 0} (id later ref : String) (w : World N)
    → (handle_gcash_payment id ref w).0 ≡ ok id
    → let w' = (handle_gcash_payment id ref w).1 in
      handle_gcash_payment later ref w' ≡ (ok later, w')
handle_gcash_payment-once id later ref w accepted =
    repeats later ref (handle_gcash_payment id ref w).1
      (claimed_after id ref w _ (handle_gcash_payment-Ends id ref w) accepted)

confirmed-Evolves :
    {N : Type 0} (id ref : String) (w : World N) (o : Order) (c : String) (wal : Option Wallet)
    → IsCleared id ref w o c wal
    → Evolves w.db.orders (confirmed_world ref w o c wal).db.orders
confirmed-Evolves id ref w o c wal clear =
    Evolves-update_by o.id (claimed (target_state wal) ref) w.db.orders (λ x. refl)
      λ p found.
        let own = find_by-key order_id id w.db.orders clear.found in
        let same : p ≡ o = cc (found, own, clear.found) in
        record {
          reached = Reach-one (rw same clear.permitted);
          same_amount = refl;
          same_product = refl;
          same_buyer = refl;
        }

-- Whatever a delivery does, no order is lost, no order's terms change, and statuses move along the
-- permitted transitions only.
pub handle_gcash_payment-Evolves :
    {N : Type 0} (id ref : String) (w : World N)
    → Evolves w.db.orders (handle_gcash_payment id ref w).1.db.orders
handle_gcash_payment-Evolves id ref w = go (handle_gcash_payment-Ends id ref w)
  where
    go :
        Ends id ref w (handle_gcash_payment id ref w)
        → Evolves w.db.orders (handle_gcash_payment id ref w).1.db.orders
    go (repeated _ e) = rw e (Evolves-refl w.db.orders)
    go (refused _ _ _ e) = rw e (Evolves-refl w.db.orders)
    go (confirmed o c wal clear e) = rw e (confirmed-Evolves id ref w o c wal clear)
