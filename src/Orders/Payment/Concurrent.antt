-- ===== src/Orders/Payment/Concurrent.antt =====
-- Two deliveries of one webhook whose readings come before either writes.
use kreav.Base.{String, ◌≡◌, refl, ap, ◌∙◌, Option, some, List, [], ◌∷◌, ◌++◌, arith, false}
use kreav.App.{World, ok}
use kreav.Orders.{
  confirm, plan_payment, commit_payment, claimed, target_state, announcement, is_taken,
}
use kreav.Orders.Machine.{OrderStatus}
use kreav.Orders.Payment.Reading.{plan_payment-IsCleared, is_taken_of_unclaimed}
use kreav.Store.{Order, Wallet}
use kreav.Store.Table.{find_by-key, update_by, find_by-update_by_self}
use kreav.Store.Query.{order_id, find_order}

-- The row that is updated does not count against its own reference.
is_taken-update_by :
    (id ref : String) (s : OrderStatus) (os : List Order)
    → is_taken id ref (update_by order_id id (claimed s ref) os) ≡ is_taken id ref os
unfolding update_by
is_taken-update_by id ref s [] = refl
is_taken-update_by id ref s (o ∷ os) = ground (arith, is_taken-update_by id ref s os)

-- Two deliveries of the same webhook, for an order that was payable when both read it, both write
-- and both emit: the event goes out twice, though the reference is a duplicate for the second.
pub commit_payment-twice :
    {N : Type 0} (id ref : String) (w : World N) (o : Order) (c : String) (wal : Option Wallet)
    → (plan_payment id ref w).0 ≡ ok (confirm o c wal)
    → let once = commit_payment ref (confirm o c wal) w in
      let twice = commit_payment ref (confirm o c wal) once.1 in
      (twice.0 ≡ ok tt)
      × (twice.1.events
          ≡ (w.events ++ announcement ref o c wal ∷ []) ++ announcement ref o c wal ∷ [])
unfolding commit_payment
commit_payment-twice id ref w o c wal planned =
    let clear = plan_payment-IsCleared id ref w planned in
    let f = claimed (target_state wal) ref in
    let here : find_order o.id w.db ≡ some o =
      ap (λ k. find_order k w.db) (find_by-key order_id id w.db.orders clear.found) ∙ clear.found in
    let free : is_taken o.id ref w.db.orders ≡ false =
      is_taken_of_unclaimed o.id ref w.db.orders clear.unclaimed in
    ground (
      arith,
      free,
      find_by-update_by_self order_id o.id f (λ x. refl) w.db.orders here,
      is_taken-update_by o.id ref (target_state wal) w.db.orders,
    )
