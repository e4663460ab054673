-- ===== src/System/Laws.antt =====
-- Every run of the order pipeline.
use kreav.Base.{
  true, false, Bool, keep, List, map, ℕ, String, ◌≡◌, refl, ap, ◌∙◌, Option, none, some, [], ◌∷◌,
  All, inl, inr,
}
use kreav.App.{World, Result, payment_received}
use kreav.Store.{Db, Order, Product, Wallet}
use kreav.Store.Query.{order_id, find_order}
use kreav.Store.Table.{find_by-key}
use kreav.Orders.Evolves.{Evolves, Evolves-refl, Evolves-trans, Evolves-append, HasUniqueIds}
use kreav.Orders.{checkout, handle_gcash_payment, new_order, announcement}
use kreav.Orders.Checkout.{checkout-cases, ordered_world}
use kreav.Orders.Payment.Refs.{HasUniqueRefs}
use kreav.Orders.Payment.Laws.{
  Ends, repeated, refused, confirmed, handle_gcash_payment-Ends, handle_gcash_payment-Evolves,
}
use kreav.Stellar.Horizon.{StellarConfig, HorizonServer}
use kreav.Stellar.Rpc.{RpcServer}
use kreav.Startup.Bootstrap.{find_by-own, on_application_bootstrap-keeps}
use kreav.Wallets.{connect, resumed, is_waiting_for, waiting_orders}
use kreav.Wallets.Laws.{connect-cases, connected_world}
use kreav.System.{
  Step, connected, checked_out, paid, handled, restarted, network, Run, start, then_step,
}
use kreav.System.Refs.{
  fresh_of_missing, append-HasUniqueIds, append-HasUniqueRefs, handle_gcash_payment-IsUnique,
}
use kreav.System.Sound.{Announced, IsOrder, IsOrder-Evolves, emitted-Announced}
use kreav.System.Keeps.{
  IsSound, Keeps, Keeps-refl, Keeps-trans, Keeps-IsSound, events-Announced_more,
  events-Announced_same, recover_order-Keeps, settle-Keeps,
}

-- A checkout whose id is new.
checkout-Moves :
    {N : Type 0} (id product_id buyer_email : String) (w : World N)
    → find_order id w.db ≡ none
    → IsSound w
    → let v = (checkout id product_id buyer_email w).1 in
      Evolves w.db.orders v.db.orders × IsSound v
checkout-Moves {N} id product_id buyer_email w missing s =
    elim (checkout-cases id product_id buyer_email w) [
      | inr (_, e) ↦ rw e (Evolves-refl w.db.orders, s)
      | inl (p, _, _, e) ↦ rw e (added p)
    ]
  where
    added :
        (p : Product)
        → let v = ordered_world id product_id buyer_email p w in
          Evolves w.db.orders v.db.orders × IsSound v
    added p =
        let o = new_order id product_id buyer_email p in
        let v = ordered_world id product_id buyer_email p w in
        let ev = Evolves-append w.db.orders (o ∷ []) in
        (
          ev,
          record {
            unique_ids =
                append-HasUniqueIds w.db.orders o (fresh_of_missing id w.db.orders missing)
                  s.unique_ids;
            unique_refs = append-HasUniqueRefs w.db.orders o refl s.unique_refs;
            events_announced = events-Announced_same w v ev refl s.events_announced;
          },
        )

-- A delivery of the payment webhook.
paid-Moves :
    {N : Type 0} (id ref : String) (w : World N)
    → IsSound w
    → let v = (handle_gcash_payment id ref w).1 in Evolves w.db.orders v.db.orders × IsSound v
paid-Moves {N} id ref w s = (
  ev,
  record {
    unique_ids = unique.0;
    unique_refs = unique.1;
    events_announced = announced_by (handle_gcash_payment-Ends id ref w) s.events_announced;
  },
)
  where
    x : Result String × World N
    x = handle_gcash_payment id ref w

    ev : Evolves w.db.orders x.1.db.orders
    ev = handle_gcash_payment-Evolves id ref w

    unique : HasUniqueIds x.1.db.orders × HasUniqueRefs x.1.db.orders
    unique = handle_gcash_payment-IsUnique id ref w s.unique_ids s.unique_refs

    named : (o : Order) → find_order id w.db ≡ some o → IsOrder x.1.db o.id o.amount_usd
    named o found =
        IsOrder-Evolves w.db x.1.db o.id o.amount_usd ev
          (o, ap (λ k. find_order k w.db) (find_by-key order_id id w.db.orders found) ∙ found, refl)

    by_wallet :
        (ref : String) (o : Order) (c : String) (wal : Option Wallet)
        → IsOrder x.1.db o.id o.amount_usd
        → Announced x.1.db (announcement ref o c wal)
    by_wallet ref o c none h = h
    by_wallet ref o c (some wal) h = h

    announced_by :
        Ends id ref w x → All (Announced w.db) w.events → All (Announced x.1.db) x.1.events
    announced_by (repeated _ e) = events-Announced_same w x.1 ev (ap (λ y. y.1.events) e)
    announced_by (refused _ _ _ e) = events-Announced_same w x.1 ev (ap (λ y. y.1.events) e)
    announced_by (confirmed o c wal clear e) =
        events-Announced_more w x.1 _ ev (ap (λ y. y.1.events) e)
          (by_wallet ref o c wal (named o clear.found), tt)

waiting-Announced :
    (creator_id address : String) (d : Db) (os : List Order)
    → All (λ (o : Order). find_order o.id d ≡ some o) os
    → All (Announced d) (map (resumed creator_id address) (keep (is_waiting_for creator_id d) os))
waiting-Announced creator_id address d [] h = tt
waiting-Announced creator_id address d (o ∷ os) h =
    go (is_waiting_for creator_id d o) (waiting-Announced creator_id address d os h.1)
  where
    rest : List Order
    rest = keep (is_waiting_for creator_id d) os

    go :
        (b : Bool)
        → All (Announced d) (map (resumed creator_id address) rest)
        → All (Announced d) (
            map
              (resumed creator_id address)
              (elim b as (λ _. List Order) [ true ↦ o ∷ rest | false ↦ rest ]))
    go true k = ((o, h.0, refl), k)
    go false k = k

module _ {N : Type 0} (config : StellarConfig) (horizon : HorizonServer N) (rpc : RpcServer N) where
  -- A wallet that is connected.
  connected-Moves :
      (creator_id address : String) (now : ℕ) (w : World N)
      → IsSound w
      → let v = (connect creator_id address now w).1 in Evolves w.db.orders v.db.orders × IsSound v
  connected-Moves creator_id address now w s = elim (connect-cases creator_id address now w) [
    | inl (_, e) ↦ rw e (Evolves-refl w.db.orders, s)
    | inr (inl (_, _, _, e)) ↦ rw e (Evolves-refl w.db.orders, s)
    | inr (inr (_, _, _, e)) ↦ rw e (
      Evolves-refl w.db.orders,
      record {
        unique_ids = s.unique_ids;
        unique_refs = s.unique_refs;
        events_announced =
            events-Announced_more w (connected_world creator_id address now w)
              (map (resumed creator_id address) (waiting_orders creator_id w.db))
              (Evolves-refl w.db.orders) refl
              (waiting-Announced creator_id address w.db w.db.orders
                (find_by-own config rpc w.db.orders s.unique_ids))
              s.events_announced;
      },
    )
  ]

  step :
      (v w : World N)
      → Step config horizon rpc v w
      → IsSound v
      → Evolves v.db.orders w.db.orders × IsSound w
  step v w (checked_out id p b missing) s = checkout-Moves id p b v missing s
  step v w (paid id ref) s = paid-Moves id ref v s
  step v w (handled p emitted) s =
      let k =
        settle-Keeps config horizon rpc p v
          (emitted-Announced v.db (payment_received p) v.events emitted s.events_announced) in
      (k.evolves, Keeps-IsSound v w k s)
  step v w (connected c a now) s = connected-Moves c a now v s
  step v w restarted s =
      let k =
        (on_application_bootstrap-keeps config rpc Keeps Keeps-refl Keeps-trans
          (recover_order-Keeps config horizon rpc) v s.unique_ids).0 in
      (k.evolves, Keeps-IsSound v w k s)
  step v w (network n) s = (
    Evolves-refl v.db.orders,
    record {
      unique_ids = s.unique_ids;
      unique_refs = s.unique_refs;
      events_announced = s.events_announced;
    },
  )

  -- Over every run of the backend from a sound state, however checkouts, webhooks, wallets, events and
  -- restarts are ordered, repeated and answered by the network, the state stays sound: order ids
  -- and payment references are unique, and every event announces an order that is there with its
  -- amount, or, of a completed settlement, with 95% and 5% of it in whole cents. No order is lost, no order's terms change, and every status moves along the permitted
  -- transitions only.
  pub Run-IsSound :
      (v w : World N)
      → Run config horizon rpc v w
      → IsSound v
      → Evolves v.db.orders w.db.orders × IsSound w
  Run-IsSound v w start s = (Evolves-refl v.db.orders, s)
  Run-IsSound v w (then_step {u} r last) s =
      let before = Run-IsSound v u r s in
      let after = step u w last before.1 in (Evolves-trans before.0 after.0, after.1)
