-- ===== src/Startup/Evolves.antt =====
-- The orders table and the events under the recovery of one stuck order.
use kreav.Base.{◌≡◌, ◌≢◌, refl, sym, true, Option, some, List, arith}
use mathlib.Core.Path.{subst}
use kreav.App.{World, Result, Event}
use kreav.Orders.Machine.{OrderStatus, can_transition}
use kreav.Orders.Machine.Laws.{Reach-one}
use kreav.Orders.Evolves.{Evolves, Successor, Evolves-refl, Evolves-update_by}
use kreav.Store.{Db, Order, Product}
use kreav.Store.Table.{update_by, find_by, find_by-update_by_self}
use kreav.Store.Query.{order_id, find_order, with_status}
use kreav.Stellar.Horizon.{StellarConfig}
use kreav.Stellar.Rpc.{RpcServer}
use kreav.Stellar.Recording.{settled_as}
use kreav.Startup.{recover_order, rolled_back}
use kreav.Startup.Ending.{Known, Recovery, announced, returned, lost, recorded, relinked, left}
use kreav.Startup.Laws.{recover_order-Recovery}

module _ {N : Type 0} (config : StellarConfig) (rpc : RpcServer N) (o : Order)
    (p : Option Product) where
  pending_step :
      (f : Order → Order) (os : List Order)
      → find_by order_id o.id os ≡ some o
      → o.status ≡ OrderStatus.settlement_pending
      → ((x : Order) → (f x).id ≡ x.id)
      → can_transition OrderStatus.settlement_pending (f o).status ≡ true
      → ((f o).amount_usd ≡ o.amount_usd)
        × ((f o).product_id ≡ o.product_id)
        × ((f o).buyer_email ≡ o.buyer_email)
      → Evolves os (update_by order_id o.id f os)
  pending_step f os found pending keeps may same = Evolves-update_by o.id f os keeps λ x e.
      let one : o ≡ x = cc (found, e) in
      subst (λ y. Successor y (f y)) one
        (record {
          reached = Reach-one (subst (λ s. can_transition s (f o).status ≡ true) (sym pending) may);
          same_amount = same.0;
          same_product = same.1;
          same_buyer = same.2;
        })

  Recovery-Evolves :
      (d : Db) (es : List Event) (x : Result _ × World N)
      → find_order o.id d ≡ some o
      → Recovery config rpc o p d es x
      → Evolves d.orders x.1.db.orders
  unfolding can_transition
  Recovery-Evolves d es x found (announced _ _ _ _ sd _) = rw sd (Evolves-refl d.orders)
  Recovery-Evolves d es x found (left _ _ sd _) = rw sd (Evolves-refl d.orders)
  Recovery-Evolves d es x found (returned _ q _ _ sd _) =
      rw sd (pending_step rolled_back d.orders found q (λ y. refl) refl (refl, refl, refl))
  Recovery-Evolves d es x found (lost _ q _ _ sd _) = rw sd (
      pending_step (with_status OrderStatus.settlement_failed) d.orders found q (λ y. refl) refl
        (refl, refl, refl))
  Recovery-Evolves d es x found (recorded tx q _ _ _ sd _) =
      rw sd (pending_step (settled_as tx) d.orders found q (λ y. refl) refl (refl, refl, refl))
  Recovery-Evolves d es x found (relinked _ q _ _ _ sd _) = rw sd (
      pending_step (with_status OrderStatus.settled) d.orders found q (λ y. refl) refl
        (refl, refl, refl))

  module _ (w : World N) (found : find_order o.id w.db ≡ some o) where
    -- Recovering a stuck order loses no order, changes no order's terms, and moves statuses along
    -- the permitted transitions only.
    pub recover_order-Evolves : Evolves w.db.orders (recover_order config rpc o p w).1.db.orders
    recover_order-Evolves =
        Recovery-Evolves w.db w.events (recover_order config rpc o p w) found
          (recover_order-Recovery config rpc o p w found)

    -- Recovery leaves an order SETTLED only if the network has said that it was paid.
    pub recover_order-Known :
        (q : Order)
        → find_order o.id (recover_order config rpc o p w).1.db ≡ some q
        → q.status ≡ OrderStatus.settled
        → o.status ≢ OrderStatus.settled
        → Known config rpc o
    recover_order-Known q after s before =
        go (recover_order config rpc o p w) after (recover_order-Recovery config rpc o p w found)
      where
        go :
            (x : Result _ × World N)
            → find_order o.id x.1.db ≡ some q
            → Recovery config rpc o p w.db w.events x
            → Known config rpc o
        go x a (announced _ _ _ _ sd _) = ground (arith, before)
        go x a (left _ _ sd _) = ground (arith, before)
        go x a (returned _ _ _ _ sd _) =
            ground (
              arith,
              find_by-update_by_self order_id o.id rolled_back (λ y. refl) w.db.orders found,
            )
        go x a (lost _ _ _ _ sd _) = ground (
          arith,
          find_by-update_by_self order_id o.id (with_status OrderStatus.settlement_failed)
              (λ y. refl) w.db.orders found,
        )
        go x a (recorded _ _ known _ _ _ _) = known
        go x a (relinked _ _ known _ _ _ _) = known
