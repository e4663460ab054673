-- ===== src/Stellar/Settlement/Evolves.antt =====
-- The orders table under a `payment.received` event.
use kreav.Base.{ℕ, String, ◌≡◌, refl, sym, true, some, List}
use mathlib.Core.Path.{subst}
use kreav.App.{World, PaymentReceivedPayload, Result}
use kreav.Orders.Machine.{OrderStatus, can_transition}
use kreav.Orders.Machine.Laws.{Reach, Reach-one}
use kreav.Orders.Evolves.{Evolves, Successor, Evolves-refl, Evolves-trans, Evolves-update_by}
use kreav.Store.{Collaborator, Order}
use kreav.Store.Query.{order_id, find_order, with_status}
use kreav.Store.Table.{find_by-update_by_self, update_by, find_by}
use kreav.Stellar.Horizon.{StellarConfig, HorizonServer}
use kreav.Stellar.Rpc.{RpcServer}
use kreav.Stellar.Recording.{settled_as}
use kreav.Stellar.Settlement.{handle_payment_received, reverted}
use kreav.Stellar.Settlement.Verdict.{Verdict}
use kreav.Stellar.Settlement.Outcome.{
  Outcome, pending_world, handle_payment_received-Outcome, unknown, refused, processed,
}

moves :
    (o : Order) (f : Order → Order)
    → Reach o.status (f o).status
    → (f o).amount_usd ≡ o.amount_usd
    → (f o).product_id ≡ o.product_id
    → (f o).buyer_email ≡ o.buyer_email
    → Successor o (f o)
moves o f r a p b = record { reached = r; same_amount = a; same_product = p; same_buyer = b }

-- The only row that changes is pending, and it becomes SETTLED or SETTLEMENT_FAILED.
pending_step :
    (id : String) (f : Order → Order) (os : List Order) (o : Order)
    → find_by order_id id os ≡ some o
    → o.status ≡ OrderStatus.settlement_pending
    → ((x : Order) → (f x).id ≡ x.id)
    → ((x : Order) → can_transition OrderStatus.settlement_pending (f x).status ≡ true)
    → ((x : Order)
        → ((f x).amount_usd ≡ x.amount_usd)
          × ((f x).product_id ≡ x.product_id)
          × ((f x).buyer_email ≡ x.buyer_email))
    → Evolves os (update_by order_id id f os)
pending_step id f os o found pending keeps may same = Evolves-update_by id f os keeps λ x e.
    let one : x ≡ o = cc (found, e) in
    let status : x.status ≡ OrderStatus.settlement_pending = cc (one, pending) in
    moves x f (Reach-one (subst (λ s. can_transition s (f x).status ≡ true) (sym status) (may x)))
      (same x).0 (same x).1 (same x).2

module _ {N : Type 0} (config : StellarConfig) (horizon : HorizonServer N) (rpc : RpcServer N)
    (id : String) (amount : ℕ) (cs : List Collaborator) where
  pub Verdict-Evolves :
      (o : Order) (w : World N) (x : Result (Unit {0}) × World N)
      → find_order id w.db ≡ some o
      → o.status ≡ OrderStatus.settlement_pending
      → Verdict config horizon rpc id amount cs w.db w.events x
      → Evolves w.db.orders x.1.db.orders
  unfolding can_transition
  Verdict-Evolves o w x found pending (Verdict.threw _ _ _ _ d _) = rw d (Evolves-refl w.db.orders)
  Verdict-Evolves o w x found pending (Verdict.undecided _ _ _ _ d _) =
      rw d (Evolves-refl w.db.orders)
  Verdict-Evolves o w x found pending (Verdict.failed _ _ d _) = rw d (
      pending_step id (with_status OrderStatus.settlement_failed) w.db.orders o found pending
        (λ y. refl) (λ y. refl) (λ y. (refl, refl, refl)))
  Verdict-Evolves o w x found pending (Verdict.rejected tx _ _ _ _ _ _ d _) = rw d (
      pending_step id (reverted tx) w.db.orders o found pending (λ y. refl) (λ y. refl)
        (λ y. (refl, refl, refl)))
  Verdict-Evolves o w x found pending (Verdict.relinked s _ _ _ d _) = rw d (
      pending_step id (settled_as s.tx_hash) w.db.orders o found pending (λ y. refl) (λ y. refl)
        (λ y. (refl, refl, refl)))
  Verdict-Evolves o w x found pending (Verdict.recorded tx _ _ _ d _) = rw d (
      pending_step id (settled_as tx) w.db.orders o found pending (λ y. refl) (λ y. refl)
        (λ y. (refl, refl, refl)))

module _ {N : Type 0} (config : StellarConfig) (horizon : HorizonServer N) (rpc : RpcServer N)
    (payload : PaymentReceivedPayload) (w : World N)
    (same : (o : Order)
      → find_order payload.order_id w.db ≡ some o
      → o.amount_usd ≡ payload.amount_usd) where
  pending_found :
      (o : Order)
      → find_order payload.order_id w.db ≡ some o
      → find_order payload.order_id (pending_world payload.order_id w).db
        ≡ some (with_status OrderStatus.settlement_pending o)
  pending_found o found =
      find_by-update_by_self order_id payload.order_id (with_status OrderStatus.settlement_pending)
        (λ x. refl) w.db.orders found

  step_one-Evolves :
      (o : Order)
      → find_order payload.order_id w.db ≡ some o
      → can_transition o.status OrderStatus.settlement_pending ≡ true
      → Evolves w.db.orders (pending_world payload.order_id w).db.orders
  step_one-Evolves o found may =
      Evolves-update_by payload.order_id (with_status OrderStatus.settlement_pending) w.db.orders
        (λ y. refl)
        λ x e.
          let one : o ≡ x = cc (found, e) in
          moves x (with_status OrderStatus.settlement_pending)
            (Reach-one (
              subst (λ (y : Order). can_transition y.status OrderStatus.settlement_pending ≡ true)
                one may))
            refl refl refl

  -- Whatever the network answers, no order is lost, no order's terms change, and statuses move
  -- along the permitted transitions only.
  pub handle_payment_received-Evolves :
      Evolves w.db.orders (handle_payment_received config horizon rpc payload w).1.db.orders
  handle_payment_received-Evolves =
      go (handle_payment_received config horizon rpc payload w)
        (handle_payment_received-Outcome config horizon rpc payload w same)
    where
      go :
          (x : Result (Unit {0}) × World N)
          → Outcome config horizon rpc payload w x
          → Evolves w.db.orders x.1.db.orders
      go x (unknown _ e) = rw e (Evolves-refl w.db.orders)
      go x (refused _ _ _ e) = rw e (Evolves-refl w.db.orders)
      go x (processed o found may _ _ ends) = Evolves-trans (step_one-Evolves o found may) (
          Verdict-Evolves config horizon rpc payload.order_id payload.amount_usd _
            (with_status OrderStatus.settlement_pending o) (pending_world payload.order_id w) x
            (pending_found o found) refl ends)
