-- ===== src/Stellar/Settlement/Paid.antt =====
-- SETTLED orders and the network's answers, under `handlePaymentReceived`.
use kreav.Base.{◌∙◌, ℕ, String, ◌≡◌, ◌≢◌, refl, some, List, arith}
use mathlib.Core.Path.{subst}
use kreav.App.{World, PaymentReceivedPayload, Result}
use kreav.Orders.Machine.{OrderStatus}
use kreav.Store.{Collaborator, Order}
use kreav.Store.Query.{order_id, find_order, with_status, active_collaborators}
use kreav.Store.Table.{find_by-update_by_self, find_by-update_by_ne}
use kreav.Stellar.Horizon.{StellarConfig, HorizonServer}
use kreav.Stellar.Rpc.{RpcServer}
use kreav.Stellar.Settlement.{handle_payment_received, reverted}
use kreav.Stellar.Settlement.Verdict.{Verdict, PaidOut}
use kreav.Stellar.Settlement.Outcome.{
  Outcome, pending_world, handle_payment_received-Outcome, unknown, refused, processed,
}

module _ {N : Type 0} (config : StellarConfig) (horizon : HorizonServer N) (rpc : RpcServer N)
    (id : String) (amount : ℕ) (cs : List Collaborator) where
  settled_by-Verdict :
      (o p : Order) (w : World N) (x : Result (Unit {0}) × World N)
      → find_order id w.db ≡ some o
      → o.status ≡ OrderStatus.settlement_pending
      → Verdict config horizon rpc id amount cs w.db w.events x
      → find_order id x.1.db ≡ some p
      → p.status ≡ OrderStatus.settled
      → PaidOut config rpc id amount cs
  settled_by-Verdict o p w x found pending (Verdict.threw _ _ _ _ d _) after s = ground arith
  settled_by-Verdict o p w x found pending (Verdict.undecided _ _ _ _ d _) after s = ground arith
  settled_by-Verdict o p w x found pending (Verdict.failed _ _ d _) after s = ground (
    arith,
    find_by-update_by_self order_id id (with_status OrderStatus.settlement_failed) (λ y. refl)
        w.db.orders found,
  )
  settled_by-Verdict o p w x found pending (Verdict.rejected tx _ _ _ _ _ _ d _) after s =
      ground (arith, find_by-update_by_self order_id id (reverted tx) (λ y. refl) w.db.orders found)
  settled_by-Verdict o p w x found pending (Verdict.relinked _ paid _ _ _ _) after s = paid
  settled_by-Verdict o p w x found pending (Verdict.recorded _ paid _ _ _ _) after s = paid

  others-Verdict :
      (j : String) (w : World N) (x : Result (Unit {0}) × World N)
      → id ≢ j
      → Verdict config horizon rpc id amount cs w.db w.events x
      → find_order j x.1.db ≡ find_order j w.db
  others-Verdict j w x ne (Verdict.threw _ _ _ _ d _) = rw d
  others-Verdict j w x ne (Verdict.undecided _ _ _ _ d _) = rw d
  others-Verdict j w x ne (Verdict.failed _ _ d _) =
      rw d (find_by-update_by_ne order_id id _ (λ y. refl) j w.db.orders ne)
  others-Verdict j w x ne (Verdict.rejected tx _ _ _ _ _ _ d _) =
      rw d (find_by-update_by_ne order_id id _ (λ y. refl) j w.db.orders ne)
  others-Verdict j w x ne (Verdict.relinked s _ _ _ d _) =
      rw d (find_by-update_by_ne order_id id _ (λ y. refl) j w.db.orders ne)
  others-Verdict j w x ne (Verdict.recorded tx _ _ _ d _) =
      rw d (find_by-update_by_ne order_id id _ (λ y. refl) j w.db.orders ne)

module _ {N : Type 0} (config : StellarConfig) (horizon : HorizonServer N) (rpc : RpcServer N)
    (payload : PaymentReceivedPayload) (w : World N)
    (same : (o : Order)
      → find_order payload.order_id w.db ≡ some o
      → o.amount_usd ≡ payload.amount_usd) where
  -- If the event leaves the order SETTLED, which was not before, then the network has confirmed
  -- the settlement of exactly this order, amount and list of collaborators, or has answered that
  -- the order is settled.
  pub handle_payment_received-Paid :
      (o p : Order)
      → find_order payload.order_id w.db ≡ some o
      → o.status ≢ OrderStatus.settled
      → let after = (handle_payment_received config horizon rpc payload w).1.db in
        find_order payload.order_id after ≡ some p
        → p.status ≡ OrderStatus.settled
        → PaidOut config rpc payload.order_id payload.amount_usd
            (active_collaborators o.product_id w.db)
  handle_payment_received-Paid o p found before after s =
      go (handle_payment_received config horizon rpc payload w)
        (handle_payment_received-Outcome config horizon rpc payload w same) after
    where
      go :
          (x : Result (Unit {0}) × World N)
          → Outcome config horizon rpc payload w x
          → find_order payload.order_id x.1.db ≡ some p
          → PaidOut config rpc payload.order_id payload.amount_usd
              (active_collaborators o.product_id w.db)
      go x (unknown missing e) a = ground arith
      go x (refused _ _ _ e) a = ground (arith, before)
      go x (processed q f may _ _ ends) a =
          let one : q ≡ o = cc (f, found) in
          subst
            (λ (y : Order).
              PaidOut config rpc payload.order_id payload.amount_usd
                (active_collaborators y.product_id w.db))
            one
            (settled_by-Verdict config horizon rpc payload.order_id payload.amount_usd
              (active_collaborators q.product_id w.db)
              (with_status OrderStatus.settlement_pending q) p (pending_world payload.order_id w) x
              (find_by-update_by_self order_id payload.order_id
                (with_status OrderStatus.settlement_pending) (λ y. refl) w.db.orders f)
              refl ends a s)

  -- Every other order is as it was.
  pub handle_payment_received-others :
      (j : String)
      → payload.order_id ≢ j
      → find_order j (handle_payment_received config horizon rpc payload w).1.db ≡ find_order j w.db
  handle_payment_received-others j ne =
      go (handle_payment_received config horizon rpc payload w)
        (handle_payment_received-Outcome config horizon rpc payload w same)
    where
      go :
          (x : Result (Unit {0}) × World N)
          → Outcome config horizon rpc payload w x
          → find_order j x.1.db ≡ find_order j w.db
      go x (unknown missing e) = rw e
      go x (refused _ _ _ e) = rw e
      go x (processed q f may _ _ ends) =
          others-Verdict config horizon rpc payload.order_id payload.amount_usd _ j
            (pending_world payload.order_id w) x ne ends
          ∙ find_by-update_by_ne order_id payload.order_id
              (with_status OrderStatus.settlement_pending) (λ y. refl) j w.db.orders ne
