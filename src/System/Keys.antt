-- ===== src/System/Keys.antt =====
-- The rows' ids and payment references under settling and recovering.
use kreav.Base.{String, refl, ℕ, List, Option}
use kreav.App.{World, Result, Event, PaymentReceivedPayload}
use kreav.Store.{Db, Order, Product, Collaborator}
use kreav.Store.Query.{with_status}
use kreav.Orders.Machine.{OrderStatus}
use kreav.Stellar.Horizon.{StellarConfig, HorizonServer}
use kreav.Stellar.Rpc.{RpcServer}
use kreav.Stellar.Recording.{settled_as}
use kreav.Stellar.Settlement.{reverted}
use kreav.Stellar.Settlement.Verdict.{Verdict}
use kreav.Stellar.Settlement.Outcome.{Outcome, unknown, processed, pending_world}
use kreav.Startup.{rolled_back}
use kreav.Startup.Ending.{Recovery, announced, returned, lost, recorded, relinked, left}
use kreav.System.Same.{SameKeys, SameKeys-refl, SameKeys-trans, SameKeys-update_by}

module _ {N : Type 0} (config : StellarConfig) (rpc : RpcServer N) where
  pub Verdict-SameKeys :
      (horizon : HorizonServer N) (id : String) (amount : ℕ) (cs : List Collaborator) (d : Db)
      (es : List Event) (x : Result (Unit {0}) × World N)
      → Verdict config horizon rpc id amount cs d es x
      → SameKeys d.orders x.1.db.orders
  Verdict-SameKeys horizon id amount cs d es x (Verdict.threw _ _ _ _ e _) =
      rw e (SameKeys-refl d.orders)
  Verdict-SameKeys horizon id amount cs d es x (Verdict.undecided _ _ _ _ e _) =
      rw e (SameKeys-refl d.orders)
  Verdict-SameKeys horizon id amount cs d es x (Verdict.failed _ _ e _) = rw e (
      SameKeys-update_by id (with_status OrderStatus.settlement_failed) d.orders (λ y. refl)
        (λ y. refl))
  Verdict-SameKeys horizon id amount cs d es x (Verdict.rejected tx _ _ _ _ _ _ e _) =
      rw e (SameKeys-update_by id (reverted tx) d.orders (λ y. refl) (λ y. refl))
  Verdict-SameKeys horizon id amount cs d es x (Verdict.relinked s _ _ _ e _) =
      rw e (SameKeys-update_by id (settled_as s.tx_hash) d.orders (λ y. refl) (λ y. refl))
  Verdict-SameKeys horizon id amount cs d es x (Verdict.recorded tx _ _ _ e _) =
      rw e (SameKeys-update_by id (settled_as tx) d.orders (λ y. refl) (λ y. refl))

  pub Recovery-SameKeys :
      (o : Order) (p : Option Product) (d : Db) (es : List Event) (x : Result _ × World N)
      → Recovery config rpc o p d es x
      → SameKeys d.orders x.1.db.orders
  Recovery-SameKeys o p d es x (announced _ _ _ _ e _) = rw e (SameKeys-refl d.orders)
  Recovery-SameKeys o p d es x (left _ _ e _) = rw e (SameKeys-refl d.orders)
  Recovery-SameKeys o p d es x (returned _ _ _ _ e _) =
      rw e (SameKeys-update_by o.id rolled_back d.orders (λ y. refl) (λ y. refl))
  Recovery-SameKeys o p d es x (lost _ _ _ _ e _) = rw e (
      SameKeys-update_by o.id (with_status OrderStatus.settlement_failed) d.orders (λ y. refl)
        (λ y. refl))
  Recovery-SameKeys o p d es x (recorded tx _ _ _ _ e _) =
      rw e (SameKeys-update_by o.id (settled_as tx) d.orders (λ y. refl) (λ y. refl))
  Recovery-SameKeys o p d es x (relinked _ _ _ _ _ e _) =
      rw e
        (SameKeys-update_by o.id (with_status OrderStatus.settled) d.orders (λ y. refl) (λ y. refl))

pub Outcome-SameKeys :
    {N : Type 0} (config : StellarConfig) (horizon : HorizonServer N) (rpc : RpcServer N)
    (payload : PaymentReceivedPayload) (w : World N) (x : Result (Unit {0}) × World N)
    → Outcome config horizon rpc payload w x
    → SameKeys w.db.orders x.1.db.orders
Outcome-SameKeys config horizon rpc payload w x (unknown _ e) = rw e (SameKeys-refl w.db.orders)
Outcome-SameKeys config horizon rpc payload w x (Outcome.refused _ _ _ e) =
    rw e (SameKeys-refl w.db.orders)
Outcome-SameKeys config horizon rpc payload w x (processed o _ _ _ _ ends) =
    SameKeys-trans w.db.orders (pending_world payload.order_id w).db.orders x.1.db.orders
      (SameKeys-update_by payload.order_id (with_status OrderStatus.settlement_pending) w.db.orders
        (λ y. refl) (λ y. refl))
      (Verdict-SameKeys config rpc horizon payload.order_id payload.amount_usd _ _ _ x ends)
