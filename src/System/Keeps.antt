-- ===== src/System/Keeps.antt =====
-- What settling and recovering keep of a sound state.
use kreav.Base.{Bool, ◌≡◌, refl, sym, ap, ◌∙◌, Option, some, List, [], ◌++◌, All}
use mathlib.Core.Path.{subst}
use mathlib.Core.List.{append-nil}
use kreav.App.{World, Result, Event, PaymentReceivedPayload}
use kreav.Store.{Order, Product}
use kreav.Store.Query.{find_order}
use kreav.Orders.Evolves.{Evolves, Evolves-refl, Evolves-trans, HasUniqueIds}
use kreav.Orders.Payment.Refs.{HasUniqueRefs}
use kreav.Stellar.Horizon.{StellarConfig, HorizonServer}
use kreav.Stellar.Rpc.{RpcServer}
use kreav.Stellar.Settlement.{handle_payment_received}
use kreav.Stellar.Settlement.Verdict.{Verdict}
use kreav.Stellar.Settlement.Outcome.{Outcome, unknown, processed, handle_payment_received-Outcome}
use kreav.Stellar.Settlement.Evolves.{handle_payment_received-Evolves}
use kreav.Startup.{recover_order}
use kreav.Startup.Ending.{Recovery, announced, returned, lost, recorded, relinked, left}
use kreav.Startup.Laws.{recover_order-Recovery}
use kreav.Startup.Evolves.{recover_order-Evolves}
use kreav.System.Same.{
  SameKeys, SameKeys-refl, SameKeys-trans, SameKeys-HasUniqueIds, SameKeys-HasUniqueRefs,
}
use kreav.System.Keys.{Outcome-SameKeys, Recovery-SameKeys}
use kreav.System.Sound.{Announced, IsOrder, IsOrder-Evolves, events-Announced, completed-IsSplit}

-- What a backend's database and its events satisfy at all times.
pub record IsSound {N : Type 0} (w : World N) : Type 0 where
  pub unique_ids : HasUniqueIds w.db.orders
  pub unique_refs : HasUniqueRefs w.db.orders
  pub events_announced : All (Announced w.db) w.events

-- A change that loses no order, keeps the rows' keys, and emits only events that are announced.
pub record Keeps {N : Type 0} (v w : World N) : Type 0 where
  pub evolves : Evolves v.db.orders w.db.orders
  pub same_keys : SameKeys v.db.orders w.db.orders
  pub still_announced : All (Announced v.db) v.events → All (Announced w.db) w.events

pub Keeps-refl : {N : Type 0} (w : World N) → Keeps w w
Keeps-refl w = record {
  evolves = Evolves-refl w.db.orders;
  same_keys = SameKeys-refl w.db.orders;
  still_announced = λ a. a;
}

pub Keeps-trans : {N : Type 0} (u v w : World N) → Keeps u v → Keeps v w → Keeps u w
Keeps-trans u v w a b = record {
  evolves = Evolves-trans a.evolves b.evolves;
  same_keys = SameKeys-trans u.db.orders v.db.orders w.db.orders a.same_keys b.same_keys;
  still_announced = λ h. b.still_announced (a.still_announced h);
}

pub Keeps-IsSound : {N : Type 0} (v w : World N) → Keeps v w → IsSound v → IsSound w
Keeps-IsSound v w k s = record {
  unique_ids = SameKeys-HasUniqueIds v.db.orders w.db.orders k.same_keys s.unique_ids;
  unique_refs = SameKeys-HasUniqueRefs v.db.orders w.db.orders k.same_keys s.unique_refs;
  events_announced = k.still_announced s.events_announced;
}

-- The events after one more, or none.
pub events-Announced_more :
    {N : Type 0} (v w : World N) (new : List Event)
    → Evolves v.db.orders w.db.orders
    → w.events ≡ v.events ++ new
    → All (Announced w.db) new
    → All (Announced v.db) v.events
    → All (Announced w.db) w.events
events-Announced_more v w new ev e fresh a =
    subst (All (Announced w.db)) (sym e) (events-Announced v.db w.db v.events new ev fresh a)

pub events-Announced_same :
    {N : Type 0} (v w : World N)
    → Evolves v.db.orders w.db.orders
    → w.events ≡ v.events
    → All (Announced v.db) v.events
    → All (Announced w.db) w.events
events-Announced_same v w ev e a =
    events-Announced_more v w [] ev (e ∙ sym (append-nil v.events)) tt a

module _ {N : Type 0} (config : StellarConfig) (horizon : HorizonServer N) (rpc : RpcServer N) where
  pub recover_order-Keeps :
      (o : Order) (p : Option Product) (w : World N)
      → find_order o.id w.db ≡ some o
      → Keeps w (recover_order config rpc o p w).1
  recover_order-Keeps o p w found = record {
    evolves = ev;
    same_keys = Recovery-SameKeys config rpc o p w.db w.events x ends;
    still_announced = announced_by ends;
  }
    where
      x : Result Bool × World N
      x = recover_order config rpc o p w

      ends : Recovery config rpc o p w.db w.events x
      ends = recover_order-Recovery config rpc o p w found

      ev : Evolves w.db.orders x.1.db.orders
      ev = recover_order-Evolves config rpc o p w found

      here : IsOrder x.1.db o.id o.amount_usd
      here = IsOrder-Evolves w.db x.1.db o.id o.amount_usd ev (o, found, refl)

      announced_by :
          Recovery config rpc o p w.db w.events x
          → All (Announced w.db) w.events
          → All (Announced x.1.db) x.1.events
      announced_by (announced _ _ _ _ _ e) = events-Announced_more w x.1 _ ev e (here, tt)
      announced_by (returned _ _ _ _ _ e) = events-Announced_more w x.1 _ ev e (here, tt)
      announced_by (lost _ _ _ _ _ e) = events-Announced_same w x.1 ev e
      announced_by (recorded _ _ _ _ _ _ e) =
          events-Announced_more w x.1 _ ev e (completed-IsSplit x.1.db o.id o.amount_usd here, tt)
      announced_by (relinked _ _ _ _ _ _ e) = events-Announced_same w x.1 ev e
      announced_by (left _ _ _ e) = events-Announced_same w x.1 ev e

  pub settle-Keeps :
      (p : PaymentReceivedPayload) (w : World N)
      → IsOrder w.db p.order_id p.amount_usd
      → Keeps w (handle_payment_received config horizon rpc p w).1
  settle-Keeps p w (o, found, amount) = record {
    evolves = ev;
    same_keys = Outcome-SameKeys config horizon rpc p w x ends;
    still_announced = announced_by ends;
  }
    where
      x : Result (Unit {0}) × World N
      x = handle_payment_received config horizon rpc p w

      same : (q : Order) → find_order p.order_id w.db ≡ some q → q.amount_usd ≡ p.amount_usd
      same q e = let one : q ≡ o = cc (found, e) in ap (λ (y : Order). y.amount_usd) one ∙ amount

      ends : Outcome config horizon rpc p w x
      ends = handle_payment_received-Outcome config horizon rpc p w same

      ev : Evolves w.db.orders x.1.db.orders
      ev = handle_payment_received-Evolves config horizon rpc p w same

      announced_by :
          Outcome config horizon rpc p w x
          → All (Announced w.db) w.events
          → All (Announced x.1.db) x.1.events
      announced_by (unknown _ e) = events-Announced_same w x.1 ev (ap (λ y. y.1.events) e)
      announced_by (Outcome.refused _ _ _ e) =
          events-Announced_same w x.1 ev (ap (λ y. y.1.events) e)
      announced_by (processed _ _ _ _ _ (Verdict.threw _ _ _ _ _ e)) =
          events-Announced_same w x.1 ev e
      announced_by (processed _ _ _ _ _ (Verdict.undecided _ _ _ _ _ e)) =
          events-Announced_same w x.1 ev e
      announced_by (processed _ _ _ _ _ (Verdict.failed _ _ _ e)) = events-Announced_same w x.1 ev e
      announced_by (processed _ _ _ _ _ (Verdict.rejected _ _ _ _ _ _ _ _ e)) =
          events-Announced_same w x.1 ev e
      announced_by (processed _ _ _ _ _ (Verdict.relinked _ _ _ _ _ e)) =
          events-Announced_same w x.1 ev e
      announced_by (processed _ _ _ _ _ (Verdict.recorded _ _ _ _ _ e)) =
          events-Announced_more w x.1 _ ev e (
            completed-IsSplit x.1.db p.order_id p.amount_usd
                (IsOrder-Evolves w.db x.1.db p.order_id p.amount_usd ev (o, found, amount)),
            tt,
          )
