-- ===== src/Startup/Steps.antt =====
-- What the steps of a recovery write.
use kreav.Base.{
  String, ◌≡◌, ◌≢◌, refl, ◌⊎◌, inl, inr, Bool, true, false, Option, none, some, List, [], ◌∷◌,
  arith, Option-cases,
}
use mathlib.Core.Path.{subst}
use kreav.App.{World, Result, ok, err, Exn, Event, gets, pure, ◌>>=◌}
use kreav.Orders.Machine.{OrderStatus}
use kreav.Store.{Db, Collaborator, Order, Product, Settlement}
use kreav.Store.Query.{find_order, find_settlement, active_collaborators, update_order}
use kreav.Stellar.Horizon.{StellarConfig}
use kreav.Stellar.Rpc.{RpcServer}
use kreav.Stellar.Recording.{record_found, record_recovered_settlement, record_settlement_success}
use kreav.Startup.{short_ref, give_up, record_as, roll_back, confirm_found}
use kreav.Startup.Ending.{
  Known, Recovery, announced, returned, lost, recorded, relinked, left, Stepped, ended, threw, Lost,
  without_creators, IsDropped,
}

module _ {N : Type 0} (config : StellarConfig) (rpc : RpcServer N) where
  module _ (o : Order) (p : Option Product)
      (pending : o.status ≡ OrderStatus.settlement_pending) where
    pub record_as-Stepped :
        (tx : String) (w : World N)
        → find_order o.id w.db ≡ some o
        → Known config rpc o
        → Stepped config rpc o p w.db w.events (record_as o tx w)
    unfolding record_as record_recovered_settlement record_found record_settlement_success
        update_order
    record_as-Stepped tx w found known =
        go (active_collaborators o.product_id w.db) refl (Option-cases (find_settlement o.id w.db))
      where
        go :
            (cs : List Collaborator)
            → active_collaborators o.product_id w.db ≡ cs
            → (find_settlement o.id w.db ≡ none)
              ⊎ ((s : Settlement) × (find_settlement o.id w.db ≡ some s))
            → Stepped config rpc o p w.db w.events (record_as o tx w)
        go [] none_active free = ended (
            lost true pending (without_creators known none_active)
              (ground (arith, found, none_active)) (ground (arith, found, none_active))
              (ground (arith, found, none_active)))
        go (c ∷ cs) active (inl free) = ended (
            recorded tx pending known free (ground (arith, found, active, free))
              (ground (arith, found, active, free)) (ground (arith, found, active, free)))
        go (c ∷ cs) active (inr (s, exists)) =
            threw Exn.unique_violation s exists (ground (arith, found, active, exists))
              (ground (arith, found, active, exists)) (ground (arith, found, active, exists))

    pub give_up-Recovery :
        (w : World N)
        → find_order o.id w.db ≡ some o
        → Lost config rpc o w.db false
        → Recovery config rpc o p w.db w.events (give_up o w)
    unfolding give_up update_order
    give_up-Recovery w found why =
        lost false pending why (ground (arith, found)) (ground (arith, found))
          (ground (arith, found))

    pub roll_back-Recovery :
        (w : World N)
        → find_order o.id w.db ≡ some o
        → IsDropped config rpc o w.db
        → Recovery config rpc o p w.db w.events (roll_back o p w)
    unfolding roll_back update_order
    roll_back-Recovery w found why =
        returned (short_ref "recovery-" o.id) pending why (ground (arith, found))
          (ground (arith, found)) (ground (arith, found))

    -- The recovery of an order that ends has not thrown.
    pub Recovery-ok :
        (d : Db) (es : List Event) (x : Result Bool × World N)
        → Recovery config rpc o p d es x
        → (e : Exn) → x.0 ≢ err e
    Recovery-ok d es x (announced _ _ _ t _ _) e q = cc
    Recovery-ok d es x (returned _ _ _ t _ _) e q = cc
    Recovery-ok d es x (lost _ _ _ t _ _) e q = cc
    Recovery-ok d es x (recorded _ _ _ _ t _ _) e q = cc
    Recovery-ok d es x (relinked _ _ _ _ t _ _) e q = cc
    Recovery-ok d es x (left _ t _ _) e q = cc

    -- A later step from a world whose database and events are those of the first.
    pub Recovery-Alike :
        (v w : World N) (x : Result Bool × World N)
        → v.db ≡ w.db
        → v.events ≡ w.events
        → Recovery config rpc o p v.db v.events x
        → Recovery config rpc o p w.db w.events x
    Recovery-Alike v w x a b r =
        subst (λ es. Recovery config rpc o p w.db es x) b
          (subst (λ d. Recovery config rpc o p d v.events x) a r)

    pub confirm_found-Recovery :
        (tx : String) (w : World N)
        → find_order o.id w.db ≡ some o
        → Known config rpc o
        → Recovery config rpc o p w.db w.events
            ((gets (find_settlement o.id) >>= confirm_found o tx) w)
    unfolding confirm_found update_order
    confirm_found-Recovery tx w found known = go (find_settlement o.id w.db) refl
      where
        go :
            (s : Option Settlement)
            → find_settlement o.id w.db ≡ s
            → Recovery config rpc o p w.db w.events (confirm_found o tx s w)
        go (some s) e =
            relinked s pending known e (ground (arith, found)) (ground (arith, found))
              (ground (arith, found))
        go none e = only (record_as-Stepped tx w found known)
          where
            only :
                Stepped config rpc o p w.db w.events (record_as o tx w)
                → Recovery config rpc o p w.db w.events (record_as o tx w)
            only (ended r) = r
            only (threw _ s exists _ _ _) = absurd (cc (e, exists))

    pub record_as-only : (tx : String) (w : World N) → (record_as o tx w).0 ≢ ok false
    unfolding record_as
    record_as-only tx w = go (record_recovered_settlement o.id tx w)
      where
        go : (x : Result (Unit {0}) × World N) → ((((λ _. x) >>= λ _. pure true) w).0 ≢ ok false)
        go (ok t, v) e = cc
        go (err y, v) e = cc
