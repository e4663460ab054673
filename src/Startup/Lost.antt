-- ===== src/Startup/Lost.antt =====
-- A settlement that was recorded, but whose order was not yet updated when the process stopped.
use kreav.Base.{
  false, String, ◌≡◌, refl, ap, ◌∙◌, true, none, some, Option, List, if◌then◌else◌, [], ◌∷◌, arith,
  Bool, false,
}
use kreav.App.{◌>>=◌, pure, try_catch, World, Result, ok, err}
use kreav.Orders.Machine.{OrderStatus}
use kreav.Store.{Order, Product, Settlement, Collaborator}
use kreav.Store.Table.{update_by, find_by, find_by-update_by_self}
use kreav.Store.Query.{
  order_id, find_order, find_settlement, with_status, update_order, active_collaborators,
}
use kreav.Stellar.Horizon.{StellarConfig}
use kreav.Stellar.Rpc.{RpcServer, is_settled}
use kreav.Stellar.Recording.{record_recovered_settlement, record_found, record_settlement_success}
use kreav.Stellar.Settlement.Reading.{is_settled-Reads}
use kreav.Startup.{
  recover_order, recover_unhashed, recover_marked, record_as, give_up, recover_by_status,
  recover_settlement_pending, short_ref,
}

module _ {N : Type 0} (o : Order) (s : Settlement) (v : World N)
    (found : find_order o.id v.db ≡ some o) (exists : find_settlement o.id v.db ≡ some s) where
  -- Recording again is refused by the unique index, or finds no collaborator and fails the order;
  -- then the order is given up.
  give_up_recorded :
      (tx : String)
      → find_order o.id
          ((try_catch (record_as o tx) (λ e. pure false) >>= λ recovered.
              if recovered then pure true else give_up o)
            v).1.db
        ≡ some (with_status OrderStatus.settlement_failed o)
  unfolding record_as give_up update_order record_recovered_settlement record_found
      record_settlement_success
  give_up_recorded tx = go (active_collaborators o.product_id v.db) refl
    where
      after :
          find_by order_id o.id
            (update_by order_id o.id (with_status OrderStatus.settlement_failed) v.db.orders)
          ≡ some (with_status OrderStatus.settlement_failed o)
      after =
          find_by-update_by_self order_id o.id (with_status OrderStatus.settlement_failed)
            (λ y. refl) v.db.orders found

      go :
          (cs : List Collaborator)
          → active_collaborators o.product_id v.db ≡ cs
          → find_order o.id
              ((try_catch (record_as o tx) (λ e. pure false) >>= λ recovered.
                  if recovered then pure true else give_up o)
                v).1.db
            ≡ some (with_status OrderStatus.settlement_failed o)
      go [] none_active = ground (arith, found, exists, none_active, after)
      go (c ∷ cs) active = ground (arith, found, exists, active, after)

-- If the settlement of an order is in the database and the contract answers that it is settled,
-- while the order is SETTLEMENT_PENDING without a hash, then recovery marks it SETTLEMENT_FAILED.
pub recover_order-loses_settled :
    {N : Type 0} (config : StellarConfig) (rpc : RpcServer N) (o : Order) (p : Option Product)
    (w : World N) (s : Settlement)
    → o.status ≡ OrderStatus.settlement_pending
    → o.tx_hash ≡ none
    → find_order o.id w.db ≡ some o
    → find_settlement o.id w.db ≡ some s
    → (is_settled config rpc o.id w).0 ≡ ok true
    → find_order o.id (recover_order config rpc o p w).1.db
      ≡ some (with_status OrderStatus.settlement_failed o)
unfolding recover_by_status recover_settlement_pending recover_unhashed recover_marked
recover_order-loses_settled {N} config rpc o p w s pending unhashed found exists settled =
    ap (λ (x : Result Bool × World N). find_order o.id x.1.db)
      (ap (λ at. recover_by_status config rpc o p at w) pending
        ∙ ap (λ hash. recover_settlement_pending config rpc o p hash w) unhashed)
    ∙ go (is_settled config rpc o.id w) settled ((is_settled-Reads config rpc o.id).alike w).same_db
  where
    go :
        (y : Result Bool × World N)
        → y.0 ≡ ok true
        → y.1.db ≡ w.db
        → find_order o.id
            ((try_catch
                  ((λ _. y) >>= λ settled.
                    if settled then record_as o (short_ref "unknown-" o.id) else pure false)
                  (λ e. pure false)
                >>= λ recovered. if recovered then pure true else give_up o)
              w).1.db
          ≡ some (with_status OrderStatus.settlement_failed o)
    go (err e, v) q a = cc
    go (ok false, v) q a = cc
    go (ok true, v) q a =
        give_up_recorded o s v (ap (find_order o.id) a ∙ found)
          (ap (find_settlement o.id) a ∙ exists) (short_ref "unknown-" o.id)
