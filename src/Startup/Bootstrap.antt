-- ===== src/Startup/Bootstrap.antt =====
-- The loop of the recovery over all stuck orders.
use kreav.Base.{
  inl, inr, Bool-cases, inl, Bool-cases, keep, eq_iff, All-with, map, eq_refl, false, Bool, All,
  String, ◌≡◌, ◌≢◌, refl, ◌∙◌, Option, some, List, ◌∷◌, [], arith,
}
use kreav.App.{err, ◌>>=◌, pure, try_catch, ok, World, Result}
use kreav.Orders.Evolves.{HasUniqueIds, Evolves-trans, Evolves, Evolves-refl}
use kreav.Store.{Db, Order, Product}
use kreav.Store.Table.{find_by-update_by_ne, find_by}
use kreav.Store.Query.{order_id, find_order}
use kreav.Stellar.Horizon.{StellarConfig}
use kreav.Stellar.Rpc.{RpcServer}
use kreav.Startup.{
  is_stuck, stuck_orders, find_product, on_application_bootstrap, recover_all, recover_order,
}
use kreav.Startup.Ending.{Recovery, announced, returned, lost, recorded, relinked, left}
use kreav.Startup.Laws.{recover_order-Recovery}
use kreav.Startup.Evolves.{recover_order-Evolves}

module _ {N : Type 0} (config : StellarConfig) (rpc : RpcServer N) where
  -- The recovery of one order leaves every other as it was.
  recover_order-others :
      (o : Order) (p : Option Product) (w : World N) (j : String)
      → find_order o.id w.db ≡ some o
      → o.id ≢ j
      → find_order j (recover_order config rpc o p w).1.db ≡ find_order j w.db
  recover_order-others o p w j found ne =
      go (recover_order config rpc o p w) (recover_order-Recovery config rpc o p w found)
    where
      go :
          (x : Result _ × World N)
          → Recovery config rpc o p w.db w.events x
          → find_order j x.1.db ≡ find_order j w.db
      go x (announced _ _ _ _ sd _) = rw sd
      go x (left _ _ sd _) = rw sd
      go x (returned _ _ _ _ sd _) =
          rw sd (find_by-update_by_ne order_id o.id _ (λ y. refl) j w.db.orders ne)
      go x (lost _ _ _ _ sd _) =
          rw sd (find_by-update_by_ne order_id o.id _ (λ y. refl) j w.db.orders ne)
      go x (recorded _ _ _ _ _ sd _) =
          rw sd (find_by-update_by_ne order_id o.id _ (λ y. refl) j w.db.orders ne)
      go x (relinked _ _ _ _ _ sd _) =
          rw sd (find_by-update_by_ne order_id o.id _ (λ y. refl) j w.db.orders ne)

  -- The stuck orders that are left are as they were read, and their ids differ.
  abbrev Readable : Db → List (Order × Option Product) → Type 0
  Readable d [] = Unit {0}
  Readable d ((o, p) ∷ more) =
      (find_order o.id d ≡ some o)
      × All (λ (q : Order × Option Product). o.id ≢ q.0.id) more
      × Readable d more

  Readable-others :
      (o : Order) (d e : Db) (more : List (Order × Option Product))
      → ((j : String) → o.id ≢ j → find_order j e ≡ find_order j d)
      → All (λ (q : Order × Option Product). o.id ≢ q.0.id) more
      → Readable d more
      → Readable e more
  Readable-others o d e [] others ne r = tt
  Readable-others o d e ((q, p) ∷ more) others ne r =
      (others q.id ne.0 ∙ r.0, r.1, Readable-others o d e more others ne.1 r.2)

  module _ (P : World N → World N → Type 0) (at_once : (w : World N) → P w w)
      (in_turn : (u v w : World N) → P u v → P v w → P u w)
      (one : (o : Order) (p : Option Product) (w : World N)
        → find_order o.id w.db ≡ some o
        → P w (recover_order config rpc o p w).1) where
    -- What holds of one recovery, and of one after another, holds of the loop.
    recover_all-keeps :
        (stuck : List (Order × Option Product)) (w : World N)
        → Readable w.db stuck
        → P w (recover_all config rpc stuck w).1 × ((recover_all config rpc stuck w).0 ≡ ok tt)
    unfolding recover_all
    recover_all-keeps [] w r = (at_once w, refl)
    recover_all-keeps ((o, p) ∷ more) w r =
        go (recover_all-keeps more) (recover_order config rpc o p w) (one o p w r.0)
          (λ j ne. recover_order-others o p w j r.0 ne)
      where
        Good : World N → Result (Unit {0}) × World N → Type 0
        Good v x = P v x.1 × (x.0 ≡ ok tt)

        go :
            ((v : World N) → Readable v.db more → Good v (recover_all config rpc more v))
            → (x : Result Bool × World N) → P w x.1
            → ((j : String) → o.id ≢ j → find_order j x.1.db ≡ find_order j w.db)
            → Good w (
                (try_catch (λ (_ : World N). x) (λ e. pure false) >>= λ _.
                recover_all config rpc more)
                  w)
        go later (ok b, v) h others =
            let rest = later v (Readable-others o w.db v.db more others r.1 r.2) in
            (in_turn _ _ _ h rest.0, rest.1)
        go later (err e, v) h others =
            let rest = later v (Readable-others o w.db v.db more others r.1 r.2) in
            (in_turn _ _ _ h rest.0, rest.1)

  pub find_by-own :
      (os : List Order)
      → HasUniqueIds os
      → All (λ (o : Order). find_by order_id o.id os ≡ some o) os
  unfolding find_by
  find_by-own [] u = tt
  find_by-own (o ∷ os) u = (
    ground (arith, eq_refl o.id),
    All-with os (λ q ne e. ground (arith, eq_iff o.id q.id)) u.0 (find_by-own os u.1),
  )

  apart :
      (d : Db) (o : Order) (os : List Order)
      → All (λ (q : Order). o.id ≢ q.id) os
      → All
          (λ (q : Order × Option Product). o.id ≢ q.0.id)
          (map
            (λ (q : Order). (q, find_product q.product_id d))
            (keep (λ (q : Order). is_stuck q.status) os))
  apart d o [] ne = tt
  apart d o (q ∷ os) ne = elim (Bool-cases (is_stuck q.status)) [
    | inl at ↦ rw (at, All) (ne.0, apart d o os ne.1)
    | inr not_at ↦ rw (not_at, All) (apart d o os ne.1)
  ]

  stuck-Readable :
      (d : Db) (os : List Order)
      → HasUniqueIds os
      → All (λ (o : Order). find_order o.id d ≡ some o) os
      → Readable d (
          map
            (λ (o : Order). (o, find_product o.product_id d))
            (keep (λ (o : Order). is_stuck o.status) os))
  stuck-Readable d [] u found = tt
  stuck-Readable d (o ∷ os) u found = elim (Bool-cases (is_stuck o.status)) [
    | inl at ↦ rw (at, Readable) (found.0, apart d o os u.0, stuck-Readable d os u.1 found.1)
    | inr not_at ↦ rw (not_at, Readable) (stuck-Readable d os u.1 found.1)
  ]

  pub on_application_bootstrap-keeps :
      (P : World N → World N → Type 0)
      → ((w : World N) → P w w)
      → ((u v w : World N) → P u v → P v w → P u w)
      → ((o : Order) (p : Option Product) (w : World N)
          → find_order o.id w.db ≡ some o
          → P w (recover_order config rpc o p w).1)
      → (w : World N) → HasUniqueIds w.db.orders
      → let x = on_application_bootstrap config rpc w in P w x.1 × (x.0 ≡ ok tt)
  unfolding on_application_bootstrap
  on_application_bootstrap-keeps P at_once in_turn one w u =
      recover_all-keeps P at_once in_turn one (stuck_orders w.db) w
        (stuck-Readable w.db w.db.orders u (find_by-own w.db.orders u))

  -- Whatever the network answers, recovery at the start throws nothing, loses no order, changes no
  -- order's terms, and moves statuses along the permitted transitions only, over all stuck orders.
  pub on_application_bootstrap-Evolves :
      (w : World N)
      → HasUniqueIds w.db.orders
      → let x = on_application_bootstrap config rpc w in
        Evolves w.db.orders x.1.db.orders × (x.0 ≡ ok tt)
  on_application_bootstrap-Evolves w u =
      on_application_bootstrap-keeps (λ v x. Evolves v.db.orders x.db.orders)
        (λ v. Evolves-refl v.db.orders) (λ _ _ _ a b. Evolves-trans a b)
        (λ o p v found. recover_order-Evolves config rpc o p v found) w u
