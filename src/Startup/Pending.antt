-- ===== src/Startup/Pending.antt =====
-- The recovery of an order that is SETTLEMENT_PENDING, with a hash and without.
use kreav.Base.{
  String, ◌≡◌, ◌≢◌, refl, sym, inl, inr, ◌∙◌, ap, Bool, true, false, Option, none, some, List,
  if◌then◌else◌,
}
use mathlib.Core.Path.{subst}
use kreav.App.{World, App, Result, ok, err, Event, try_catch, pure, ◌>>=◌, call}
use kreav.App.Reads.{Alike}
use kreav.Orders.Machine.{OrderStatus}
use kreav.Store.{Db, Order, Product, Settlement}
use kreav.Store.Query.{find_order, find_settlement}
use kreav.Stellar.Horizon.{StellarConfig}
use kreav.Stellar.Rpc.{RpcServer, TxStatus, success, failed, not_found, is_settled}
use kreav.Stellar.Settlement.Reading.{is_settled-Reads}
use kreav.Startup.{
  short_ref, give_up, record_as, roll_back, on_retry, recover_marked, recover_unhashed, recheck,
  on_first, recover_hashed,
}
use kreav.Startup.Ending.{
  SettlesNothing, IsDropped, IsUnhashed, Lost, on_chain, unmarked, unrecorded, marked, succeeded,
  Recovery, left, Stepped, ended, threw,
}
use kreav.Startup.Steps.{
  record_as-Stepped, give_up-Recovery, roll_back-Recovery, Recovery-ok, Recovery-Alike,
  confirm_found-Recovery, record_as-only,
}

module _ {N : Type 0} (config : StellarConfig) (rpc : RpcServer N) where
  module _ (o : Order) (p : Option Product)
      (pending : o.status ≡ OrderStatus.settlement_pending) where
    -- A result of a `try` block whose `catch` answers false.
    abbrev caught : Result Bool × World N → Result Bool × World N
    caught x = elim x.0 as (λ _. Result Bool × World N) [
      | ok b ↦ (ok b, x.1)
      | err e ↦ (ok false, x.1)
    ]

    caught-Recovery :
        (d : Db) (es : List Event) (x : Result Bool × World N)
        → Recovery config rpc o p d es x
        → Recovery config rpc o p d es (caught x)
    caught-Recovery d es (ok b, w) r = r
    caught-Recovery d es (err e, w) r =
        absurd (Recovery-ok config rpc o p pending d es (err e, w) r e refl)

    -- The second check has ended the recovery, or settled nothing.
    data Rechecked (tx : String) (n : N) (d : Db) (es : List Event)
        (x : Result (Option Bool) × World N) : Type 0 where
      done :
          (b : Bool)
          → x.0 ≡ ok (some b)
          → Recovery config rpc o p d es (ok b, x.1)
          → Rechecked tx n d es x
      undone :
          SettlesNothing config rpc o d tx n
          → x.0 ≡ ok none
          → x.1.db ≡ d
          → x.1.events ≡ es
          → Rechecked tx n d es x

    -- The second check's `try` block around a result of recording or giving up.
    abbrev retried : Result Bool × World N → World N → Result (Option Bool) × World N
    retried x = try_catch ((λ _. x) >>= λ b. pure (some b)) (λ e. pure none)

    retried-Rechecked :
        (tx : String) (n : N) (d : Db) (es : List Event) (x : Result Bool × World N) (w : World N)
        → ((s : Settlement) → find_settlement o.id d ≡ some s → SettlesNothing config rpc o d tx n)
        → Stepped config rpc o p d es x
        → Rechecked tx n d es (retried x w)
    retried-Rechecked tx n d es (ok b, v) w still (ended r) = done b refl r
    retried-Rechecked tx n d es (ok b, v) w still (threw e s exists t sd se) = cc
    retried-Rechecked tx n d es (err e, v) w still (ended r) =
        absurd (Recovery-ok config rpc o p pending d es (err e, v) r e refl)
    retried-Rechecked tx n d es (err e, v) w still (threw f s exists t sd se) =
        undone (still s exists) refl sd se

    given_up-Rechecked :
        (tx : String) (n : N) (d : Db) (es : List Event) (x : Result Bool × World N) (w : World N)
        → Recovery config rpc o p d es x
        → Rechecked tx n d es (retried x w)
    given_up-Rechecked tx n d es (ok b, v) w r = done b refl r
    given_up-Rechecked tx n d es (err e, v) w r =
        absurd (Recovery-ok config rpc o p pending d es (err e, v) r e refl)

    recheck-Rechecked :
        (tx : String) (w : World N)
        → o.tx_hash ≡ some tx
        → find_order o.id w.db ≡ some o
        → Rechecked tx w.net w.db w.events (recheck config rpc o tx w)
    unfolding recheck on_retry
    recheck-Rechecked tx w hash found = go (rpc.get_transaction tx w.net) refl
      where
        go :
            (y : Result TxStatus × N)
            → rpc.get_transaction tx w.net ≡ y
            → Rechecked tx w.net w.db w.events
                (try_catch (call (λ _. y) >>= on_retry o tx) (λ e. pure none) w)
        go (err e, n) q =
            undone (inl (λ r. cc (ap (λ t. t.0) q, r), λ r. cc (ap (λ t. t.0) q, r))) refl refl refl
        go (ok not_found, n) q =
            undone (inl (λ r. cc (ap (λ t. t.0) q, r), λ r. cc (ap (λ t. t.0) q, r))) refl refl refl
        go (ok success, n) q =
            let v : World N = record w { net = n } in
            let paid : (rpc.get_transaction tx w.net).0 ≡ ok success = ap (λ t. t.0) q in
            retried-Rechecked tx w.net w.db w.events (record_as o tx v) w
              (λ s exists. inr (paid, (s, exists)))
              (record_as-Stepped config rpc o p pending tx v found (succeeded tx w.net hash paid))
        go (ok failed, n) q =
            let v : World N = record w { net = n } in
            given_up-Rechecked tx w.net w.db w.events (give_up o v) w (
              give_up-Recovery config rpc o p pending v found
                (on_chain tx w.net hash (ap (λ t. t.0) q)))

    -- What follows the second check.
    abbrev answered : Option Bool → App N Bool
    answered r = elim r [ some b ↦ pure b | none ↦ roll_back o p ]

    answered-Recovery :
        (tx : String) (n : N) (w : World N) (x : Result (Option Bool) × World N)
        → find_order o.id w.db ≡ some o
        → (SettlesNothing config rpc o w.db tx n → IsDropped config rpc o w.db)
        → Rechecked tx n w.db w.events x
        → Recovery config rpc o p w.db w.events (((λ _. x) >>= answered) w)
    answered-Recovery tx n w (ok none, v) found drops (done b e r) = cc
    answered-Recovery tx n w (ok (some c), v) found drops (done b e r) =
        subst (λ a. Recovery config rpc o p w.db w.events (ok a, v)) (cc) r
    answered-Recovery tx n w (err e, v) found drops (done b q r) = cc
    answered-Recovery tx n w (err e, v) found drops (undone _ q a b) = cc
    answered-Recovery tx n w (ok (some c), v) found drops (undone _ q a b) = cc
    answered-Recovery tx n w (ok none, v) found drops (undone again e a b) =
        Recovery-Alike config rpc o p pending v w _ a b (
          roll_back-Recovery config rpc o p pending v (ap (find_order o.id) a ∙ found)
            (subst (IsDropped config rpc o) (sym a) (drops again)))

    pub recover_hashed-Recovery :
        (tx : String) (w : World N)
        → o.tx_hash ≡ some tx
        → find_order o.id w.db ≡ some o
        → Recovery config rpc o p w.db w.events (recover_hashed config rpc o p tx w)
    unfolding recover_hashed on_first
    recover_hashed-Recovery tx w hash found = go (rpc.get_transaction tx w.net) refl
      where
        go :
            (y : Result TxStatus × N)
            → rpc.get_transaction tx w.net ≡ y
            → Recovery config rpc o p w.db w.events
                (try_catch (call (λ _. y) >>= on_first config rpc o p tx) (λ e. pure false) w)
        go (err e, n) q = left (inr (tx, w.net, e, hash, ap (λ t. t.0) q)) refl refl refl
        go (ok success, n) q =
            let v : World N = record w { net = n } in
            caught-Recovery w.db w.events _ (
              confirm_found-Recovery config rpc o p pending tx v found
                (succeeded tx w.net hash (ap (λ t. t.0) q)))
        go (ok failed, n) q =
            let v : World N = record w { net = n } in
            caught-Recovery w.db w.events _ (
              give_up-Recovery config rpc o p pending v found
                (on_chain tx w.net hash (ap (λ t. t.0) q)))
        go (ok not_found, n) q =
            let v : World N = record w { net = n } in
            let next : (rpc.get_transaction tx w.net).1 ≡ n = ap (λ t. t.1) q in
            caught-Recovery w.db w.events _ (
              answered-Recovery tx n v (recheck config rpc o tx v) found
                (λ again. record {
                  tx = tx;
                  first = w.net;
                  hash = hash;
                  missing = ap (λ t. t.0) q;
                  again = subst (SettlesNothing config rpc o w.db tx) (sym next) again;
                })
                (recheck-Rechecked tx v hash found))

    -- What follows the check of the marker.
    abbrev concluded : Bool → App N Bool
    concluded recovered = if recovered then pure true else give_up o

    give_up-Alike :
        (v w : World N)
        → find_order o.id w.db ≡ some o
        → Lost config rpc o w.db false
        → v.db ≡ w.db
        → v.events ≡ w.events
        → Recovery config rpc o p w.db w.events (give_up o v)
    give_up-Alike v w found why a b = Recovery-Alike config rpc o p pending v w _ a b (
        give_up-Recovery config rpc o p pending v (ap (find_order o.id) a ∙ found)
          (subst (λ d. Lost config rpc o d false) (sym a) why))

    concluded-Recovery :
        (w : World N) (x : Result Bool × World N)
        → find_order o.id w.db ≡ some o
        → ((s : Settlement) → find_settlement o.id w.db ≡ some s → Lost config rpc o w.db false)
        → x.0 ≢ ok false
        → Stepped config rpc o p w.db w.events x
        → Recovery config rpc o p w.db w.events (((λ _. caught x) >>= concluded) w)
    concluded-Recovery w (ok true, v) found why only (ended r) = r
    concluded-Recovery w (ok true, v) found why only (threw f s exists q a b) = cc
    concluded-Recovery w (ok false, v) found why only s = absurd (only refl)
    concluded-Recovery w (err e, v) found why only (threw f s exists q a b) =
        give_up-Alike v w found (why s exists) a b
    concluded-Recovery w (err e, v) found why only (ended r) =
        absurd (Recovery-ok config rpc o p pending w.db w.events (err e, v) r e refl)

    pub recover_unhashed-Recovery :
        (w : World N)
        → IsUnhashed config rpc o
        → find_order o.id w.db ≡ some o
        → Recovery config rpc o p w.db w.events (recover_unhashed config rpc o w)
    unfolding recover_unhashed recover_marked
    recover_unhashed-Recovery w none_yet found =
        go (is_settled config rpc o.id w) refl ((is_settled-Reads config rpc o.id).alike w)
      where
        go :
            (y : Result Bool × World N)
            → is_settled config rpc o.id w ≡ y
            → Alike y.1 w
            → Recovery config rpc o p w.db w.events (
                (try_catch
                      ((λ _. y) >>= λ settled.
                        if settled then record_as o (short_ref "unknown-" o.id) else pure false)
                      (λ e. pure false)
                    >>= concluded)
                  w)
        go (err e, v) q al =
            give_up-Alike v w found (unmarked w none_yet (λ r. cc (ap (λ t. t.0) q, r))) al.same_db
              al.same_events
        go (ok false, v) q al =
            give_up-Alike v w found (unmarked w none_yet (λ r. cc (ap (λ t. t.0) q, r))) al.same_db
              al.same_events
        go (ok true, v) q al =
            let tx = short_ref "unknown-" o.id in
            let yes_paid : (is_settled config rpc o.id w).0 ≡ ok true = ap (λ t. t.0) q in
            Recovery-Alike config rpc o p pending v w _ al.same_db al.same_events (
              concluded-Recovery v (record_as o tx v) (ap (find_order o.id) al.same_db ∙ found)
                (λ s exists. unrecorded w s none_yet yes_paid exists)
                (record_as-only config rpc o p pending tx v)
                (record_as-Stepped config rpc o p pending tx v
                  (ap (find_order o.id) al.same_db ∙ found) (marked w yes_paid)))
