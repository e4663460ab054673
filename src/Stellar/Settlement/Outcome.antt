-- ===== src/Stellar/Settlement/Outcome.antt =====
-- What one `payment.received` event does, for every behaviour of the network.
use kreav.Base.{
  inr, inl, String, ◌≡◌, refl, sym, ◌∙◌, ap, true, false, Option, none, some, List, [], Bool-cases,
  Option-cases,
}
use mathlib.Core.Path.{subst}
use kreav.App.{try_catch, World, App, Result, ok, err, Exn, PaymentReceivedPayload}
use kreav.App.Laws.{>>=-of_ok, try_catch-of_ok, try_catch-of_err}
use kreav.Orders.Machine.{OrderStatus, can_transition}
use kreav.Store.{Collaborator, Order}
use kreav.Store.Table.{update_by, find_by-update_by_self}
use kreav.Store.Query.{
  order_id, find_order, active_collaborators, update_order, set_orders, with_status,
}
use kreav.Stellar.Horizon.{StellarConfig, HorizonServer}
use kreav.Stellar.Rpc.{RpcServer}
use kreav.Stellar.Settlement.{
  handle_settlement_error, settle_pending, settle_found, handle_payment_received,
}
use kreav.Stellar.Settlement.Verdict.{Thrown, Verdict-Alike, IsPending, update_order-found}
use kreav.Stellar.Settlement.Steps.{threw-Alike, threw-Thrown, Ends, IsPending-Alike}
use kreav.Stellar.Settlement.Laws.{
  Cleared, Guarded, settle_pending-Guarded, settle_pending-Ends, handle_settlement_error-Ends,
  handle_settlement_error-ok,
}

-- The world after step 1.
abbrev pub pending_world : {N : Type 0} → String → World N → World N
pending_world id w = record w {
  db = set_orders (update_by order_id id (with_status OrderStatus.settlement_pending)) w.db;
}

module _ {N : Type 0} (config : StellarConfig) (horizon : HorizonServer N) (rpc : RpcServer N)
    (payload : PaymentReceivedPayload) where
  -- An unknown order, or one that may not be settled now, changes nothing; any other becomes
  -- SETTLEMENT_PENDING, fails unless the guards on its collaborators pass, and ends by a verdict.
  pub data Outcome (w : World N) (x : Result (Unit {0}) × World N) : Type 0 where
    unknown : find_order payload.order_id w.db ≡ none → x ≡ (ok tt, w) → Outcome w x
    refused :
        (o : Order)
        → find_order payload.order_id w.db ≡ some o
        → can_transition o.status OrderStatus.settlement_pending ≡ false
        → x ≡ (ok tt, w)
        → Outcome w x
    processed :
        (o : Order)
        → find_order payload.order_id w.db ≡ some o
        → can_transition o.status OrderStatus.settlement_pending ≡ true
        → x.0 ≡ ok tt
        → Guarded config horizon rpc payload.order_id payload.amount_usd
            (active_collaborators o.product_id w.db)
            (pending_world payload.order_id w)
            x
        → Ends config horizon rpc payload.order_id payload.amount_usd
            (active_collaborators o.product_id w.db)
            (pending_world payload.order_id w)
            x
        → Outcome w x

  pending :
      (o : Order) (w : World N)
      → find_order payload.order_id w.db ≡ some o
      → o.amount_usd ≡ payload.amount_usd
      → IsPending payload.order_id payload.amount_usd
          (with_status OrderStatus.settlement_pending o)
          (active_collaborators o.product_id w.db)
          (pending_world payload.order_id w).db
  unfolding active_collaborators
  pending o w found same = record {
    found =
        find_by-update_by_self order_id payload.order_id
          (with_status OrderStatus.settlement_pending) (λ x. refl) w.db.orders found;
    same_amount = same;
    active = refl;
  }

  -- The event handler by the order that it finds.
  abbrev steps : Option Order → App N (Unit {0})
  steps = settle_found config horizon rpc payload.order_id payload.amount_usd

  handled :
      (found : Option Order) (w : World N)
      → find_order payload.order_id w.db ≡ found
      → handle_payment_received config horizon rpc payload w
        ≡ try_catch (steps found) (handle_settlement_error payload.order_id) w
  unfolding handle_payment_received
  handled found w e = ap (λ f. try_catch (steps f) (handle_settlement_error payload.order_id) w) e

  step_one :
      (o : Order) (w : World N)
      → find_order payload.order_id w.db ≡ some o
      → can_transition o.status OrderStatus.settlement_pending ≡ true
      → steps (some o) w
        ≡ settle_pending config horizon rpc payload.order_id payload.amount_usd o
            (pending_world payload.order_id w)
  unfolding settle_found
  step_one o w found may =
      let u =
        update_order-found config rpc payload.order_id payload.amount_usd []
          (with_status OrderStatus.settlement_pending) o w found in
      rw may (
        >>=-of_ok (update_order payload.order_id (with_status OrderStatus.settlement_pending))
          (λ _. settle_pending config horizon rpc payload.order_id payload.amount_usd o) w u)

  step_one_refused :
      (o : Order) (w : World N)
      → can_transition o.status OrderStatus.settlement_pending ≡ false
      → steps (some o) w ≡ (err (Exn.invalid_transition o.status OrderStatus.settlement_pending), w)
  unfolding settle_found
  step_one_refused o w mayn't = rw mayn't

  -- The chain of steps with its error handler, on an order that may be settled.
  caught :
      (o : Order) (w : World N)
      → find_order payload.order_id w.db ≡ some o
      → o.amount_usd ≡ payload.amount_usd
      → can_transition o.status OrderStatus.settlement_pending ≡ true
      → Outcome w (handle_payment_received config horizon rpc payload w)
  caught o w found same may =
      go (steps (some o) w) refl
        (subst (Ending v) (sym (step_one o w found may))
          (settle_pending-Ends config horizon rpc id payload.amount_usd cs o v p))
        (subst (Guards v) (sym (step_one o w found may))
          (settle_pending-Guarded config horizon rpc id payload.amount_usd cs o v p))
    where
      id : String
      id = payload.order_id

      v : World N
      v = pending_world id w

      cs : List Collaborator
      cs = active_collaborators o.product_id w.db

      Ending : World N → Result (Unit {0}) × World N → Type 0
      Ending = Ends config horizon rpc id payload.amount_usd cs

      Guards : World N → Result (Unit {0}) × World N → Type 0
      Guards = Guarded config horizon rpc id payload.amount_usd cs

      cleared :
          (y : Exn) (u : World N)
          → Guards v (err y, u)
          → Cleared config horizon rpc id payload.amount_usd cs
      cleared y u (inl c) = c
      cleared y u (inr (e, _)) = cc

      now : Order
      now = with_status OrderStatus.settlement_pending o

      p : IsPending id payload.amount_usd now cs v.db
      p = pending o w found same

      go :
          (x : Result (Unit {0}) × World N)
          → steps (some o) w ≡ x
          → Ending v x
          → Guards v x
          → Outcome w (handle_payment_received config horizon rpc payload w)
      go (ok t, u) e h g =
          let whole =
            handled (some o) w found
            ∙ try_catch-of_ok (steps (some o)) (handle_settlement_error id) w e in
          processed o found may (ap (λ x. x.0) whole) (subst (Guards v) (sym whole) g)
            (subst (Ending v) (sym whole) h)
      go (err y, u) e h g =
          let al = threw-Alike config horizon rpc id payload.amount_usd cs y u v h in
          let q = IsPending-Alike al p in
          let why = threw-Thrown config horizon rpc id payload.amount_usd cs y u v h in
          let whole =
            handled (some o) w found
            ∙ try_catch-of_err (steps (some o)) (handle_settlement_error id) w e in
          processed o found may
            (ap (λ x. x.0) whole
              ∙ handle_settlement_error-ok config horizon rpc id payload.amount_usd cs y now u q)
            (inl (cleared y u g))
            (subst (Ending v) (sym whole) (
              Verdict-Alike config horizon rpc id payload.amount_usd cs u v _ al (
                handle_settlement_error-Ends config horizon rpc id payload.amount_usd cs y now u q
                  (subst (λ d. Thrown config horizon rpc id payload.amount_usd cs d y)
                    (sym al.same_db) why.0)
                  why.1)))

  -- Whatever the network answers, a `payment.received` event whose amount is the order's ends in
  -- one of these ways and throws nothing.
  pub handle_payment_received-Outcome :
      (w : World N)
      → ((o : Order)
          → find_order payload.order_id w.db ≡ some o
          → o.amount_usd ≡ payload.amount_usd)
      → Outcome w (handle_payment_received config horizon rpc payload w)
  unfolding settle_found handle_settlement_error
  handle_payment_received-Outcome w same = elim (Option-cases (find_order payload.order_id w.db)) [
    | inl missing ↦ unknown missing (handled none w missing ∙ nothing)
    | inr (o, found) ↦ elim (Bool-cases (can_transition o.status OrderStatus.settlement_pending)) [
      | inl may ↦ caught o w found (same o found) may
      | inr mayn't ↦ refused o found mayn't (
          handled (some o) w found
          ∙ try_catch-of_err (steps (some o)) (handle_settlement_error payload.order_id) w
              (step_one_refused o w mayn't)
          ∙ ignored o)
    ]
  ]
    where
      nothing : try_catch (steps none) (handle_settlement_error payload.order_id) w ≡ (ok tt, w)
      nothing = refl

      ignored :
          (o : Order)
          → handle_settlement_error payload.order_id
              (Exn.invalid_transition o.status OrderStatus.settlement_pending)
              w
            ≡ (ok tt, w)
      ignored o = refl
