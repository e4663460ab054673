-- ===== src/Stellar/Settlement/Verdict.antt =====
-- How the settlement of a pending order can end (`handlePaymentReceived`), and its recording.
use Prim.Native.String
use kreav.Base.{
  ℕ, String, ◌≡◌, ◌≢◌, refl, sym, inl, inr, true, false, ltb, Option, none, some, List, [], ◌∷◌,
  ◌++◌, map, arith, Option-cases,
}
use kreav.App.{World, Result, ok, err, Exn, Event}
use mathlib.Core.Path.{subst}
use kreav.App.Laws.{>>=-of_ok}
use kreav.App.Reads.{Alike}
use kreav.Orders.Machine.{OrderStatus}
use kreav.Store.{Db, Collaborator, Order, Settlement}
use kreav.Store.Table.{update_by-update_by, update_by, find_by-key, find_by-update_by_self}
use kreav.Store.Query.{
  order_id, find_order, find_settlement, active_collaborators, update_order, set_orders,
  with_status,
}
use kreav.Stellar.Split.{to_base_units}
use kreav.Stellar.Horizon.{StellarConfig, HorizonServer, WalletBalanceResult, get_usdc_balance}
use kreav.Stellar.Rpc.{RpcServer, InvokeResult, invoke_settle, is_settled}
use kreav.Stellar.Recording.{
  truthy, to_recipient, settlement_row, completed_event, add_settlement, settled_as,
  record_settlement_success, record_recovered_settlement, recover_by, recover_already_settled,
}
use kreav.Stellar.Settlement.{are_payable, reverted}
use kreav.Stellar.Settlement.Trust.{Some, Untrusting}

-- What the database holds of an order that is being settled.
pub record IsPending (id : String) (amount : ℕ) (o : Order) (cs : List Collaborator) (d : Db)
    : Type 0 where
  pub found : find_order id d ≡ some o
  pub same_amount : o.amount_usd ≡ amount
  pub active : active_collaborators o.product_id d ≡ cs

abbrev pub recorded_db : String → ℕ → String → List Collaborator → Db → Db
recorded_db id amount tx cs d =
    set_orders (update_by order_id id (settled_as tx))
      (add_settlement (settlement_row id amount tx cs) d)

module _ {N : Type 0} (config : StellarConfig) (rpc : RpcServer N) (id : String) (amount : ℕ)
    (cs : List Collaborator) where
  -- The network has said that the contract settled the order: a settlement that this call
  -- submitted was confirmed, or `is_settled` answered yes.
  pub data PaidOut : Type 0 where
    confirmed :
        (v : World N) (r : InvokeResult)
        → (invoke_settle config rpc id (to_base_units amount) (map to_recipient cs) v).0 ≡ ok r
        → r.succeeded ≡ true
        → PaidOut
    marked : (v : World N) → (is_settled config rpc id v).0 ≡ ok true → PaidOut

  pub update_order-found :
      (f : Order → Order) (o : Order) (w : World N)
      → find_order id w.db ≡ some o
      → update_order id f w ≡ (ok tt, record w { db = set_orders (update_by order_id id f) w.db })
  unfolding update_order
  update_order-found f o w e = ground arith

module _ {N : Type 0} (config : StellarConfig) (horizon : HorizonServer N) (rpc : RpcServer N)
    (id : String) (amount : ℕ) (cs : List Collaborator) where
  -- What is thrown: the error of an invocation; or the order was paid, and has a settlement already.
  pub data Thrown (d : Db) (e : Exn) : Type 0 where
    by_invoke :
        (v : World N)
        → (invoke_settle config rpc id (to_base_units amount) (map to_recipient cs) v).0 ≡ err e
        → Thrown d e
    repeated :
        (s : Settlement)
        → PaidOut config rpc id amount cs
        → find_settlement id d ≡ some s
        → e ≡ Exn.unique_violation
        → Thrown d e

  -- Why an order fails: its collaborators cannot be paid; Horizon has said that one of them has no
  -- trustline, or that the platform's float is too low; or something was thrown but a timeout.
  pub data Failing (d : Db) : Type 0 where
    unpayable : are_payable cs ≡ false → Failing d
    untrusting : Some (Untrusting config horizon rpc) (map to_recipient cs) → Failing d
    low_float :
        (v : World N) (b : WalletBalanceResult)
        → (get_usdc_balance config horizon config.platform_wallet_address v).0 ≡ ok b
        → ltb b.balance_usd (to_base_units amount) ≡ true
        → Failing d
    by_error : (e : Exn) → Thrown d e → ((tx : String) → e ≢ Exn.timeout_error tx) → Failing d

  -- An error is thrown on, after nothing was written; the outcome of an invocation is open, and
  -- nothing was written; the order failed, without a transaction or with one that the chain rejected;
  -- it was paid and a settlement row was there already, or was written now.
  pub data Verdict (d : Db) (events : List Event) (x : Result (Unit {0}) × World N) : Type 0 where
    threw :
        (e : Exn)
        → Thrown d e
        → e ≢ Exn.network_error
        → x.0 ≡ err e
        → x.1.db ≡ d
        → x.1.events ≡ events
        → Verdict d events x
    undecided :
        (v : World N) (tx : String)
        → (invoke_settle config rpc id (to_base_units amount) (map to_recipient cs) v).0
          ≡ err (Exn.timeout_error tx)
        → x.0 ≡ ok tt
        → x.1.db ≡ d
        → x.1.events ≡ events
        → Verdict d events x
    failed :
        Failing d
        → x.0 ≡ ok tt
        → x.1.db ≡ set_orders (update_by order_id id (with_status OrderStatus.settlement_failed)) d
        → x.1.events ≡ events
        → Verdict d events x
    rejected :
        (tx : String) (v : World N) (r : InvokeResult)
        → (invoke_settle config rpc id (to_base_units amount) (map to_recipient cs) v).0 ≡ ok r
        → r.succeeded ≡ false
        → r.tx_hash ≡ tx
        → x.0 ≡ ok tt
        → x.1.db ≡ set_orders (update_by order_id id (reverted tx)) d
        → x.1.events ≡ events
        → Verdict d events x
    relinked :
        (s : Settlement)
        → PaidOut config rpc id amount cs
        → find_settlement id d ≡ some s
        → x.0 ≡ ok tt
        → x.1.db ≡ set_orders (update_by order_id id (settled_as s.tx_hash)) d
        → x.1.events ≡ events
        → Verdict d events x
    recorded :
        (tx : String)
        → PaidOut config rpc id amount cs
        → find_settlement id d ≡ none
        → x.0 ≡ ok tt
        → x.1.db ≡ recorded_db id amount tx cs d
        → x.1.events ≡ events ++ completed_event id amount tx ∷ []
        → Verdict d events x

  pub record_settlement_success-Verdict :
      (tx : String) (o : Order) (w : World N)
      → PaidOut config rpc id amount cs
      → IsPending id amount o cs w.db
      → Verdict w.db w.events (record_settlement_success id amount tx cs w)
  unfolding record_settlement_success update_order
  record_settlement_success-Verdict tx o w paid p = elim (Option-cases (find_settlement id w.db)) [
    | inr (s, exists) ↦
        threw Exn.unique_violation (repeated s paid exists refl) (λ e. cc) (ground arith)
          (ground arith) (ground arith)
    | inl free ↦
        recorded tx paid free (ground (arith, p.found)) (ground (arith, p.found))
          (ground (arith, p.found))
  ]

  -- The placeholder of `recoverAlreadySettled`, on an order that it has marked SETTLED.
  record_recovered-Verdict :
      (tx : String) (o : Order) (w : World N) (c : Collaborator) (more : List Collaborator)
      → PaidOut config rpc id amount cs
      → IsPending id amount o cs w.db
      → cs ≡ c ∷ more
      → find_settlement id w.db ≡ none
      → let v = (update_order id (with_status OrderStatus.settled) w).1 in
        Verdict w.db w.events (record_recovered_settlement id tx v)
  unfolding record_recovered_settlement record_settlement_success update_order active_collaborators
  record_recovered-Verdict tx o w c more paid p payable free =
      let g = with_status OrderStatus.settled in
      let own : o.id ≡ id = find_by-key order_id id w.db.orders p.found in
      let now = find_by-update_by_self order_id id g (λ x. refl) w.db.orders p.found in
      let once =
        update_by-update_by order_id id (settled_as tx) g (λ x. refl) (λ x. refl) w.db.orders in
      recorded tx paid free (ground (arith, p.found, p.active, own, now, once, payable))
        (ground (arith, p.found, p.active, p.same_amount, own, now, once, payable))
        (ground (arith, p.found, p.active, p.same_amount, own, now, once, payable))

  abbrev placeholder : String
  placeholder = String.◌++◌ "recovery-" (String.slice id 0 8)

  recover_by-Verdict :
      (existing : Option Settlement) (known : Option String) (o : Order) (w : World N)
      (c : Collaborator) (more : List Collaborator)
      → PaidOut config rpc id amount cs
      → IsPending id amount o cs w.db
      → cs ≡ c ∷ more
      → find_settlement id w.db ≡ existing
      → Verdict w.db w.events (recover_by id amount cs existing known w)
  unfolding recover_by
  recover_by-Verdict (some s) known o w c more paid p payable exists =
      let u = update_order-found config rpc id amount cs (settled_as s.tx_hash) o w p.found in
      relinked s paid exists (ground (arith, u)) (ground (arith, u)) (ground (arith, u))
  recover_by-Verdict none (some tx) o w c more paid p payable free =
      record_settlement_success-Verdict tx o w paid p
  recover_by-Verdict none none o w c more paid p payable free =
      let u =
        update_order-found config rpc id amount cs (with_status OrderStatus.settled) o w p.found in
      let h = record_recovered-Verdict placeholder o w c more paid p payable free in
      subst (Verdict w.db w.events)
        (sym (
          >>=-of_ok (update_order id (with_status OrderStatus.settled))
            (λ _. record_recovered_settlement id placeholder) w u))
        (subst
          (λ (x : Result (Unit {0}) × World N).
            Verdict w.db w.events (record_recovered_settlement id placeholder x.1))
          u h)

  pub recover_already_settled-Verdict :
      (known : Option String) (o : Order) (w : World N) (c : Collaborator)
      (more : List Collaborator)
      → PaidOut config rpc id amount cs
      → IsPending id amount o cs w.db
      → cs ≡ c ∷ more
      → Verdict w.db w.events (recover_already_settled id amount known cs w)
  unfolding recover_already_settled
  recover_already_settled-Verdict known o w c more paid p payable =
      recover_by-Verdict (find_settlement id w.db) (truthy known) o w c more paid p payable refl

  pub Verdict-Alike :
      (v w : World N) (x : Result (Unit {0}) × World N)
      → Alike v w
      → Verdict v.db v.events x
      → Verdict w.db w.events x
  Verdict-Alike v w x al h = rw (sym al.same_db, sym al.same_events) h
