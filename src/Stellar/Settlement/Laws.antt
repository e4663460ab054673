-- ===== src/Stellar/Settlement/Laws.antt =====
-- The settlement of a paid order, as a whole, for every behaviour of the network.
use kreav.Base.{
  inl, inr, ap, sym, All, ◌⊎◌, ◌≢◌, ℕ, String, ◌≡◌, refl, true, Option, List, [], ◌∷◌, map, arith,
  Bool-cases,
}
use kreav.App.{App, Result, World, ok, err, Exn, ◌>>=◌}
use kreav.App.Laws.{>>=-of_ok}
use kreav.App.Reads.{Alike, Alike-refl}
use mathlib.Core.Path.{subst}
use kreav.Store.Table.{update_by}
use kreav.Orders.Machine.{OrderStatus}
use kreav.Store.{Collaborator, Order}
use kreav.Store.Query.{order_id, set_orders, with_status}
use kreav.Stellar.Horizon.{StellarConfig, HorizonServer}
use kreav.Stellar.Rpc.{RpcServer}
use kreav.Stellar.Settlement.{
  to_recipient, find_recipients_missing_trustline, are_payable, handle_settlement_error,
  settle_trusted, settle_payable, settle_pending,
}
use kreav.Stellar.Settlement.Reading.{find_recipients_missing_trustline-Reads}
use kreav.Stellar.Settlement.Trust.{Trusting, Checked, find_recipients_missing_trustline-Checked}
use kreav.Stellar.Rpc.Laws.{invoke_settle-errors}
use kreav.Stellar.Settlement.{fail_order}
use kreav.Stellar.Settlement.Verdict.{
  Thrown, by_invoke, repeated, unpayable, untrusting, by_error, IsPending, Verdict,
  update_order-found,
}
use kreav.Stellar.Settlement.Attempts.{settle_on_chain-Ends}
use kreav.Stellar.Settlement.Steps.{Ends, IsPending-Alike, >>=-Ends, fail_order-Ends}

module _ {N : Type 0} (config : StellarConfig) (horizon : HorizonServer N) (rpc : RpcServer N)
    (id : String) (amount : ℕ) (cs : List Collaborator) where
  settle_trusted-Ends :
      (missing : List String) (known : Option String) (o : Order) (w : World N)
      → IsPending id amount o cs w.db
      → are_payable cs ≡ true
      → Checked config horizon rpc (map to_recipient cs) (ok missing)
      → Ends config horizon rpc id amount cs w
          (settle_trusted config horizon rpc id amount cs known missing w)
  unfolding settle_trusted
  settle_trusted-Ends (a ∷ more) known o w p payable (inl (e, _)) = cc
  settle_trusted-Ends (a ∷ more) known o w p payable (inr (_, _, _, h)) =
      fail_order-Ends config horizon rpc id amount cs o w p (untrusting h)
  settle_trusted-Ends [] known o w p payable seen =
      let (c, more, e) = nonempty cs payable in
      settle_on_chain-Ends config horizon rpc id amount cs known o w c more p e
    where
      nonempty :
          (l : List Collaborator)
          → are_payable l ≡ true
          → (c : Collaborator) × (more : List Collaborator) × (l ≡ c ∷ more)
      nonempty [] h = cc
      nonempty (c ∷ more) h = (c, more, refl)

  settle_payable-Ends :
      (known : Option String) (o : Order) (w : World N)
      → IsPending id amount o cs w.db
      → are_payable cs ≡ true
      → Ends config horizon rpc id amount cs w
          (settle_payable config horizon rpc id amount cs known w)
  unfolding settle_payable
  settle_payable-Ends known o w p payable =
      >>=-Ends config horizon rpc id amount cs
        (find_recipients_missing_trustline config horizon rpc (map to_recipient cs))
        (settle_trusted config horizon rpc id amount cs known) w
        (find_recipients_missing_trustline-Reads config rpc horizon (map to_recipient cs))
        (λ e v q al. absurd (never e (checked w (err e) (ap (λ x. x.0) q))))
        λ missing v q al.
          settle_trusted-Ends missing known o v (IsPending-Alike al p) payable
            (checked w (ok missing) (ap (λ x. x.0) q))
    where
      checked :
          (w : World N) (y : Result (List String))
          → (find_recipients_missing_trustline config horizon rpc (map to_recipient cs) w).0 ≡ y
          → Checked config horizon rpc (map to_recipient cs) y
      checked w y e =
          subst (Checked config horizon rpc (map to_recipient cs)) e
            (find_recipients_missing_trustline-Checked config horizon rpc (map to_recipient cs) w)

      never : (e : Exn) → Checked config horizon rpc (map to_recipient cs) (err e) → ⊥
      never e (inl (q, _)) = cc
      never e (inr (_, _, q, _)) = cc

  pub settle_pending-Ends :
      (o : Order) (w : World N)
      → IsPending id amount (with_status OrderStatus.settlement_pending o) cs w.db
      → Ends config horizon rpc id amount cs w (settle_pending config horizon rpc id amount o w)
  unfolding settle_pending
  settle_pending-Ends o w p = elim (Bool-cases (are_payable cs)) [
    | inr no_pay ↦
        rw (p.active, no_pay)
          (fail_order-Ends config horizon rpc id amount cs _ w p (unpayable no_pay))
    | inl payable ↦ rw (p.active, payable) (settle_payable-Ends o.tx_hash _ w p payable)
  ]

  -- Both guards on the collaborators passed: they can be paid, and of none of them has Horizon said
  -- that there is no trustline.
  pub record Cleared : Type 0 where
    pub payable : are_payable cs ≡ true
    pub trusted : All (Trusting config horizon rpc) (map to_recipient cs)

  -- Without, the order fails.
  abbrev pub Guarded : World N → Result (Unit {0}) × World N → Type 0
  Guarded w x =
      Cleared
      ⊎ ((x.0 ≡ ok tt)
          × (x.1.db
              ≡ set_orders (update_by order_id id (with_status OrderStatus.settlement_failed))
                  w.db))

  fail_order-Guarded :
      (o : Order) (v w : World N)
      → Alike v w
      → IsPending id amount o cs v.db
      → Guarded w (fail_order id v)
  unfolding fail_order
  fail_order-Guarded o v w al p =
      let u =
        update_order-found config rpc id amount cs (with_status OrderStatus.settlement_failed) o v
          p.found in
      inr (ground (arith, u), ground (arith, u, al.same_db))

  settle_payable-Guarded :
      (known : Option String) (o : Order) (w : World N)
      → IsPending id amount o cs w.db
      → are_payable cs ≡ true
      → Guarded w (settle_payable config horizon rpc id amount cs known w)
  unfolding settle_payable settle_trusted
  settle_payable-Guarded known o w p payable =
      go (check w) refl
        ((find_recipients_missing_trustline-Reads config rpc horizon (map to_recipient cs)).alike w)
        (find_recipients_missing_trustline-Checked config horizon rpc (map to_recipient cs) w)
    where
      check : App N (List String)
      check = find_recipients_missing_trustline config horizon rpc (map to_recipient cs)

      next : List String → App N (Unit {0})
      next = settle_trusted config horizon rpc id amount cs known

      go :
          (y : Result (List String) × World N)
          → check w ≡ y
          → Alike y.1 w
          → Checked config horizon rpc (map to_recipient cs) (check w).0
          → Guarded w ((check >>= next) w)
      go y q al (inl (e, all)) = inl (record { payable = payable; trusted = all })
      go (err e, v) q al (inr (a, more, r, _)) = cc (ap (λ x. x.0) q, r)
      go (ok [], v) q al (inr (a, more, r, _)) = cc (ap (λ x. x.0) q, r)
      go (ok (a ∷ more), v) q al (inr _) =
          subst (Guarded w) (sym (>>=-of_ok check next w q))
            (fail_order-Guarded o v w al (IsPending-Alike al p))

  pub settle_pending-Guarded :
      (o : Order) (w : World N)
      → IsPending id amount (with_status OrderStatus.settlement_pending o) cs w.db
      → Guarded w (settle_pending config horizon rpc id amount o w)
  unfolding settle_pending
  settle_pending-Guarded o w p = elim (Bool-cases (are_payable cs)) [
    | inr no_pay ↦ rw (p.active, no_pay) (fail_order-Guarded _ w w (Alike-refl w) p)
    | inl payable ↦ rw (p.active, payable) (settle_payable-Guarded o.tx_hash _ w p payable)
  ]

  -- An error is handled by leaving the order, after a timeout, or by failing it.
  pub handle_settlement_error-Ends :
      (e : Exn) (o : Order) (w : World N)
      → IsPending id amount o cs w.db
      → Thrown config horizon rpc id amount cs w.db e
      → e ≢ Exn.network_error
      → Ends config horizon rpc id amount cs w (handle_settlement_error id e w)
  unfolding handle_settlement_error
  handle_settlement_error-Ends (Exn.invalid_transition from to) o w p (by_invoke v h) other =
      absurd (elim (invoke_settle-errors config rpc id _ _ v _ h) [ inl known ↦ cc | inr e ↦ cc ])
  handle_settlement_error-Ends (Exn.invalid_transition from to) o w p (repeated _ _ _ e) other = cc
  handle_settlement_error-Ends (Exn.timeout_error tx) o w p (by_invoke v h) other =
      Verdict.undecided v tx h refl refl refl
  handle_settlement_error-Ends (Exn.timeout_error tx) o w p (repeated _ _ _ e) other = cc
  handle_settlement_error-Ends Exn.network_error o w p t other = absurd (other refl)
  handle_settlement_error-Ends e o w p t other =
      fail_order-Ends config horizon rpc id amount cs o w p (by_error _ t (λ tx r. cc))

  pub handle_settlement_error-ok :
      (e : Exn) (o : Order) (w : World N)
      → IsPending id amount o cs w.db
      → (handle_settlement_error id e w).0 ≡ ok tt
  unfolding handle_settlement_error
  handle_settlement_error-ok (Exn.invalid_transition from to) o w p = refl
  handle_settlement_error-ok (Exn.timeout_error tx) o w p = refl
  handle_settlement_error-ok Exn.network_error o w p = refl
  handle_settlement_error-ok _ o w p = ground (
    arith,
    update_order-found config rpc id amount cs (with_status OrderStatus.settlement_failed) o w
        p.found,
  )
