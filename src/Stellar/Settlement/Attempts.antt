-- ===== src/Stellar/Settlement/Attempts.antt =====
-- The attempts of a settlement, and the float check before them (steps 4b to 6 of
-- `handlePaymentReceived`).
use kreav.Base.{
  ltb, ◌⊎◌, inr, inl, ℕ, zero, suc, String, ◌≡◌, ◌≢◌, refl, sym, ◌∙◌, ap, Bool, true, false, Option,
  List, ◌∷◌, map, arith, Bool-cases, if◌then◌else◌,
}
use mathlib.Core.Path.{subst}
use kreav.App.{try_catch, pure, World, App, Result, ok, err, Exn, network_error, ◌>>=◌}
use kreav.App.Laws.{>>=-of_ok, >>=-of_err, try_catch-of_ok, try_catch-of_err}
use kreav.App.Reads.{Alike-trans, Alike-refl, Alike}
use kreav.Orders.Machine.{OrderStatus}
use kreav.Store.{Collaborator, Order}
use kreav.Store.Query.{with_status}
use kreav.Stellar.Split.{to_base_units}
use kreav.Stellar.Horizon.{get_usdc_balance, WalletBalanceResult, StellarConfig, HorizonServer}
use kreav.Stellar.Rpc.{RpcServer, InvokeResult, invoke_settle, is_settled}
use kreav.Stellar.Recording.{recover_already_settled, to_recipient}
use kreav.Stellar.Settlement.{
  max_retries, settle_anew, on_network_error, check_float, attempt, fail_order, record_result,
  settle_attempts, has_float, already_settled, settle_on_chain, reverted,
}
use kreav.Stellar.Settlement.Reading.{
  get_usdc_balance-Reads, invoke_settle-Reads, already_settled-Reads,
}
use kreav.Stellar.Settlement.Verdict.{
  Thrown, by_invoke, by_error, low_float, IsPending, PaidOut, Verdict, update_order-found,
  record_settlement_success-Verdict, recover_already_settled-Verdict, Verdict-Alike,
}
use kreav.Stellar.Settlement.Steps.{IsPending-Alike, Ends, >>=-Ends, threw-Thrown, fail_order-Ends}

already_settled-yes :
    {N : Type 0} (config : StellarConfig) (horizon : HorizonServer N) (rpc : RpcServer N)
    (id : String) (amount : ℕ) (cs : List Collaborator) (w : World N)
    → (already_settled config horizon rpc id amount cs w).0 ≡ ok true
    → (is_settled config rpc id w).0 ≡ ok true
unfolding already_settled
already_settled-yes config horizon rpc id amount cs w e = ground arith

already_settled-ok :
    {N : Type 0} (config : StellarConfig) (horizon : HorizonServer N) (rpc : RpcServer N)
    (id : String) (amount : ℕ) (cs : List Collaborator) (w : World N) (e : Exn) (v : World N)
    → already_settled config horizon rpc id amount cs w ≢ (err e, v)
unfolding already_settled
already_settled-ok config horizon rpc id amount cs w e v q = ground (arith, q)

module _ {N : Type 0} (config : StellarConfig) (horizon : HorizonServer N) (rpc : RpcServer N)
    (id : String) (amount : ℕ) (cs : List Collaborator) where
  record_result-Ends :
      (r : InvokeResult) (o : Order) (w v : World N)
      → (invoke_settle config rpc id (to_base_units amount) (map to_recipient cs) w).0 ≡ ok r
      → IsPending id amount o cs v.db
      → Ends config horizon rpc id amount cs v (record_result config horizon rpc id amount cs r v)
  unfolding record_result
  record_result-Ends r o w v e p = elim (Bool-cases r.succeeded) [
    | inl yes_ ↦ rw yes_ (
        record_settlement_success-Verdict config horizon rpc id amount cs r.tx_hash o v
          (PaidOut.confirmed w r e yes_) p)
    | inr no_ ↦
        let u = update_order-found config rpc id amount cs (reverted r.tx_hash) o v p.found in
        rw no_ (
          Verdict.rejected r.tx_hash w r e no_ refl (ground (arith, u)) (ground (arith, u))
            (ground (arith, u)))
  ]

  -- An attempt ends by a verdict, or by a network error, having written nothing.
  abbrev AttemptEnds : World N → Result (Unit {0}) × World N → Type 0
  AttemptEnds w x =
      Ends config horizon rpc id amount cs w x
      ⊎ ((x.0 ≡ err network_error)
          × Thrown config horizon rpc id amount cs w.db network_error
          × Alike x.1 w)

  attempt-Ends :
      (o : Order) (w : World N)
      → IsPending id amount o cs w.db
      → AttemptEnds w (attempt config horizon rpc id amount cs w)
  unfolding attempt
  attempt-Ends o w p =
      go (invoke w) refl
        ((invoke_settle-Reads config rpc id (to_base_units amount) (map to_recipient cs)).alike w)
    where
      invoke : App N InvokeResult
      invoke = invoke_settle config rpc id (to_base_units amount) (map to_recipient cs)

      next : InvokeResult → App N (Unit {0})
      next = record_result config horizon rpc id amount cs

      thrown :
          (e : Exn) (v : World N)
          → invoke w ≡ (err e, v)
          → Alike v w
          → e ≢ network_error
          → AttemptEnds w ((invoke >>= next) w)
      thrown e v q al other = inl (
          subst (Ends config horizon rpc id amount cs w) (sym (>>=-of_err invoke next w q))
            (Verdict.threw e (by_invoke w (ap (λ x. x.0) q)) other refl al.same_db al.same_events))

      go :
          (x : Result InvokeResult × World N)
          → invoke w ≡ x
          → Alike x.1 w
          → AttemptEnds w ((invoke >>= next) w)
      go (ok r, v) q al = inl (
          subst (Ends config horizon rpc id amount cs w) (sym (>>=-of_ok invoke next w q)) (
            Verdict-Alike config horizon rpc id amount cs v w _ al
              (record_result-Ends r o w v (ap (λ x. x.0) q) (IsPending-Alike al p))))
      go (err network_error, v) q al =
          let e = >>=-of_err invoke next w q in
          inr (
            ap (λ x. x.0) e,
            by_invoke w (ap (λ x. x.0) q),
            subst (λ (x : Result (Unit {0}) × World N). Alike x.1 w) (sym e) al,
          )
      go (err e, v) q al = thrown e v q al (λ r. cc)

  -- An attempt with its `catch`, which goes on by `again` after a network error.
  tried :
      (again : App N (Unit {0})) (w : World N)
      → AttemptEnds w (attempt config horizon rpc id amount cs w)
      → ((v : World N)
          → Alike v w
          → Thrown config horizon rpc id amount cs w.db network_error
          → Ends config horizon rpc id amount cs w (again v))
      → Ends config horizon rpc id amount cs w
          (try_catch (attempt config horizon rpc id amount cs) (on_network_error again) w)
  tried again w ends after = go (attempt config horizon rpc id amount cs w) refl ends
    where
      m : App N (Unit {0})
      m = attempt config horizon rpc id amount cs

      rethrown :
          (e : Exn) (v : World N)
          → m w ≡ (err e, v)
          → e ≢ network_error
          → Ends config horizon rpc id amount cs w (err e, v)
          → Ends config horizon rpc id amount cs w (on_network_error again e v)
      rethrown network_error v q other h = absurd (other refl)
      rethrown _ v q other h = h

      go :
          (x : Result (Unit {0}) × World N)
          → m w ≡ x
          → AttemptEnds w x
          → Ends config horizon rpc id amount cs w (try_catch m (on_network_error again) w)
      go (ok a, v) q (inl h) =
          subst (Ends config horizon rpc id amount cs w)
            (sym (try_catch-of_ok m (on_network_error again) w q)) h
      go (ok a, v) q (inr (e, t, al)) = cc
      go (err e, v) q (inl h) =
          subst (Ends config horizon rpc id amount cs w)
            (sym (try_catch-of_err m (on_network_error again) w q))
            (rethrown e v q (threw-Thrown config horizon rpc id amount cs e v w h).1 h)
      go (err e, v) q (inr (n, t, al)) =
          let same : network_error ≡ e = cc n in
          subst (Ends config horizon rpc id amount cs w)
            (sym (try_catch-of_err m (on_network_error again) w q))
            (subst (λ y. Ends config horizon rpc id amount cs w (on_network_error again y v)) same
              (after v al t))

  settle_attempts-Ends :
      (k : ℕ) (o : Order) (w : World N)
      → IsPending id amount o cs w.db
      → Ends config horizon rpc id amount cs w
          (settle_attempts config horizon rpc id amount cs (suc k) w)
  unfolding settle_attempts
  settle_attempts-Ends zero o w p = tried (fail_order id) w (attempt-Ends o w p) λ v al t.
      Verdict-Alike config horizon rpc id amount cs v w _ al (
        fail_order-Ends config horizon rpc id amount cs o v (IsPending-Alike al p) (
          by_error network_error
            (subst (λ d. Thrown config horizon rpc id amount cs d network_error) (sym al.same_db) t)
            (λ tx r. cc)))
  settle_attempts-Ends (suc k) o w p =
      tried (settle_attempts config horizon rpc id amount cs (suc k)) w (attempt-Ends o w p)
        λ v al t.
          Verdict-Alike config horizon rpc id amount cs v w _ al
            (settle_attempts-Ends k o v (IsPending-Alike al p))

  -- A check that goes on has written nothing; one that stops has failed the order.
  abbrev FloatEnds : World N → Result Bool × World N → Type 0
  FloatEnds w x =
      ((x.0 ≡ ok true) × Alike x.1 w)
      ⊎ ((x.0 ≡ ok false) × Ends config horizon rpc id amount cs w (ok tt, x.1))

  check_float-Ends :
      (b : WalletBalanceResult) (o : Order) (u w : World N)
      → (get_usdc_balance config horizon config.platform_wallet_address u).0 ≡ ok b
      → IsPending id amount o cs w.db
      → FloatEnds w (check_float config horizon rpc id amount cs b w)
  unfolding check_float
  check_float-Ends b o u' w seen p = elim (Bool-cases (ltb b.balance_usd (to_base_units amount))) [
    | inr fits ↦ inl (rw fits, rw fits (Alike-refl w))
    | inl low ↦
        let u =
          update_order-found config rpc id amount cs (with_status OrderStatus.settlement_failed) o w
            p.found in
        inr (
          ground (arith, u, low),
          Verdict.failed (low_float u' b seen low) refl (ground (arith, u, low))
              (ground (arith, u, low)),
        )
  ]

  FloatEnds-Alike :
      (v w : World N) (x : Result Bool × World N) → Alike v w → FloatEnds v x → FloatEnds w x
  FloatEnds-Alike v w x al (inl (e, a)) = inl (e, Alike-trans a al)
  FloatEnds-Alike v w x al (inr (e, h)) =
      inr (e, Verdict-Alike config horizon rpc id amount cs v w (ok tt, x.1) al h)

  has_float-Ends :
      (o : Order) (w : World N)
      → IsPending id amount o cs w.db
      → FloatEnds w (has_float config horizon rpc id amount cs w)
  unfolding has_float
  has_float-Ends o w p = go (float w) refl ((get_usdc_balance-Reads config horizon wallet).alike w)
    where
      wallet : String
      wallet = config.platform_wallet_address

      float : App N WalletBalanceResult
      float = get_usdc_balance config horizon wallet

      check : WalletBalanceResult → App N Bool
      check = check_float config horizon rpc id amount cs

      go_on : Exn → App N Bool
      go_on e = pure true

      checked :
          (b : WalletBalanceResult) (v : World N)
          → float w ≡ (ok b, v)
          → Alike v w
          → FloatEnds v (check b v)
          → (x : Result Bool × World N) → check b v ≡ x
          → FloatEnds w (has_float config horizon rpc id amount cs w)
      checked b v q al h (ok c, u) e =
          subst (FloatEnds w)
            (sym (try_catch-of_ok (float >>= check) go_on w (>>=-of_ok float check w q ∙ e)))
            (FloatEnds-Alike v w (ok c, u) al (subst (FloatEnds v) e h))
      checked b v q al h (err x, u) e = absurd (never (subst (FloatEnds v) e h))
        where
          never : FloatEnds v (err x, u) → ⊥
          never (inl (y, _)) = cc
          never (inr (y, _)) = cc

      go :
          (x : Result WalletBalanceResult × World N)
          → float w ≡ x
          → Alike x.1 w
          → FloatEnds w (has_float config horizon rpc id amount cs w)
      go (err e, v) q al =
          subst (FloatEnds w)
            (sym (try_catch-of_err (float >>= check) go_on w (>>=-of_err float check w q)))
            (inl (refl, al))
      go (ok b, v) q al =
          checked b v q al (check_float-Ends b o w v (ap (λ x. x.0) q) (IsPending-Alike al p))
            (check b v) refl

  settle_anew-Ends :
      (o : Order) (w : World N)
      → IsPending id amount o cs w.db
      → Ends config horizon rpc id amount cs w (settle_anew config horizon rpc id amount cs w)
  unfolding settle_anew
  settle_anew-Ends o w p = go (enough w) refl (has_float-Ends o w p)
    where
      enough : App N Bool
      enough = has_float config horizon rpc id amount cs

      go_on : Bool → App N (Unit {0})
      go_on b = if b then settle_attempts config horizon rpc id amount cs max_retries else pure tt

      go :
          (x : Result Bool × World N)
          → enough w ≡ x
          → FloatEnds w x
          → Ends config horizon rpc id amount cs w (settle_anew config horizon rpc id amount cs w)
      go (ok true, v) q (inl (e, al)) =
          subst (Ends config horizon rpc id amount cs w) (sym (>>=-of_ok enough go_on w q)) (
            Verdict-Alike config horizon rpc id amount cs v w _ al
              (settle_attempts-Ends 2 o v (IsPending-Alike al p)))
      go (ok false, v) q (inr (e, h)) =
          subst (Ends config horizon rpc id amount cs w) (sym (>>=-of_ok enough go_on w q)) h
      go (ok true, v) q (inr (e, h)) = cc
      go (ok false, v) q (inl (e, al)) = cc
      go (err x, v) q (inl (e, al)) = cc
      go (err x, v) q (inr (e, h)) = cc

  pub settle_on_chain-Ends :
      (known : Option String) (o : Order) (w : World N) (c : Collaborator)
      (more : List Collaborator)
      → IsPending id amount o cs w.db
      → cs ≡ c ∷ more
      → Ends config horizon rpc id amount cs w
          (settle_on_chain config horizon rpc id amount cs known w)
  unfolding settle_on_chain
  settle_on_chain-Ends known o w c more p payable =
      >>=-Ends config horizon rpc id amount cs (already_settled config horizon rpc id amount cs)
        go_on w (already_settled-Reads config rpc horizon id amount cs)
        (λ e v q al. absurd (already_settled-ok config horizon rpc id amount cs w e v q)) step
    where
      go_on : Bool → App N (Unit {0})
      go_on b =
          if b
          then recover_already_settled id amount known cs
          else settle_anew config horizon rpc id amount cs

      step :
          (b : Bool) (v : World N)
          → already_settled config horizon rpc id amount cs w ≡ (ok b, v)
          → Alike v w
          → Ends config horizon rpc id amount cs v (go_on b v)
      step false v e al = settle_anew-Ends o v (IsPending-Alike al p)
      step true v e al =
          recover_already_settled-Verdict config horizon rpc id amount cs known o v c more
            (PaidOut.marked w
              (already_settled-yes config horizon rpc id amount cs w (ap (λ x. x.0) e)))
            (IsPending-Alike al p) payable
