-- ===== src/Stellar/Settlement/Steps.antt =====
-- The rules by which a step of `handlePaymentReceived` ends by a verdict.
use kreav.Base.{ℕ, String, ◌≡◌, ◌≢◌, ◌∙◌, refl, sym, List, arith}
use mathlib.Core.Path.{subst}
use kreav.App.{World, App, Result, ok, err, Exn, ◌>>=◌}
use kreav.App.Laws.{>>=-of_ok, >>=-of_err}
use kreav.App.Reads.{Reads, Alike}
use kreav.Orders.Machine.{OrderStatus}
use kreav.Store.{Collaborator, Order}
use kreav.Store.Query.{with_status}
use kreav.Stellar.Horizon.{StellarConfig, HorizonServer}
use kreav.Stellar.Rpc.{RpcServer}
use kreav.Stellar.Settlement.{fail_order}
use kreav.Stellar.Settlement.Verdict.{
  Thrown, Failing, IsPending, Verdict, update_order-found, Verdict-Alike,
}

pub IsPending-Alike :
    {N : Type 0} {id : String} {amount : ℕ} {o : Order} {cs : List Collaborator} {v w : World N}
    → Alike v w
    → IsPending id amount o cs w.db
    → IsPending id amount o cs v.db
IsPending-Alike al p = rw al.same_db p

module _ {N : Type 0} (config : StellarConfig) (horizon : HorizonServer N) (rpc : RpcServer N)
    (id : String) (amount : ℕ) (cs : List Collaborator) where
  abbrev pub Ends : World N → Result (Unit {0}) × World N → Type 0
  Ends w x = Verdict config horizon rpc id amount cs w.db w.events x

  -- A sequence whose first part only reads.
  pub >>=-Ends :
      {A : Type 0} (m : App N A) (f : A → App N (Unit {0})) (w : World N)
      → Reads m
      → ((e : Exn) (v : World N) → m w ≡ (err e, v) → Alike v w → Ends w (err e, v))
      → ((a : A) (v : World N) → m w ≡ (ok a, v) → Alike v w → Ends v (f a v))
      → Ends w ((m >>= f) w)
  >>=-Ends {A} m f w r throws step = go (m w) refl (r.alike w)
    where
      go : (x : Result A × World N) → m w ≡ x → Alike x.1 w → Ends w ((m >>= f) w)
      go (ok a, v) e al =
          subst (Ends w) (sym (>>=-of_ok m f w e))
            (Verdict-Alike config horizon rpc id amount cs v w _ al (step a v e al))
      go (err x, v) e al = subst (Ends w) (sym (>>=-of_err m f w e)) (throws x v e al)

  -- What throws has written nothing.
  pub threw-Alike : (e : Exn) (v w : World N) → Ends w (err e, v) → Alike v w
  threw-Alike e v w (Verdict.threw _ _ _ _ d ev) = record { same_db = d; same_events = ev }
  threw-Alike e v w (Verdict.undecided _ _ _ p _ _) = cc
  threw-Alike e v w (Verdict.failed _ p _ _) = cc
  threw-Alike e v w (Verdict.rejected _ _ _ _ _ _ p _ _) = cc
  threw-Alike e v w (Verdict.relinked _ _ _ p _ _) = cc
  threw-Alike e v w (Verdict.recorded _ _ _ p _ _) = cc

  -- And why it was thrown.
  pub threw-Thrown :
      (e : Exn) (v w : World N)
      → Ends w (err e, v)
      → Thrown config horizon rpc id amount cs w.db e × (e ≢ Exn.network_error)
  threw-Thrown e v w (Verdict.threw y t other p d ev) =
      let same : y ≡ e = cc p in
      (subst (Thrown config horizon rpc id amount cs w.db) same t, λ n. other (same ∙ n))
  threw-Thrown e v w (Verdict.undecided _ _ _ p _ _) = cc
  threw-Thrown e v w (Verdict.failed _ p _ _) = cc
  threw-Thrown e v w (Verdict.rejected _ _ _ _ _ _ p _ _) = cc
  threw-Thrown e v w (Verdict.relinked _ _ _ p _ _) = cc
  threw-Thrown e v w (Verdict.recorded _ _ _ p _ _) = cc

  pub fail_order-Ends :
      (o : Order) (w : World N)
      → IsPending id amount o cs w.db
      → Failing config horizon rpc id amount cs w.db
      → Ends w (fail_order id w)
  unfolding fail_order
  fail_order-Ends o w p why =
      let u =
        update_order-found config rpc id amount cs (with_status OrderStatus.settlement_failed) o w
          p.found in
      Verdict.failed why (ground (arith, u)) (ground (arith, u)) (ground (arith, u))
