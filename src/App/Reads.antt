-- ===== src/App/Reads.antt =====
-- Calls that leave the database and the emitted events alone: queries and calls of the network.
use kreav.Base.{◌≡◌, refl, ◌∙◌, Bool, Option, none, some}
use kreav.App.{
  World, App, Result, ok, err, Exn, pure, throw, gets, call, or_throw, throw_if, try_catch, ◌>>=◌,
}
use kreav.Store.{Db}

-- The database and the events of two worlds are the same.
pub record Alike {N : Type 0} (v w : World N) : Type 0 where
  pub same_db : v.db ≡ w.db
  pub same_events : v.events ≡ w.events

pub Alike-refl : {N : Type 0} (w : World N) → Alike w w
Alike-refl w = record { same_db = refl; same_events = refl }

pub Alike-trans : {N : Type 0} {u v w : World N} → Alike u v → Alike v w → Alike u w
Alike-trans a b = record {
  same_db = a.same_db ∙ b.same_db;
  same_events = a.same_events ∙ b.same_events;
}

pub record Reads {N A : Type 0} (m : App N A) : Type 0 where
  pub alike : (w : World N) → Alike (m w).1 w

module _ {N : Type 0} {A : Type 0} where
  pub Reads-pure : (a : A) → Reads {N = N} (pure a)
  Reads-pure a = record { alike = λ w. Alike-refl w }

  pub Reads-throw : (e : Exn) → Reads {N = N} {A = A} (throw e)
  Reads-throw e = record { alike = λ w. Alike-refl w }

  pub Reads-gets : (f : Db → A) → Reads {N = N} (gets f)
  Reads-gets f = record { alike = λ w. Alike-refl w }

  pub Reads-call : (f : N → Result A × N) → Reads (call f)
  Reads-call f = record { alike = λ w. record { same_db = refl; same_events = refl } }

  pub Reads-or_throw : (o : Option A) (e : Exn) → Reads {N = N} (or_throw o e)
  Reads-or_throw none e = Reads-throw e
  Reads-or_throw (some a) e = Reads-pure a

  pub Reads-try_catch :
      (m : App N A) (h : Exn → App N A)
      → Reads m
      → ((e : Exn) → Reads (h e))
      → Reads (try_catch m h)
  Reads-try_catch m h rm rh = record { alike = λ w. go w (m w) (rm.alike w) }
    where
      go :
          (w : World N) (x : Result A × World N)
          → Alike x.1 w
          → Alike
              (elim x.0 as (λ _. Result A × World N) [ ok a ↦ (ok a, x.1) | err e ↦ h e x.1 ]).1
              w
      go w (ok a, v) al = al
      go w (err e, v) al = Alike-trans ((rh e).alike v) al

  pub Reads->>= :
      {B : Type 0} (m : App N A) (f : A → App N B)
      → Reads m
      → ((a : A) → Reads (f a))
      → Reads (m >>= f)
  Reads->>= {B} m f rm rf = record { alike = λ w. go w (m w) (rm.alike w) }
    where
      go :
          (w : World N) (x : Result A × World N)
          → Alike x.1 w
          → Alike
              (elim x.0 as (λ _. Result B × World N) [ ok a ↦ f a x.1 | err e ↦ (err e, x.1) ]).1
              w
      go w (ok a, v) al = Alike-trans ((rf a).alike v) al
      go w (err e, v) al = al

pub Reads-throw_if : {N : Type 0} (c : Bool) (e : Exn) → Reads {N = N} (throw_if c e)
Reads-throw_if c e = record { alike = λ w. Alike-refl w }

pub ruleset reading =
    (Reads-pure, Reads-throw, Reads-gets, Reads-call, Reads-or_throw, Reads-throw_if)
