-- ===== src/App/Laws.antt =====
-- Running a sequence of calls, and catching, where the result of the first is known.
use kreav.Base.{◌≡◌, ap}
use kreav.App.{World, App, Result, ok, err, Exn, try_catch, ◌>>=◌}

module _ {N A B : Type 0} (m : App N A) (f : A → App N B) (w : World N) where
  pub >>=-of_ok : {a : A} {v : World N} → m w ≡ (ok a, v) → (m >>= f) w ≡ f a v
  >>=-of_ok e =
      ap
        (λ (x : Result A × World N). elim x.0 as (λ _. Result B × World N) [
          | ok a ↦ f a x.1
          | err e ↦ (err e, x.1)
        ])
        e

  pub >>=-of_err : {e : Exn} {v : World N} → m w ≡ (err e, v) → (m >>= f) w ≡ (err e, v)
  >>=-of_err p =
      ap
        (λ (x : Result A × World N). elim x.0 as (λ _. Result B × World N) [
          | ok a ↦ f a x.1
          | err e ↦ (err e, x.1)
        ])
        p

module _ {N A : Type 0} (m : App N A) (h : Exn → App N A) (w : World N) where
  pub try_catch-of_ok : {a : A} {v : World N} → m w ≡ (ok a, v) → try_catch m h w ≡ (ok a, v)
  try_catch-of_ok e =
      ap
        (λ (x : Result A × World N). elim x.0 as (λ _. Result A × World N) [
          | ok a ↦ (ok a, x.1)
          | err e ↦ h e x.1
        ])
        e

  pub try_catch-of_err : {e : Exn} {v : World N} → m w ≡ (err e, v) → try_catch m h w ≡ h e v
  try_catch-of_err p =
      ap
        (λ (x : Result A × World N). elim x.0 as (λ _. Result A × World N) [
          | ok a ↦ (ok a, x.1)
          | err e ↦ h e x.1
        ])
        p
