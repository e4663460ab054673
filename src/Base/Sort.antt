-- ===== src/Base/Sort.antt =====
-- Sorting by insertion, which keeps the order of equal elements; and what `keep` keeps.
use mathlib.Core.Path.{◌≡◌, refl, ap, ◌∙◌}
use mathlib.Core.Bool.{Bool, true, not}
use mathlib.Core.List.{List, [], ◌∷◌, ◌++◌}
use native.Mathlib.Omega.{arith}
use kreav.Base.Tests.{if◌then◌else◌}
use kreav.Base.Lists.{keep, All}

module _ {ℓ} {A : Type ℓ} where
  unfoldable pub insert : (A → A → Bool) → A → List A → List A
  insert le x [] = x ∷ []
  insert le x (y ∷ ys) = if le x y then x ∷ y ∷ ys else y ∷ insert le x ys

  -- `orderBy`, for `le x y` where x may come before y
  unfoldable pub sort : (A → A → Bool) → List A → List A
  unfolding insert
  sort le [] = []
  sort le (x ∷ xs) = insert le x (sort le xs)

  abbrev pub LeHead : (A → A → Bool) → A → List A → Type 0
  LeHead le x [] = Unit
  LeHead le x (y ∷ ys) = le x y ≡ true

  abbrev pub IsSorted : (A → A → Bool) → List A → Type 0
  IsSorted le [] = Unit
  IsSorted le (x ∷ xs) = LeHead le x xs × IsSorted le xs

  pub insert-head :
      (le : A → A → Bool) (x : A) (xs : List A) → LeHead le x xs → insert le x xs ≡ x ∷ xs
  unfolding insert
  insert-head le x [] h = refl
  insert-head le x (y ∷ ys) h = rw h refl

  pub sort-of_sorted : (le : A → A → Bool) (xs : List A) → IsSorted le xs → sort le xs ≡ xs
  unfolding sort
  sort-of_sorted le [] h = refl
  sort-of_sorted le (x ∷ xs) h =
      ap (insert le x) (sort-of_sorted le xs h.1) ∙ insert-head le x xs h.0

  pub keep-append : (p : A → Bool) (xs ys : List A) → keep p (xs ++ ys) ≡ keep p xs ++ keep p ys
  keep-append p [] ys = refl
  keep-append p (x ∷ xs) ys = ground (arith, keep-append p xs ys)

  pub keep-all : (p : A → Bool) (xs : List A) → All (λ x. p x ≡ true) xs → keep p xs ≡ xs
  keep-all p [] h = refl
  keep-all p (x ∷ xs) h = ground (arith, h.0, keep-all p xs h.1)

  pub keep-not : (p : A → Bool) (xs : List A) → keep p (keep (λ x. not (p x)) xs) ≡ []
  keep-not p [] = refl
  keep-not p (x ∷ xs) = ground (arith, keep-not p xs)

  -- Rows that are deleted and written again.
  pub keep-replaced :
      (p : A → Bool) (xs new : List A)
      → All (λ x. p x ≡ true) new
      → keep p (keep (λ x. not (p x)) xs ++ new) ≡ new
  keep-replaced p xs new h =
      keep-append p (keep (λ x. not (p x)) xs) new
      ∙ ap (λ l. l ++ keep p new) (keep-not p xs)
      ∙ keep-all p new h
