-- ===== src/Store/Table.antt =====
-- Rows found and changed by their key.
use kreav.Base.{
  String, ◌≡◌, ◌≢◌, refl, Option, none, some, List, [], ◌∷◌, ◌++◌, arith, eq_iff, ◌==◌,
  if◌then◌else◌, Bool-cases, inl, inr,
}

module _ {ℓ} {A : Type ℓ} (key : A → String) where
  -- `findUnique({ where: { id: k } })`
  unfoldable pub find_by : String → List A → Option A
  find_by k [] = none
  find_by k (x ∷ xs) = if key x == k then some x else find_by k xs

  -- `update({ where: { id: k } })`
  unfoldable pub update_by : String → (A → A) → List A → List A
  update_by k f [] = []
  update_by k f (x ∷ xs) = (if key x == k then f x else x) ∷ update_by k f xs

  pub find_by-key : (k : String) (xs : List A) {x : A} → find_by k xs ≡ some x → key x ≡ k
  unfolding find_by
  find_by-key k [] e = cc
  find_by-key k (y ∷ xs) {x} e = ground (arith, eq_iff (key y) k, find_by-key k xs {x = x})

  module _ (k : String) (f : A → A) (keeps : (x : A) → key (f x) ≡ key x) where
    pub find_by-update_by_self :
        (xs : List A) {x : A} → find_by k xs ≡ some x → find_by k (update_by k f xs) ≡ some (f x)
    unfolding find_by update_by
    find_by-update_by_self [] e = cc
    find_by-update_by_self (y ∷ xs) {x} e = elim (Bool-cases (key y == k)) [
      | inl same ↦ rw (same, keeps y) (ground (arith, keeps y))
      | inr other ↦ rw (other, other) (find_by-update_by_self xs (ground arith))
    ]

    pub find_by-update_by_ne :
        (j : String) (xs : List A) → k ≢ j → find_by j (update_by k f xs) ≡ find_by j xs
    unfolding find_by update_by
    find_by-update_by_ne j [] h = refl
    find_by-update_by_ne j (y ∷ xs) h = ground (
      arith,
      keeps y,
      eq_iff (key y) j,
      eq_iff (key y) k,
      eq_iff (key (f y)) j,
      find_by-update_by_ne j xs h,
    )

    pub find_by-update_by_missing : (xs : List A) → find_by k xs ≡ none → update_by k f xs ≡ xs
    unfolding find_by update_by
    find_by-update_by_missing [] e = refl
    find_by-update_by_missing (y ∷ xs) e = ground (arith, find_by-update_by_missing xs)

  pub find_by-append :
      (k : String) (xs ys : List A) {x : A} → find_by k xs ≡ some x → find_by k (xs ++ ys) ≡ some x
  unfolding find_by
  find_by-append k [] ys e = cc
  find_by-append k (y ∷ xs) ys {x} e = ground (arith, find_by-append k xs ys {x = x})

  -- Two updates of one row, the second of which overwrites the first.
  pub update_by-update_by :
      (k : String) (f g : A → A)
      → ((x : A) → key (g x) ≡ key x)
      → ((x : A) → f (g x) ≡ f x)
      → (xs : List A) → update_by k f (update_by k g xs) ≡ update_by k f xs
  unfolding update_by
  update_by-update_by k f g keeps over [] = refl
  update_by-update_by k f g keeps over (y ∷ xs) =
      ground (arith, keeps y, over y, update_by-update_by k f g keeps over xs)
