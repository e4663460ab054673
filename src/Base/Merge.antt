-- ===== src/Base/Merge.antt =====
-- Sorting two sorted lists together, newest first, when only their first elements are there.
use Prim.Native.Nat.{ℕ, zero, suc, ◌+◌, ◌-◌, ◌*◌, ◌≤◌}
use mathlib.Core.Path.{◌≡◌, refl, sym, ap, ◌∙◌}
use mathlib.Core.Logic.{inl, inr}
use mathlib.Core.Bool.{Bool, true, false}
use mathlib.Core.List.{List, [], ◌∷◌, ◌++◌, map}
use native.Mathlib.Omega.{arith}
use kreav.Base.Tests.{if◌then◌else◌, Bool-cases, leb}
use kreav.Base.Lists.{length}
use kreav.Base.Sort.{insert, sort, LeHead, IsSorted, sort-of_sorted, insert-head}
use kreav.Base.Paging.{take, drop, take-nil, page_of}

module _ {ℓ} {A : Type ℓ} (key : A → ℕ) where
  -- `orderBy: { createdAt: 'desc' }`
  abbrev pub newer : A → A → Bool
  newer x y = leb (key y) (key x)

  insert-LeHead :
      (z x : A) (xs : List A)
      → newer z x ≡ true
      → LeHead newer z xs
      → LeHead newer z (insert newer x xs)
  unfolding insert
  insert-LeHead z x [] h k = h
  insert-LeHead z x (y ∷ ys) h k = elim (Bool-cases (newer x y)) [
    | inl le ↦ rw le h
    | inr gt ↦ rw gt k
  ]

  insert-IsSorted : (x : A) (xs : List A) → IsSorted newer xs → IsSorted newer (insert newer x xs)
  unfolding insert
  insert-IsSorted x [] h = (tt, tt)
  insert-IsSorted x (y ∷ ys) h = elim (Bool-cases (newer x y)) [
    | inl le ↦ rw le (le, h)
    | inr gt ↦ rw gt (insert-LeHead y x ys (ground arith) h.0, insert-IsSorted x ys h.1)
  ]

  pub sort-IsSorted : (xs : List A) → IsSorted newer (sort newer xs)
  unfolding sort
  sort-IsSorted [] = tt
  sort-IsSorted (x ∷ xs) = insert-IsSorted x (sort newer xs) (sort-IsSorted xs)

  abbrev merge_into : A → (List A → List A) → List A → List A
  merge_into x rest [] = x ∷ rest []
  merge_into x rest (y ∷ ys) =
      let later = merge_into x rest ys in if newer x y then x ∷ rest (y ∷ ys) else y ∷ later

  abbrev merge : List A → List A → List A
  merge [] ys = ys
  merge (x ∷ xs) ys = merge_into x (merge xs) ys

  merge-nil : (xs : List A) → merge xs [] ≡ xs
  merge-nil [] = refl
  merge-nil (x ∷ xs) = ap (λ l. x ∷ l) (merge-nil xs)

  merge-LeHead :
      (x : A) (xs ys : List A)
      → LeHead newer x xs
      → LeHead newer x ys
      → LeHead newer x (merge xs ys)
  merge-LeHead x [] ys h k = k
  merge-LeHead x (z ∷ zs) [] h k = h
  merge-LeHead x (z ∷ zs) (y ∷ ys) h k = elim (Bool-cases (newer z y)) [
    | inl le ↦ rw le h
    | inr gt ↦ rw gt k
  ]

  merge-later :
      (x y : A) (xs ys : List A)
      → LeHead newer x xs
      → newer x y ≡ false
      → merge xs (y ∷ ys) ≡ y ∷ merge xs ys
  merge-later x y [] ys h gt = refl
  merge-later x y (z ∷ zs) ys h gt = let after : newer z y ≡ false = ground arith in rw after refl

  insert-merge :
      (x : A) (xs ys : List A)
      → LeHead newer x xs
      → IsSorted newer ys
      → insert newer x (merge xs ys) ≡ merge (x ∷ xs) ys
  unfolding insert
  insert-merge x xs [] h k = insert-head newer x (merge xs []) (merge-LeHead x xs [] h tt)
  insert-merge x xs (y ∷ ys) h k = elim (Bool-cases (newer x y)) [
    | inl le ↦ rw le (insert-head newer x (merge xs (y ∷ ys)) (merge-LeHead x xs (y ∷ ys) h le))
    | inr gt ↦
        ap (insert newer x) (merge-later x y xs ys h gt)
        ∙ rw gt (ap (λ l. y ∷ l) (insert-merge x xs ys h k.1))
  ]

  sort-append :
      (xs ys : List A) → IsSorted newer xs → IsSorted newer ys → sort newer (xs ++ ys) ≡ merge xs ys
  unfolding sort
  sort-append [] ys h k = sort-of_sorted newer ys k
  sort-append (x ∷ xs) ys h k =
      ap (insert newer x) (sort-append xs ys h.1 k) ∙ insert-merge x xs ys h.0 k

  take-take : (n k : ℕ) (xs : List A) → n ≤ k → take n (take k xs) ≡ take n xs
  take-take zero k xs h = refl
  take-take (suc n) zero xs h = absurd (omega (arith, h))
  take-take (suc n) (suc k) [] h = refl
  take-take (suc n) (suc k) (x ∷ xs) h = ap (λ l. x ∷ l) (take-take n k xs (omega (arith, h)))

  take-merge :
      (n j k : ℕ) (xs ys : List A)
      → n ≤ j
      → n ≤ k
      → take n (merge (take j xs) (take k ys)) ≡ take n (merge xs ys)
  take-merge zero j k xs ys a b = refl
  take-merge (suc n) zero k xs ys a b = absurd (omega (arith, a))
  take-merge (suc n) (suc j) zero xs ys a b = absurd (omega (arith, b))
  take-merge (suc n) (suc j) (suc k) [] ys a b = take-take (suc n) (suc k) ys b
  take-merge (suc n) (suc j) (suc k) (x ∷ xs) [] a b =
      ap (λ l. x ∷ take n l) (merge-nil (take j xs))
      ∙ ap (λ l. x ∷ l) (take-take n j xs (omega (arith, a)))
      ∙ ap (λ l. x ∷ take n l) (sym (merge-nil xs))
  take-merge (suc n) (suc j) (suc k) (x ∷ xs) (y ∷ ys) a b = elim (Bool-cases (newer x y)) [
    | inl le ↦
        rw le (
          ap (λ l. x ∷ l)
            (take-merge n j (suc k) xs (y ∷ ys) (omega (arith, a)) (omega (arith, b))))
    | inr gt ↦
        rw gt (
          ap (λ l. y ∷ l)
            (take-merge n (suc j) k (x ∷ xs) ys (omega (arith, a)) (omega (arith, b))))
  ]

  take-IsSorted : (k : ℕ) (xs : List A) → IsSorted newer xs → IsSorted newer (take k xs)
  take-IsSorted zero xs h = tt
  take-IsSorted (suc k) [] h = tt
  take-IsSorted (suc zero) (x ∷ []) h = (tt, tt)
  take-IsSorted (suc (suc k)) (x ∷ []) h = (tt, tt)
  take-IsSorted (suc zero) (x ∷ y ∷ xs) h = (tt, tt)
  take-IsSorted (suc (suc k)) (x ∷ y ∷ xs) h = (h.0, take-IsSorted (suc k) (y ∷ xs) h.1)

  take-drop : (m n : ℕ) (xs : List A) → take n (drop m xs) ≡ drop m (take (m + n) xs)
  take-drop zero n xs = let same : n ≡ 0 + n = omega arith in ap (λ k. take k xs) same
  take-drop (suc m) n [] = take-nil n ∙ ap (drop (suc m)) (sym (take-nil (suc m + n)))
  take-drop (suc m) n (x ∷ xs) =
      let next : suc (m + n) ≡ suc m + n = omega arith in
      take-drop m n xs ∙ ap (λ k. drop (suc m) (take k (x ∷ xs))) next

  -- A page of two sorted lists that are sorted together needs no more of each than the pages so far.
  pub page_of-bounded :
      (page limit bound : ℕ) (xs ys : List A)
      → 1 ≤ page
      → page * limit ≤ bound
      → IsSorted newer xs
      → IsSorted newer ys
      → page_of page limit (sort newer (take bound xs ++ take bound ys))
        ≡ page_of page limit (sort newer (xs ++ ys))
  unfolding page_of
  page_of-bounded zero limit bound xs ys h b p q = absurd (omega (arith, h))
  page_of-bounded (suc page) limit bound xs ys h b p q =
      let skip = (suc page - 1) * limit in
      let one_less : suc page - 1 ≡ page = omega arith in
      let same : skip ≡ page * limit = ap (λ k. k * limit) one_less in
      let enough : skip + limit ≤ bound = omega (arith, same, b) in
      ap (λ l. take limit (drop skip l))
        (sort-append (take bound xs) (take bound ys) (take-IsSorted bound xs p)
          (take-IsSorted bound ys q))
      ∙ take-drop skip limit (merge (take bound xs) (take bound ys))
      ∙ ap (drop skip) (take-merge (skip + limit) bound bound xs ys enough enough)
      ∙ sym (take-drop skip limit (merge xs ys))
      ∙ ap (λ l. take limit (drop skip l)) (sym (sort-append xs ys p q))

module _ {ℓ κ} {A : Type ℓ} {B : Type κ} (f : A → B) (key : A → ℕ) (key' : B → ℕ) where
  pub map-IsSorted :
      ((x : A) → key' (f x) ≡ key x)
      → (xs : List A) → IsSorted (newer key) xs
      → IsSorted (newer key') (map f xs)
  map-IsSorted same [] h = tt
  map-IsSorted same (x ∷ []) h = (tt, tt)
  map-IsSorted same (x ∷ y ∷ xs) h = (rw (same x, same y) (h.0), map-IsSorted same (y ∷ xs) h.1)

  pub map-take : (k : ℕ) (xs : List A) → map f (take k xs) ≡ take k (map f xs)
  map-take zero xs = refl
  map-take (suc k) [] = refl
  map-take (suc k) (x ∷ xs) = ap (λ l. f x ∷ l) (map-take k xs)

module _ {ℓ} {A : Type ℓ} (le : A → A → Bool) where
  length-insert : (x : A) (xs : List A) → length (insert le x xs) ≡ suc (length xs)
  unfolding insert
  length-insert x [] = refl
  length-insert x (y ∷ ys) = elim (Bool-cases (le x y)) [
    | inl before ↦ rw before refl
    | inr after ↦ rw after (ap suc (length-insert x ys))
  ]

  pub length-sort : (xs : List A) → length (sort le xs) ≡ length xs
  unfolding sort
  length-sort [] = refl
  length-sort (x ∷ xs) = length-insert x (sort le xs) ∙ ap suc (length-sort xs)
