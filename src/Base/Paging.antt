-- ===== src/Base/Paging.antt =====
-- Lists by pages, as `skip` and `take` cut them.
use Prim.Native.Nat.{ℕ, zero, suc, ◌+◌, ◌-◌, ◌*◌, ◌≤◌}
use mathlib.Core.Path.{◌≡◌, refl, sym, ap, ◌∙◌}
use mathlib.Core.List.{List, [], ◌∷◌, ◌++◌, map}
use native.Mathlib.Omega.{arith}
use kreav.Base.Lists.{length}

module _ {ℓ} {A : Type ℓ} where
  abbrev pub take : ℕ → List A → List A
  take zero xs = []
  take (suc n) [] = []
  take (suc n) (x ∷ xs) = x ∷ take n xs

  abbrev pub drop : ℕ → List A → List A
  drop zero xs = xs
  drop (suc n) [] = []
  drop (suc n) (x ∷ xs) = drop n xs

  -- `xs.reverse()`: a table holds its rows in the order in which they were created.
  abbrev pub reverse_onto : List A → List A → List A
  reverse_onto acc [] = acc
  reverse_onto acc (x ∷ xs) = reverse_onto (x ∷ acc) xs

  abbrev pub newest_first : List A → List A
  newest_first xs = reverse_onto [] xs

  -- `skip: (page - 1) * limit, take: limit`
  unfoldable pub page_of : ℕ → ℕ → List A → List A
  page_of page limit xs = take limit (drop ((page - 1) * limit) xs)

  -- The first `n` pages, in order.
  abbrev pub pages : ℕ → ℕ → List A → List A
  pages zero limit xs = []
  pages (suc n) limit xs = pages n limit xs ++ page_of (suc n) limit xs

  pub take-nil : (n : ℕ) → take n [] ≡ []
  take-nil zero = refl
  take-nil (suc n) = refl

  take-append : (m n : ℕ) (xs : List A) → take m xs ++ take n (drop m xs) ≡ take (m + n) xs
  take-append zero n xs = ap (λ k. take k xs) (omega arith)
  take-append (suc m) n [] = take-nil n ∙ sym (take-nil (suc m + n))
  take-append (suc m) n (x ∷ xs) =
      let next : suc (m + n) ≡ suc m + n = omega arith in
      ap (λ l. x ∷ l) (take-append m n xs) ∙ ap (λ k. take k (x ∷ xs)) next

  pub pages-eq : (n limit : ℕ) (xs : List A) → pages n limit xs ≡ take (n * limit) xs
  unfolding page_of
  pages-eq zero limit xs =
      let none_yet : 0 ≡ 0 * limit = omega arith in ap (λ k. take k xs) none_yet
  pages-eq (suc n) limit xs =
      let one_less : suc n - 1 ≡ n = omega arith in
      let before : (suc n - 1) * limit ≡ n * limit = ap (λ k. k * limit) one_less in
      let next : n * limit + limit ≡ suc n * limit = omega arith in
      ap (λ l. l ++ take limit (drop ((suc n - 1) * limit) xs)) (pages-eq n limit xs)
      ∙ ap (λ k. take (n * limit) xs ++ take limit (drop k xs)) before
      ∙ take-append (n * limit) limit xs
      ∙ ap (λ k. take k xs) next

  pub take-all : (n : ℕ) (xs : List A) → length xs ≤ n → take n xs ≡ xs
  take-all zero [] h = refl
  take-all zero (x ∷ xs) h = absurd (omega (arith, h))
  take-all (suc n) [] h = refl
  take-all (suc n) (x ∷ xs) h = ap (λ l. x ∷ l) (take-all n xs (omega (arith, h)))

  pub length-take : (n : ℕ) (xs : List A) → length (take n xs) ≤ n
  length-take zero xs = omega arith
  length-take (suc n) [] = omega arith
  length-take (suc n) (x ∷ xs) = omega (arith, length-take n xs)

-- What a list endpoint answers.
pub record Page {ℓ} (A : Type ℓ) : Type ℓ where
  pub data_rows : List A
  pub page : ℕ
  pub limit : ℕ
  pub total : ℕ

length-reverse_onto {ℓ} :
    {A : Type ℓ} (acc xs : List A) → length (reverse_onto acc xs) ≡ length acc + length xs
length-reverse_onto acc [] = omega arith
length-reverse_onto acc (x ∷ xs) = omega (arith, length-reverse_onto (x ∷ acc) xs)

map-append {ℓ κ} :
    {A : Type ℓ} {B : Type κ} (f : A → B) (xs ys : List A) → map f (xs ++ ys) ≡ map f xs ++ map f ys
map-append f [] ys = refl
map-append f (x ∷ xs) ys = ap (λ l. f x ∷ l) (map-append f xs ys)

module _ {ℓ κ} {A : Type ℓ} {B : Type κ} (f : A → B) where
  -- A page of the rows of a table that match, newest first, and the number of them all.
  unfoldable pub page_with : ℕ → ℕ → List A → Page B
  unfolding page_of
  page_with page limit rows = record {
    data_rows = map f (page_of page limit (newest_first rows));
    page = page;
    limit = limit;
    total = length rows;
  }

  -- The rows of the first `n` pages, in order.
  abbrev pub walked : ℕ → ℕ → List A → List B
  walked zero limit rows = []
  walked (suc n) limit rows = walked n limit rows ++ (page_with (suc n) limit rows).data_rows

  walked-pages :
      (n limit : ℕ) (rows : List A)
      → walked n limit rows ≡ map f (pages n limit (newest_first rows))
  unfolding page_with
  walked-pages zero limit rows = refl
  walked-pages (suc n) limit rows =
      ap (λ l. l ++ map f (page_of (suc n) limit (newest_first rows))) (walked-pages n limit rows)
      ∙ sym (
          map-append f (pages n limit (newest_first rows))
            (page_of (suc n) limit (newest_first rows)))

  pub walked-all :
      (n limit : ℕ) (rows : List A)
      → length rows ≤ n * limit
      → walked n limit rows ≡ map f (newest_first rows)
  walked-all n limit rows h =
      let enough : length (newest_first rows) ≤ n * limit =
        omega (arith, length-reverse_onto [] rows, h) in
      walked-pages n limit rows
      ∙ ap (map f)
          (pages-eq n limit (newest_first rows) ∙ take-all (n * limit) (newest_first rows) enough)
