-- ===== src/Products/Reads.antt =====
-- Reading products (backend/src/products/products.service.ts: `findAll`, `findOne`). Dates are left
-- out.
use kreav.Base.{
  ℕ, zero, suc, ◌*◌, ◌≤◌, String, Bool, ◌≡◌, refl, ap, ◌∙◌, Option, none, some, List, [], ◌++◌, map,
  keep, length, ◌==◌, if◌then◌else◌, Page, page_with, walked, walked-all, newest_first,
}
use kreav.App.{App, World, ok, not_found, pure, gets, or_throw, ◌>>=◌}
use kreav.Store.{Db, User, Product, Collaborator, is_active}
use kreav.Store.Query.{find_product, find_user, active_collaborators}

-- A product with its creator, who is there by the foreign key.
pub record Listing : Type 0 where
  pub product : Product
  pub creator : Option User

pub record Detail : Type 0 where
  pub product : Product
  pub creator : Option User
  pub collaborators : List Collaborator

-- The owner's list shows every status, the storefront only what is active.
abbrev pub is_on_list : Option String → Product → Bool
is_on_list none p = is_active p.status
is_on_list (some creator) p = if creator == "" then is_active p.status else p.creator_id == creator

abbrev pub with_creator : Db → Product → Listing
with_creator d p = record { product = p; creator = find_user p.creator_id d }

abbrev pub on_list : Option String → Db → List Product
on_list creator d = keep (is_on_list creator) d.products

-- `query.page ?? 1`, `query.limit ?? 20`
abbrev pub given_or : ℕ → Option ℕ → ℕ
given_or n none = n
given_or n (some m) = m

pub page_of_products : Option String → ℕ → ℕ → Db → Page Listing
unfolding page_with
page_of_products creator page limit d = page_with (with_creator d) page limit (on_list creator d)

module _ {N : Type 0} where
  unfoldable pub find_all : Option String → Option ℕ → Option ℕ → App N (Page Listing)
  unfolding page_of_products
  find_all creator page limit =
      gets (page_of_products creator (given_or 1 page) (given_or 20 limit))

  unfoldable pub find_one : String → App N Detail
  find_one id = do
    p ← or_throw (← gets (find_product id)) not_found
    creator ← gets (find_user p.creator_id)
    collaborators ← gets (active_collaborators p.id)
    pure (record { product = p; creator = creator; collaborators = collaborators })

-- The rows of the first `n` pages of the list.
abbrev pub first_pages : Option String → ℕ → ℕ → Db → List Listing
first_pages creator zero limit d = []
first_pages creator (suc n) limit d =
    first_pages creator n limit d ++ (page_of_products creator (suc n) limit d).data_rows

first_pages-walked :
    (creator : Option String) (n limit : ℕ) (d : Db)
    → first_pages creator n limit d ≡ walked (with_creator d) n limit (on_list creator d)
unfolding page_of_products
first_pages-walked creator zero limit d = refl
first_pages-walked creator (suc n) limit d =
    ap (λ l. l ++ (page_of_products creator (suc n) limit d).data_rows)
      (first_pages-walked creator n limit d)

-- Enough pages of the storefront show every active product once, the newest first, and no other;
-- the list changes nothing.
pub find_all-storefront :
    {N : Type 0} (n limit : ℕ) (w : World N)
    → length (keep (λ p. is_active p.status) w.db.products) ≤ n * limit
    → ((page : ℕ)
        → find_all none (some page) (some limit) w
          ≡ (ok (page_of_products none page limit w.db), w))
      × (first_pages none n limit w.db
          ≡ map (with_creator w.db) (newest_first (keep (λ p. is_active p.status) w.db.products)))
unfolding find_all page_of_products page_with
find_all-storefront n limit w h = (
  λ page. refl,
  first_pages-walked none n limit w.db
      ∙ walked-all (with_creator w.db) n limit (on_list none w.db) h,
)
