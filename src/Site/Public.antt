-- ===== src/Site/Public.antt =====
-- A creator's public page (backend/src/users/users.service.ts: `getPublicProfile`).
use kreav.Base.{
  ℕ, String, ◌&&◌, Option, none, some, List, [], ◌∷◌, map, keep, ◌==◌, take, newest_first,
}
use kreav.App.{App, not_found, pure, gets, or_throw, ◌>>=◌}
use kreav.Store.{Db, Product, FeaturedProduct, is_active}
use kreav.Store.Query.{find_product, find_username}
use kreav.Site.{Socials, LinkDto, Site, included, or_empty, socials_of, link_of}

-- The category is never given.
pub record PublicProduct : Type 0 where
  pub id : String
  pub title : String
  pub price_usd : ℕ

pub record PublicProfile : Type 0 where
  pub username : String
  pub display_name : String
  pub bio : Option String
  pub country : Option String
  pub avatar_emoji : Option String
  pub accent : Option String
  pub products : List PublicProduct
  pub socials : Socials
  pub links : List LinkDto

abbrev pub public_product : Product → PublicProduct
public_product p = record { id = p.id; title = p.title; price_usd = p.price_usd }

-- The products of the featured rows, with those left out that are not there.
abbrev pub featured_products_of : Db → List FeaturedProduct → List Product
featured_products_of d [] = []
featured_products_of d (f ∷ fs) = elim (find_product f.product_id d) [
  | none ↦ featured_products_of d fs
  | some p ↦ p ∷ featured_products_of d fs
]

abbrev pub active_only : List Product → List PublicProduct
active_only ps = map public_product (keep (λ p. is_active p.status) ps)

abbrev pub recent_products : String → Db → List PublicProduct
recent_products id d =
    map public_product
      (take 6 (newest_first (keep (λ p. p.creator_id == id && is_active p.status) d.products)))

-- The fallback: what was created last, if nothing is featured.
abbrev pub or_recent : List PublicProduct → String → Db → List PublicProduct
or_recent [] id d = recent_products id d
or_recent (p ∷ ps) id d = p ∷ ps

-- `user.findUnique` by the username with its `include`
abbrev pub find_public : String → Db → Option Site
find_public name d = elim (find_username name d.users) [
  | none ↦ none
  | some u ↦ some (included u.id d u)
]

abbrev pub to_public_profile : Site → List PublicProduct → PublicProfile
to_public_profile s products = record {
  username = or_empty s.user.username;
  display_name = s.user.name;
  bio = s.user.bio;
  country = s.user.country;
  avatar_emoji = s.user.avatar_emoji;
  accent = s.user.accent;
  products = products;
  socials = socials_of s.social_links;
  links = map link_of s.custom_links;
}

module _ {N : Type 0} where
  unfoldable pub get_public_profile : String → App N PublicProfile
  get_public_profile name = do
    user ← or_throw (← gets (find_public name)) not_found
    featured ← gets (λ d. active_only (featured_products_of d user.featured_products))
    products ← gets (or_recent featured user.user.id)
    pure (to_public_profile user products)
