-- ===== src/Site.antt =====
-- A creator's page (backend/src/site/site.service.ts): it is read from four tables, and replaced as
-- a whole in one transaction.
pub mod Writing
pub mod Laws
pub mod Public
pub mod Published
use kreav.Base.{
  ℕ, suc, String, Bool, true, false, not, ◌&&◌, Option, none, some, List, [], ◌∷◌, ◌++◌, map, keep,
  any, ◌==◌, leb, if◌then◌else◌, sort,
}
use kreav.App.{
  App, World, Result, ok, err, not_found, forbidden, unique_violation, other, pure, gets, modify,
  throw_if, or_throw, ◌>>=◌, ◌>>◌,
}
use kreav.Store.{Db, User, Product, FeaturedProduct, CustomLink, SocialLink}
use kreav.Store.Query.{find_user}
use kreav.Users.{update_user}

pub record Socials : Type 0 where
  pub instagram : Option String
  pub x : Option String
  pub tiktok : Option String
  pub youtube : Option String

pub record LinkDto : Type 0 where
  pub label : String
  pub url : String

pub record SiteDto : Type 0 where
  pub display_name : String
  pub username : String
  pub bio : Option String
  pub avatar_emoji : Option String
  pub accent : Option String
  pub socials : Option Socials
  pub links : List LinkDto
  pub featured_product_ids : List String

-- The row of a user with the rows that it includes.
pub record Site : Type 0 where
  pub user : User
  pub social_links : List SocialLink
  pub custom_links : List CustomLink
  pub featured_products : List FeaturedProduct

abbrev pub link_le : CustomLink → CustomLink → Bool
link_le a b = leb a.sort_order b.sort_order

abbrev pub featured_le : FeaturedProduct → FeaturedProduct → Bool
featured_le a b = leb a.sort_order b.sort_order

abbrev pub is_social_of : String → SocialLink → Bool
is_social_of id l = l.user_id == id

abbrev pub is_link_of : String → CustomLink → Bool
is_link_of id l = l.user_id == id

abbrev pub is_featured_of : String → FeaturedProduct → Bool
is_featured_of id l = l.user_id == id

-- `user.findUnique` with its `include`
abbrev pub included : String → Db → User → Site
included id d u = record {
  user = u;
  social_links = keep (is_social_of id) d.social_links;
  custom_links = sort link_le (keep (is_link_of id) d.custom_links);
  featured_products = sort featured_le (keep (is_featured_of id) d.featured_products);
}

abbrev pub find_site : String → Db → Option Site
find_site id d = elim (find_user id d) [ none ↦ none | some u ↦ some (included id d u) ]

-- The object that `toSiteDto` fills, at one platform: the last row wins. Platforms are stored in
-- upper case, and shown in lower case.
pub handle_of : String → List SocialLink → Option String
handle_of platform [] = none
handle_of platform (l ∷ ls) = elim (handle_of platform ls) [
  | some handle ↦ some handle
  | none ↦ if l.platform == platform then some l.handle else none
]

abbrev pub or_empty : Option String → String
or_empty none = ""
or_empty (some s) = s

abbrev pub link_of : CustomLink → LinkDto
link_of l = record { label = l.label; url = l.url }

abbrev pub featured_id : FeaturedProduct → String
featured_id f = f.product_id

abbrev pub socials_of : List SocialLink → Socials
socials_of ls = record {
  instagram = handle_of "INSTAGRAM" ls;
  x = handle_of "X" ls;
  tiktok = handle_of "TIKTOK" ls;
  youtube = handle_of "YOUTUBE" ls;
}

abbrev pub to_site_dto : Site → SiteDto
to_site_dto s = record {
  display_name = s.user.name;
  username = or_empty s.user.username;
  bio = s.user.bio;
  avatar_emoji = s.user.avatar_emoji;
  accent = s.user.accent;
  socials = some (socials_of s.social_links);
  links = map link_of s.custom_links;
  featured_product_ids = map featured_id s.featured_products;
}

-- The columns that `updateSite` writes.
abbrev pub site_profile : SiteDto → User → User
site_profile dto u = record u {
  name = dto.display_name;
  username = some dto.username;
  bio = dto.bio;
  avatar_emoji = dto.avatar_emoji;
  accent = dto.accent;
}

-- `Object.entries(dto.socials)` without the handles that are empty
abbrev pub entry : String → String → Option String → List SocialLink
entry id platform none = []
entry id platform (some handle) =
    if handle == "" then [] else record { user_id = id; platform = platform; handle = handle } ∷ []

abbrev pub social_entries : String → Option Socials → List SocialLink
social_entries id none = []
social_entries id (some s) =
    entry id "INSTAGRAM" s.instagram
    ++ (entry id "X" s.x ++ (entry id "TIKTOK" s.tiktok ++ (entry id "YOUTUBE" s.youtube ++ [])))

-- `dto.links.map((link, i) => ...)`, from an index on
abbrev pub numbered_links : String → ℕ → List LinkDto → List CustomLink
numbered_links id i [] = []
numbered_links id i (l ∷ ls) =
    record { user_id = id; label = l.label; url = l.url; sort_order = i }
    ∷ numbered_links id (suc i) ls

abbrev pub numbered_featured : String → ℕ → List String → List FeaturedProduct
numbered_featured id i [] = []
numbered_featured id i (p ∷ ps) =
    record { user_id = id; product_id = p; sort_order = i } ∷ numbered_featured id (suc i) ps

-- `deleteMany`, and then `createMany`
abbrev pub replace_socials : String → List SocialLink → Db → Db
replace_socials id new d = record d {
  social_links = keep (λ l. not (is_social_of id l)) d.social_links ++ new;
}

abbrev pub replace_links : String → List CustomLink → Db → Db
replace_links id new d = record d {
  custom_links = keep (λ l. not (is_link_of id l)) d.custom_links ++ new;
}

abbrev pub delete_featured : String → Db → Db
delete_featured id d = record d {
  featured_products = keep (λ l. not (is_featured_of id l)) d.featured_products;
}

abbrev pub create_featured : List FeaturedProduct → Db → Db
create_featured new d = record d { featured_products = d.featured_products ++ new }

abbrev pub owns : String → Db → String → Bool
owns id d product = any (λ (p : Product). p.id == product && p.creator_id == id) d.products

abbrev pub has_repeated : List String → Bool
has_repeated [] = false
has_repeated (p ∷ ps) = if any (λ q. q == p) ps then true else has_repeated ps

module _ {N : Type 0} where
  -- `$transaction`: what it throws leaves the database as it was.
  abbrev pub transaction : {A : Type 0} → App N A → App N A
  transaction m w =
      let (r, v) = m w in elim r [ ok a ↦ (ok a, v) | err e ↦ (err e, record v { db = w.db }) ]

  -- The loop that checks who owns the featured products.
  pub check_featured : String → List String → App N (Unit {0})
  check_featured id [] = pure tt
  check_featured id (p ∷ ps) = do
    throw_if (← gets (λ d. not (owns id d p))) forbidden
    check_featured id ps

  -- The body of the transaction; the index of the table refuses a product that is featured twice.
  pub replace_site : String → SiteDto → App N Site
  unfolding update_user check_featured
  replace_site id dto = do
    update_user id (site_profile dto)
    modify (replace_socials id (social_entries id dto.socials))
    modify (replace_links id (numbered_links id 0 dto.links))
    modify (delete_featured id)
    check_featured id dto.featured_product_ids
    throw_if (has_repeated dto.featured_product_ids) unique_violation
    modify (create_featured (numbered_featured id 0 dto.featured_product_ids))
    or_throw (← gets (find_site id)) other

  pub update_site : String → SiteDto → App N SiteDto
  unfolding replace_site
  update_site id dto = do
    or_throw (← gets (find_user id)) not_found
    updated ← transaction (replace_site id dto)
    pure (to_site_dto updated)

  pub get_site : String → App N SiteDto
  get_site id = do site ← or_throw (← gets (find_site id)) not_found; pure (to_site_dto site)
