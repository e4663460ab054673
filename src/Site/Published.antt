-- ===== src/Site/Published.antt =====
-- The public page of a creator whose page was written (backend/src/site/site.service.ts,
-- backend/src/users/users.service.ts).
use kreav.Base.{
  keep, newest_first, take, ◌==◌, ◌&&◌, String, true, false, ◌≡◌, refl, ap, ◌∙◌, none, some, List,
  [], ◌∷◌, map, all, arith, eq_iff, eq_refl, Bool-cases, inl, inr,
}
use kreav.App.{Result, World, ok}
use kreav.Store.{Db, User, Product, ProductStatus, FeaturedProduct, is_active}
use kreav.Store.Table.{find_by, update_by}
use kreav.Store.Query.{product_id, find_user, user_id, has_username, find_username}
use kreav.Users.{is_taken, new_name}
use kreav.Site.{
  Socials, SiteDto, Site, included, to_site_dto, featured_id, site_profile, owns, has_repeated,
  update_site,
}
use kreav.Site.Writing.{shown, shown_socials, site_written, to_site_dto-written}
use kreav.Site.Laws.{with_db, update_site-accepted}
use kreav.Site.Public.{
  PublicProfile, PublicProduct, featured_products_of, active_only, or_recent, find_public,
  to_public_profile, get_public_profile,
}

-- The first user with a name that no other user has, after the user has taken it.
find_username-written :
    (id name : String) (f : User → User) (us : List User) {u : User}
    → ((x : User) → (f x).username ≡ some name)
    → is_taken id (some name) us ≡ false
    → find_by user_id id us ≡ some u
    → (find_username name (update_by user_id id f us) ≡ some (f u)) × (u.id ≡ id)
unfolding find_username find_by update_by
find_username-written id name f [] named free e = cc
find_username-written id name f (x ∷ us) {u} named free e =
    ground (
      arith,
      named x,
      eq_iff x.id id,
      eq_refl name,
      find_username-written id name f us {u = u} named,
    )

-- The products of a list of ids, in their order.
abbrev pub products_named : List Product → List String → List Product
products_named qs [] = []
products_named qs (p ∷ ps) = elim (find_by product_id p qs) [
  | none ↦ products_named qs ps
  | some q ↦ q ∷ products_named qs ps
]

featured_products_of-products_named :
    (d : Db) (fs : List FeaturedProduct)
    → featured_products_of d fs ≡ products_named d.products (map featured_id fs)
featured_products_of-products_named d [] = refl
featured_products_of-products_named d (f ∷ fs) =
    ground (arith, featured_products_of-products_named d fs)

-- What a public page says of the products that can be bought.
abbrev pub for_sale : List Product → List PublicProduct
for_sale [] = []
for_sale (p ∷ ps) = elim p.status [
  | ProductStatus.active ↦
      record { id = p.id; title = p.title; price_usd = p.price_usd } ∷ for_sale ps
  | ProductStatus.archived ↦ for_sale ps
]

active_only-for_sale : (ps : List Product) → active_only ps ≡ for_sale ps
active_only-for_sale [] = refl
active_only-for_sale (p ∷ ps) = ground (arith, active_only-for_sale ps)

-- The six products that the creator has made last, of those that can be bought.
abbrev pub last_six : String → List Product → List PublicProduct
last_six id ps =
    map (λ p. record { id = p.id; title = p.title; price_usd = p.price_usd })
      (take 6 (newest_first (keep (λ p. p.creator_id == id && is_active p.status) ps)))

-- The products of a page, which are the last six where none of the featured can be bought.
abbrev pub shown_products : List PublicProduct → List PublicProduct → List PublicProduct
shown_products [] latest = latest
shown_products (p ∷ ps) latest = p ∷ ps

-- The public page that a `SiteDto` stands for.
abbrev pub published : String → SiteDto → User → Db → PublicProfile
published id dto u d = record {
  username = dto.username;
  display_name = dto.display_name;
  bio = dto.bio;
  country = u.country;
  avatar_emoji = dto.avatar_emoji;
  accent = dto.accent;
  products =
      shown_products (for_sale (products_named d.products dto.featured_product_ids))
        (last_six id d.products);
  socials = shown_socials dto.socials;
  links = dto.links;
}

or_recent-shown :
    (ps : List PublicProduct) (id : String) (d : Db)
    → or_recent ps id d ≡ shown_products ps (last_six id d.products)
or_recent-shown [] id d = refl
or_recent-shown (p ∷ ps) id d = refl

abbrev the_socials : SiteDto → Socials
the_socials dto = elim dto.socials [ none ↦ shown_socials none | some s ↦ s ]

get_public_profile-of_found :
    {N : Type 0} (name : String) (w : World N) (s : Site)
    → find_public name w.db ≡ some s
    → get_public_profile name w ≡ (
      ok (
          to_public_profile s (
            or_recent
              (active_only (featured_products_of w.db s.featured_products))
              s.user.id
              w.db)),
      w,
    )
unfolding get_public_profile
get_public_profile-of_found {N} name w s e = ground (arith, e)

page-written :
    (id : String) (dto : SiteDto) (d : Db) (u : User)
    → u.id ≡ id
    → let v = site_written id dto d in
      let s = included id v (site_profile dto u) in
      to_public_profile s
        (or_recent (active_only (featured_products_of v s.featured_products)) s.user.id v)
      ≡ published id dto u d
page-written id dto d u same =
    let v : Db = site_written id dto d in
    let s : Site = included id v (site_profile dto u) in
    let e : to_site_dto s ≡ shown dto = to_site_dto-written id dto d u in
    rw
      (
        featured_products_of-products_named v s.featured_products,
        ap (λ t. t.featured_product_ids) e,
        ap the_socials e,
        ap (λ t. t.links) e,
        same,
      )
      (ap (λ ps. record (published id dto u d) { products = ps })
        (or_recent-shown (active_only (products_named d.products dto.featured_product_ids)) id v
          ∙ ap (λ ps. shown_products ps (last_six id d.products))
              (active_only-for_sale (products_named d.products dto.featured_product_ids))))

still_free :
    (id name : String) (u : User) (us : List User)
    → is_taken id (some name) us ≡ false
    → is_taken id (new_name (some name) u) us ≡ false
still_free id name u us free = elim (Bool-cases (has_username name u)) [
  | inl same ↦ rw same refl
  | inr other ↦ rw other free
]

-- The public page under the username that an accepted update has given is the page that was written,
-- where no other user has that username: the featured products that are active, in their order, or,
-- if there are none, the creator's last six active products.
pub get_public_profile-of_update :
    {N : Type 0} (id : String) (dto : SiteDto) (w : World N) (u : User)
    → find_user id w.db ≡ some u
    → is_taken id (some dto.username) w.db.users ≡ false
    → all (owns id w.db) dto.featured_product_ids ≡ true
    → has_repeated dto.featured_product_ids ≡ false
    → let v = (update_site id dto w).1 in
      get_public_profile dto.username v ≡ (ok (published id dto u w.db), v)
get_public_profile-of_update id dto w u found free own once =
    let v : World _ = with_db w (site_written id dto w.db) in
    let (named, same) =
      find_username-written id dto.username (site_profile dto) w.db.users (λ x. refl) free found in
    let site : Site = included id (site_written id dto w.db) (site_profile dto u) in
    let read : find_public dto.username v.db ≡ some site = ground (arith, named, same) in
    let page : get_public_profile dto.username v ≡ (ok (published id dto u w.db), v) =
      get_public_profile-of_found dto.username v site read
      ∙ ap (λ p. (ok p, v)) (page-written id dto w.db u same) in
    rw
      (ap (λ (x : Result SiteDto × World _). x.1)
        (update_site-accepted id dto w u found (still_free id dto.username u w.db.users free) own
          once).0)
      page
