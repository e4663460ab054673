-- ===== src/Site/Writing.antt =====
-- The rows of a page that was written (backend/src/site/site.service.ts), read back.
use kreav.Base.{
  ℕ, suc, String, Bool, true, false, ◌≡◌, refl, ap, ◌∙◌, Option, none, some, List, [], ◌∷◌, ◌++◌,
  map, All, All-append, ◌==◌, if◌then◌else◌, arith, eq_refl, sort-of_sorted, IsSorted,
  keep-replaced,
}
use kreav.Store.{Db, User, SocialLink}
use kreav.Store.Table.{update_by, find_by-update_by_self}
use kreav.Store.Query.{user_id, find_user}
use kreav.Users.{set_users}
use kreav.Site.{
  Socials, LinkDto, SiteDto, Site, link_le, featured_le, is_social_of, is_link_of, is_featured_of,
  included, find_site, handle_of, link_of, featured_id, socials_of, to_site_dto, site_profile,
  entry, social_entries, numbered_links, numbered_featured, replace_socials, replace_links,
  delete_featured, create_featured,
}

entry-own :
    (id platform : String) (o : Option String)
    → All (λ l. is_social_of id l ≡ true) (entry id platform o)
entry-own id platform none = tt
entry-own id platform (some handle) = go (handle == "")
  where
    go :
        (b : Bool)
        → All
            (λ l. is_social_of id l ≡ true)
            (if b then [] else record { user_id = id; platform = platform; handle = handle } ∷ [])
    go true = tt
    go false = (eq_refl id, tt)

entries-own :
    (id : String) (o : Option Socials) → All (λ l. is_social_of id l ≡ true) (social_entries id o)
entries-own id none = tt
entries-own id (some s) =
    own "INSTAGRAM" s.instagram _
      (own "X" s.x _ (own "TIKTOK" s.tiktok _ (own "YOUTUBE" s.youtube [] tt)))
  where
    own :
        (platform : String) (o : Option String) (ls : List SocialLink)
        → All (λ l. is_social_of id l ≡ true) ls
        → All (λ l. is_social_of id l ≡ true) (entry id platform o ++ ls)
    own platform o ls h =
        All-append (λ l. is_social_of id l ≡ true) (entry id platform o) ls
          (entry-own id platform o) h

links-own :
    (id : String) (i : ℕ) (ls : List LinkDto)
    → All (λ l. is_link_of id l ≡ true) (numbered_links id i ls)
links-own id i [] = tt
links-own id i (l ∷ ls) = (eq_refl id, links-own id (suc i) ls)

featured-own :
    (id : String) (i : ℕ) (ps : List String)
    → All (λ l. is_featured_of id l ≡ true) (numbered_featured id i ps)
featured-own id i [] = tt
featured-own id i (p ∷ ps) = (eq_refl id, featured-own id (suc i) ps)

links-IsSorted :
    (id : String) (i : ℕ) (ls : List LinkDto) → IsSorted link_le (numbered_links id i ls)
links-IsSorted id i [] = tt
links-IsSorted id i (l ∷ []) = (tt, tt)
links-IsSorted id i (l ∷ m ∷ ls) = (ground arith, links-IsSorted id (suc i) (m ∷ ls))

featured-IsSorted :
    (id : String) (i : ℕ) (ps : List String) → IsSorted featured_le (numbered_featured id i ps)
featured-IsSorted id i [] = tt
featured-IsSorted id i (p ∷ []) = (tt, tt)
featured-IsSorted id i (p ∷ q ∷ ps) = (ground arith, featured-IsSorted id (suc i) (q ∷ ps))

map-numbered_links :
    (id : String) (i : ℕ) (ls : List LinkDto) → map link_of (numbered_links id i ls) ≡ ls
map-numbered_links id i [] = refl
map-numbered_links id i (l ∷ ls) = ap (λ t. l ∷ t) (map-numbered_links id (suc i) ls)

map-numbered_featured :
    (id : String) (i : ℕ) (ps : List String) → map featured_id (numbered_featured id i ps) ≡ ps
map-numbered_featured id i [] = refl
map-numbered_featured id i (p ∷ ps) = ap (λ t. p ∷ t) (map-numbered_featured id (suc i) ps)

-- A handle that is empty is as good as none.
abbrev pub filled : Option String → Option String
filled none = none
filled (some handle) = if handle == "" then none else some handle

-- The page that a `SiteDto` stands for.
abbrev pub shown_socials : Option Socials → Socials
shown_socials none = record { instagram = none; x = none; tiktok = none; youtube = none }
shown_socials (some s) = record {
  instagram = filled s.instagram;
  x = filled s.x;
  tiktok = filled s.tiktok;
  youtube = filled s.youtube;
}

abbrev pub shown : SiteDto → SiteDto
shown dto = record dto { socials = some (shown_socials dto.socials) }

handle_of-other :
    (id p q : String) (o : Option String) (ls : List SocialLink)
    → (q == p) ≡ false
    → handle_of p (entry id q o ++ ls) ≡ handle_of p ls
unfolding handle_of
handle_of-other id p q none ls ne = refl
handle_of-other id p q (some handle) ls ne = ground (arith, ne)

handle_of-own :
    (id p : String) (o : Option String) (ls : List SocialLink)
    → handle_of p ls ≡ none
    → handle_of p (entry id p o ++ ls) ≡ filled o
unfolding handle_of
handle_of-own id p none ls e = e
handle_of-own id p (some handle) ls e = ground (arith, e, eq_refl p)

abbrev four :
    String → Option String → Option String → Option String → Option String → List SocialLink
four id a b c d =
    entry id "INSTAGRAM" a
    ++ (entry id "X" b ++ (entry id "TIKTOK" c ++ (entry id "YOUTUBE" d ++ [])))

module _ (id : String) (a b c d : Option String) where
  abbrev after_tiktok : List SocialLink
  after_tiktok = entry id "YOUTUBE" d ++ []

  abbrev after_x : List SocialLink
  after_x = entry id "TIKTOK" c ++ after_tiktok

  abbrev after_instagram : List SocialLink
  after_instagram = entry id "X" b ++ after_x

  handle-instagram : handle_of "INSTAGRAM" (four id a b c d) ≡ filled a
  unfolding handle_of
  handle-instagram = handle_of-own id "INSTAGRAM" a after_instagram (
      handle_of-other id "INSTAGRAM" "X" b after_x refl
      ∙ handle_of-other id "INSTAGRAM" "TIKTOK" c after_tiktok refl
      ∙ handle_of-other id "INSTAGRAM" "YOUTUBE" d [] refl)

  handle-x : handle_of "X" (four id a b c d) ≡ filled b
  unfolding handle_of
  handle-x =
      handle_of-other id "X" "INSTAGRAM" a after_instagram refl
      ∙ handle_of-own id "X" b after_x (
          handle_of-other id "X" "TIKTOK" c after_tiktok refl
          ∙ handle_of-other id "X" "YOUTUBE" d [] refl)

  handle-tiktok : handle_of "TIKTOK" (four id a b c d) ≡ filled c
  unfolding handle_of
  handle-tiktok =
      handle_of-other id "TIKTOK" "INSTAGRAM" a after_instagram refl
      ∙ handle_of-other id "TIKTOK" "X" b after_x refl
      ∙ handle_of-own id "TIKTOK" c after_tiktok (handle_of-other id "TIKTOK" "YOUTUBE" d [] refl)

  handle-youtube : handle_of "YOUTUBE" (four id a b c d) ≡ filled d
  unfolding handle_of
  handle-youtube =
      handle_of-other id "YOUTUBE" "INSTAGRAM" a after_instagram refl
      ∙ handle_of-other id "YOUTUBE" "X" b after_x refl
      ∙ handle_of-other id "YOUTUBE" "TIKTOK" c after_tiktok refl
      ∙ handle_of-own id "YOUTUBE" d [] refl

socials_of-entries :
    (id : String) (o : Option Socials) → socials_of (social_entries id o) ≡ shown_socials o
unfolding handle_of
socials_of-entries id none = refl
socials_of-entries id (some s) = ground (
  arith,
  handle-instagram id s.instagram s.x s.tiktok s.youtube,
  handle-x id s.instagram s.x s.tiktok s.youtube,
  handle-tiktok id s.instagram s.x s.tiktok s.youtube,
  handle-youtube id s.instagram s.x s.tiktok s.youtube,
)

abbrev pub site_written : String → SiteDto → Db → Db
site_written id dto d = create_featured (numbered_featured id 0 dto.featured_product_ids) (
    delete_featured id (
      replace_links id (numbered_links id 0 dto.links) (
        replace_socials id (social_entries id dto.socials)
          (set_users (update_by user_id id (site_profile dto)) d))))

find_site-of_found :
    (id : String) (d : Db) {u : User}
    → find_user id d ≡ some u
    → find_site id d ≡ some (included id d u)
find_site-of_found id d e =
    ap
      (λ (o : Option User). elim o as (λ _. Option Site) [
        | none ↦ none
        | some u ↦ some (included id d u)
      ])
      e

-- The rows that were written stand for the page that was given.
pub to_site_dto-written :
    (id : String) (dto : SiteDto) (d : Db) (u : User)
    → to_site_dto (included id (site_written id dto d) (site_profile dto u)) ≡ shown dto
to_site_dto-written id dto d u =
    rw
      (
        keep-replaced (is_social_of id) d.social_links (social_entries id dto.socials)
            (entries-own id dto.socials),
        keep-replaced (is_link_of id) d.custom_links (numbered_links id 0 dto.links)
            (links-own id 0 dto.links),
        keep-replaced (is_featured_of id) d.featured_products
            (numbered_featured id 0 dto.featured_product_ids)
            (featured-own id 0 dto.featured_product_ids),
        sort-of_sorted link_le (numbered_links id 0 dto.links) (links-IsSorted id 0 dto.links),
        sort-of_sorted featured_le (numbered_featured id 0 dto.featured_product_ids)
            (featured-IsSorted id 0 dto.featured_product_ids),
        map-numbered_links id 0 dto.links,
        map-numbered_featured id 0 dto.featured_product_ids,
      )
      (ap (λ (t : Socials). record (shown dto) { socials = some t })
        (socials_of-entries id dto.socials))

-- The page that was written is the page that is read.
pub find_site-written :
    (id : String) (dto : SiteDto) (d : Db) (u : User)
    → find_user id d ≡ some u
    → (s : Site) × (find_site id (site_written id dto d) ≡ some s) × (to_site_dto s ≡ shown dto)
find_site-written id dto d u found = (
  included id (site_written id dto d) (site_profile dto u),
  find_site-of_found id (site_written id dto d)
      (find_by-update_by_self user_id id (site_profile dto) (λ x. refl) d.users found),
  to_site_dto-written id dto d u,
)
