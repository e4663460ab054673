-- ===== src/Site/Laws.antt =====
-- How the update of a page can end (`updateSite`, backend/src/site/site.service.ts).
use kreav.Base.{
  Option, String, true, false, ◌≡◌, ◌⊎◌, refl, sym, ap, ◌∙◌, none, some, List, [], ◌∷◌, all, inl,
  inr, arith, Option-cases, Bool-cases, if◌then◌else◌,
}
use kreav.App.{
  other, or_throw, pure, ◌>>=◌, World, Result, ok, err, not_found, forbidden, unique_violation,
}
use kreav.Store.{Db, User}
use kreav.Store.Query.{user_id, find_user}
use kreav.Store.Table.{update_by}
use kreav.Users.{set_users, is_taken, new_name, update_user}
use kreav.Users.Laws.{HasUniqueUsers, rewritten-HasUniqueUsers}
use kreav.Site.{
  delete_featured, replace_links, replace_socials, numbered_links, social_entries, Site, SiteDto,
  site_profile, owns, has_repeated, check_featured, replace_site, update_site, get_site,
  to_site_dto, find_site,
}
use kreav.Site.Writing.{shown, site_written, find_site-written}

check_featured-all :
    {N : Type 0} (id : String) (ps : List String) (w : World N)
    → check_featured id ps w ≡ (if all (owns id w.db) ps then ok tt else err forbidden, w)
unfolding check_featured
check_featured-all id [] w = refl
check_featured-all id (p ∷ ps) w = ground (arith, check_featured-all id ps w)

abbrev pub with_db : {N : Type 0} → World N → Db → World N
with_db w d = record w { db = d }

-- Before the featured products are checked.
abbrev cleared : {N : Type 0} → String → SiteDto → World N → World N
cleared id dto w = with_db w (
    delete_featured id (
      replace_links id (numbered_links id 0 dto.links) (
        replace_socials id (social_entries id dto.socials)
          (set_users (update_by user_id id (site_profile dto)) w.db))))

replaced :
    {N : Type 0} (id : String) (dto : SiteDto) (w : World N) (u : User)
    → find_user id w.db ≡ some u
    → is_taken id (new_name (some dto.username) u) w.db.users ≡ false
    → all (owns id w.db) dto.featured_product_ids ≡ true
    → has_repeated dto.featured_product_ids ≡ false
    → replace_site id dto w
      ≡ or_throw
          (find_site id (site_written id dto w.db))
          other
          (with_db w (site_written id dto w.db))
unfolding replace_site update_user
replaced id dto w u found free own once = ground (
  arith,
  found,
  free,
  own,
  once,
  check_featured-all id dto.featured_product_ids (cleared id dto w),
)

update_site-of_ok :
    {N : Type 0} (id : String) (dto : SiteDto) (w v : World N) (u : User) (s : Site)
    → find_user id w.db ≡ some u
    → replace_site id dto w ≡ (ok s, v)
    → update_site id dto w ≡ (ok (to_site_dto s), v)
unfolding update_site
update_site-of_ok id dto w v u s found e = ground (arith, found, e)

get_site-of_found :
    {N : Type 0} (id : String) (w : World N) (s : Site)
    → find_site id w.db ≡ some s
    → get_site id w ≡ (ok (to_site_dto s), w)
unfolding get_site
get_site-of_found {N} id w s e =
    ap
      (λ (o : Option Site).
        (or_throw {N = N} o not_found >>= (λ (site : Site). pure (to_site_dto site))) w)
      e

-- An update that nothing refuses.
pub update_site-accepted :
    {N : Type 0} (id : String) (dto : SiteDto) (w : World N) (u : User)
    → find_user id w.db ≡ some u
    → is_taken id (new_name (some dto.username) u) w.db.users ≡ false
    → all (owns id w.db) dto.featured_product_ids ≡ true
    → has_repeated dto.featured_product_ids ≡ false
    → let v = with_db w (site_written id dto w.db) in
      (update_site id dto w ≡ (ok (shown dto), v)) × (get_site id v ≡ (ok (shown dto), v))
update_site-accepted {N} id dto w u found free own once =
    let v : World N = with_db w (site_written id dto w.db) in
    let (s, read, shows) = find_site-written id dto w.db u found in
    (
      update_site-of_ok id dto w v u s found
            (replaced id dto w u found free own once ∙ ap (λ o. or_throw o other v) read)
          ∙ ap (λ t. (ok t, v)) shows,
      get_site-of_found id v s read ∙ ap (λ t. (ok t, v)) shows,
    )

reread :
    {N : Type 0} (id : String) (dto : SiteDto) (w : World N) (y : Result SiteDto × World N)
    → update_site id dto w ≡ y
    → get_site id y.1 ≡ y
    → get_site id (update_site id dto w).1 ≡ update_site id dto w
reread id dto w y e g = ap (λ (t : Result SiteDto × World _). get_site id t.1) e ∙ g ∙ sym e

-- The update of a page is refused for an unknown user, for a username that another user has, for
-- featured products that are not all the user's own or are repeated, and then nothing has changed;
-- else all of the page is replaced, and what is read then is the page that was given, empty handles
-- left out.
pub update_site-cases :
    {N : Type 0} (id : String) (dto : SiteDto) (w : World N)
    → let x = update_site id dto w in
      ((find_user id w.db ≡ none) × (x ≡ (err not_found, w)))
      ⊎ ((u : User) × (find_user id w.db ≡ some u)
          × (is_taken id (new_name (some dto.username) u) w.db.users ≡ true)
          × (x ≡ (err unique_violation, w)))
      ⊎ ((all (owns id w.db) dto.featured_product_ids ≡ false) × (x ≡ (err forbidden, w)))
      ⊎ ((has_repeated dto.featured_product_ids ≡ true) × (x ≡ (err unique_violation, w)))
      ⊎ ((u : User) × (find_user id w.db ≡ some u)
          × (is_taken id (new_name (some dto.username) u) w.db.users ≡ false)
          × (all (owns id w.db) dto.featured_product_ids ≡ true)
          × (has_repeated dto.featured_product_ids ≡ false)
          × (x ≡ (ok (shown dto), with_db w (site_written id dto w.db)))
          × (get_site id x.1 ≡ x))
unfolding update_site replace_site update_user
update_site-cases id dto w = elim (Option-cases (find_user id w.db)) [
  | inl missing ↦ inl (missing, ground (arith, missing))
  | inr (u, found) ↦ elim (Bool-cases (is_taken id (new_name (some dto.username) u) w.db.users)) [
    | inl taken ↦ inr (inl (u, found, taken, ground (arith, found, taken)))
    | inr free ↦ elim (Bool-cases (all (owns id w.db) dto.featured_product_ids)) [
      | inr foreign ↦ inr (
          inr (
            inl (
              foreign,
              ground (
                arith,
                found,
                free,
                foreign,
                check_featured-all id dto.featured_product_ids (cleared id dto w),
              ),
            )))
      | inl own ↦ elim (Bool-cases (has_repeated dto.featured_product_ids)) [
        | inl twice ↦ inr (
            inr (
              inr (
                inl (
                  twice,
                  ground (
                    arith,
                    found,
                    free,
                    own,
                    twice,
                    check_featured-all id dto.featured_product_ids (cleared id dto w),
                  ),
                ))))
        | inr once ↦ inr (
            inr (
              inr (
                inr (
                  u,
                  found,
                  free,
                  own,
                  once,
                  (update_site-accepted id dto w u found free own once).0,
                  reread id dto w _ (update_site-accepted id dto w u found free own once).0
                      (update_site-accepted id dto w u found free own once).1,
                ))))
      ]
    ]
  ]
]

-- The update of a page keeps the unique indices of the table of users.
pub update_site-HasUniqueUsers :
    {N : Type 0} (id : String) (dto : SiteDto) (w : World N)
    → HasUniqueUsers w.db.users
    → HasUniqueUsers (update_site id dto w).1.db.users
update_site-HasUniqueUsers id dto w h = elim (update_site-cases id dto w) [
  | inl (_, e) ↦ rw e h
  | inr (inl (_, _, _, e)) ↦ rw e h
  | inr (inr (inl (_, e))) ↦ rw e h
  | inr (inr (inr (inl (_, e)))) ↦ rw e h
  | inr (inr (inr (inr (u, found, free, _, _, e, _)))) ↦ rw e (
      rewritten-HasUniqueUsers id (site_profile dto) w.db.users u (λ x. refl) (λ x. refl) found free
        h)
]
