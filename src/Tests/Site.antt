-- ===== src/Tests/Site.antt =====
-- Ana's profile and page.
use kreav.Base.{refl, ℕ, false, true, none, some, [], ◌∷◌, ◌≡◌, ◌⊎◌, all}
use kreav.App.{World, ok, err, not_found, forbidden, unique_violation}
use kreav.Orders.Machine.{OrderStatus}
use kreav.Store.{User}
use kreav.Store.Table.{find_by}
use kreav.Store.Query.{find_user, find_username}
use kreav.Users.{ProfileDto, is_taken, new_name, check_username}
use kreav.Site.{SiteDto, owns, has_repeated, update_site, get_site}
use kreav.Site.Writing.{shown, site_written}
use kreav.Site.Laws.{with_db, update_site-cases}
use kreav.Site.Public.{get_public_profile}
use kreav.Site.Published.{published, get_public_profile-of_update}
use kreav.Tests.Data.{world_in, ana}

abbrev shop : World ℕ
shop = world_in OrderStatus.created

abbrev page : SiteDto
page = record {
  display_name = "Ana";
  username = "ana";
  bio = some "Presets";
  avatar_emoji = none;
  accent = none;
  socials = some (record { instagram = some "ana"; x = some ""; tiktok = none; youtube = none });
  links = record { label = "Blog"; url = "https://ana.io" } ∷ [];
  featured_product_ids = "p1" ∷ [];
}

abbrev renamed : ProfileDto
renamed = record {
  name = some "Ana B";
  username = some "anab";
  country = none;
  bio = none;
  avatar_emoji = none;
  accent = none;
}

update_site-cases_example :
    let x = update_site "c1" page shop in
    ((find_user "c1" shop.db ≡ none) × (x ≡ (err not_found, shop)))
    ⊎ ((u : User) × (find_user "c1" shop.db ≡ some u)
        × (is_taken "c1" (new_name (some page.username) u) shop.db.users ≡ true)
        × (x ≡ (err unique_violation, shop)))
    ⊎ ((all (owns "c1" shop.db) page.featured_product_ids ≡ false) × (x ≡ (err forbidden, shop)))
    ⊎ ((has_repeated page.featured_product_ids ≡ true) × (x ≡ (err unique_violation, shop)))
    ⊎ ((u : User) × (find_user "c1" shop.db ≡ some u)
        × (is_taken "c1" (new_name (some page.username) u) shop.db.users ≡ false)
        × (all (owns "c1" shop.db) page.featured_product_ids ≡ true)
        × (has_repeated page.featured_product_ids ≡ false)
        × (x ≡ (ok (shown page), with_db shop (site_written "c1" page shop.db)))
        × (get_site "c1" x.1 ≡ x))
update_site-cases_example = update_site-cases "c1" page shop

check_username_used : check_username "ana" shop ≡ (ok false, shop)
unfolding check_username find_username
check_username_used = refl

get_public_profile-of_update_example :
    get_public_profile "ana" (update_site "c1" page shop).1
    ≡ (ok (published "c1" page ana shop.db), (update_site "c1" page shop).1)
unfolding find_by
get_public_profile-of_update_example =
    get_public_profile-of_update "c1" page shop ana refl refl refl refl

published_products :
    (published "c1" page ana shop.db).products
    ≡ record { id = "p1"; title = "Ebook"; price_usd = 1001 } ∷ []
unfolding find_by
published_products = refl
