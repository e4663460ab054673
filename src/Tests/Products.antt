-- ===== src/Tests/Products.antt =====
-- Runs of the products service.
use kreav.Base.{ℕ, String, ◌≡◌, ◌≢◌, refl, none, some, List, [], ◌∷◌, true, false, eq_iff}
use kreav.App.{World, ok}
use kreav.Orders.Machine.{OrderStatus}
use kreav.Store.Table.{find_by}
use kreav.Stellar.Horizon.{get_usdc_balance}
use kreav.Products.{
  Share, CreateProductDto, UpdateProductDto, new_product, patched, create, update,
  resolve_collaborators, resolve_shares, assert_all_eligible, assert_eligible, read_trustline,
  load_owned_product, replace_shares, update_product,
}
use kreav.Products.Laws.{IsSettleable, create-IsSettleable}
use kreav.Tests.Data.{product, world_in, config, horizon}

abbrev shop : World ℕ
shop = world_in OrderStatus.payment_pending

abbrev shares : List Share
shares =
    record { wallet_address = "GA"; role = "Author"; revenue_percentage = 6000 }
    ∷ record { wallet_address = "GA"; role = "Cover"; revenue_percentage = 4000 }
    ∷ []

resolved : (resolve_collaborators config horizon shares "c1" shop).0 ≡ ok shares
unfolding resolve_collaborators resolve_shares assert_all_eligible assert_eligible read_trustline
    get_usdc_balance find_by
resolved = refl

abbrev dto : CreateProductDto
dto = record {
  title = "Presets";
  description = none;
  file_url = "https://x.io";
  price_usd = 1800;
  collaborators = shares;
}

created : (create config horizon "p2" dto "c1" shop).0 ≡ ok (new_product "p2" dto "c1")
unfolding create resolve_collaborators resolve_shares assert_all_eligible assert_eligible
    read_trustline get_usdc_balance find_by
created = refl

false_ne_true : false ≢ true
false_ne_true e = cc

other_product : ◌≢◌ {A = String} "p1" "p2"
other_product e = false_ne_true ((eq_iff "p1" "p2").1 e)

create-IsSettleable_example :
    IsSettleable config horizon "p2" (create config horizon "p2" dto "c1" shop).1.db
create-IsSettleable_example =
    create-IsSettleable config horizon "p2" dto "c1" (new_product "p2" dto "c1") shop
      (other_product, (other_product, tt)) created

abbrev change : UpdateProductDto
change = record {
  title = some "Book";
  description = none;
  file_url = none;
  price_usd = none;
  collaborators = shares;
}

updated : (update config horizon "p1" change "c1" shop).0 ≡ ok (patched change product)
unfolding update load_owned_product replace_shares update_product resolve_collaborators
    resolve_shares assert_all_eligible assert_eligible read_trustline get_usdc_balance find_by
updated = refl
