-- ===== src/Products.antt =====
-- Products and their revenue shares (backend/src/products/products.service.ts). A share is a
-- number of hundredths of a percent, which the request's pattern guarantees; a new product's id is
-- an argument. The eligibility checks that the source starts together run one after another.
pub mod Reads
pub mod Eligible
pub mod Accepted
pub mod Laws
pub mod Status
use kreav.Base.{
  ℕ, String, Bool, true, false, not, Option, none, some, List, [], ◌∷◌, ◌++◌, map, keep, any, ◌==◌,
  if◌then◌else◌, sum_by, nat_eq, is_some, ltb,
}
use kreav.App.{
  App, Exn, not_found, bad_request, other, pure, throw, gets, modify, throw_if, or_throw, try_catch,
  ◌>>=◌, ◌>>◌,
}
use kreav.Store.{Db, Product, ProductStatus, Collaborator, CollaboratorStatus, Wallet}
use kreav.Store.Table.{update_by}
use kreav.Store.Query.{find_product, find_wallet, product_id}
use kreav.Stellar.Horizon.{StellarConfig, HorizonServer, WalletBalanceResult, get_usdc_balance}

-- `CreateCollaboratorDto`, its share parsed.
pub record Share : Type 0 where
  pub wallet_address : String
  pub role : String
  pub revenue_percentage : ℕ

pub record CreateProductDto : Type 0 where
  pub title : String
  pub description : Option String
  pub file_url : String
  pub price_usd : ℕ
  pub collaborators : List Share

-- A field that is not sent is left as it is.
pub record UpdateProductDto : Type 0 where
  pub title : Option String
  pub description : Option String
  pub file_url : Option String
  pub price_usd : Option ℕ
  pub collaborators : List Share

-- `[...new Set(wallets)]`
abbrev pub unique : List String → List String
unique [] = []
unique (a ∷ more) = a ∷ keep (λ b. not (b == a)) (unique more)

-- `wallet.findFirst({ where: { creatorId }, orderBy: { connectedAt: 'desc' } })`
abbrev later_of : Wallet → Option Wallet → Option Wallet
later_of w none = some w
later_of w (some v) = if ltb w.connected_at v.connected_at then some v else some w

unfoldable pub latest_wallet_of : String → List Wallet → Option Wallet
latest_wallet_of creator_id [] = none
latest_wallet_of creator_id (w ∷ ws) =
    let rest = latest_wallet_of creator_id ws in
    if w.creator_id == creator_id then later_of w rest else rest

abbrev pub row_of : String → Share → Collaborator
row_of id s = record {
  product_id = id;
  wallet_address = s.wallet_address;
  role = s.role;
  revenue_percentage = s.revenue_percentage;
  status = CollaboratorStatus.enabled;
}

abbrev pub sole_share : Wallet → Share
sole_share w = record {
  wallet_address = w.wallet_address;
  role = "Creator";
  revenue_percentage = 10000;
}

abbrev pub share_address : Share → String
share_address s = s.wallet_address

abbrev pub new_product : String → CreateProductDto → String → Product
new_product id dto creator_id = record {
  id = id;
  creator_id = creator_id;
  title = dto.title;
  description = dto.description;
  file_url = some dto.file_url;
  price_usd = dto.price_usd;
  status = ProductStatus.active;
}

abbrev or_old : {A : Type 0} → Option A → A → A
or_old none old = old
or_old (some a) old = a

abbrev or_still : {A : Type 0} → Option A → Option A → Option A
or_still none old = old
or_still (some a) old = some a

abbrev pub patched : UpdateProductDto → Product → Product
patched dto p = record p {
  title = or_old dto.title p.title;
  description = or_still dto.description p.description;
  file_url = or_still dto.file_url p.file_url;
  price_usd = or_old dto.price_usd p.price_usd;
}

abbrev pub add_product : Product → List Collaborator → Db → Db
add_product p cs d = record d {
  products = d.products ++ p ∷ [];
  collaborators = d.collaborators ++ cs;
}

abbrev pub replace_collaborators : String → List Collaborator → Db → Db
replace_collaborators id cs d = record d {
  collaborators = keep (λ c. not (c.product_id == id)) d.collaborators ++ cs;
}

abbrev pub set_products : (List Product → List Product) → Db → Db
set_products f d = record d { products = f d.products }

module _ {N : Type 0} where
  -- `loadOwnedProduct`
  unfoldable pub load_owned_product : String → String → App N Product
  load_owned_product id creator_id = do
    p ← or_throw (← gets (find_product id)) not_found
    throw_if (not (p.creator_id == creator_id)) not_found
    pure p

  -- `product.update({ where: { id }, data })`; a missing row is refused (P2025).
  unfoldable pub update_product : String → (Product → Product) → App N Product
  update_product id change = do
    p ← or_throw (← gets (find_product id)) other
    modify (set_products (update_by product_id id change))
    pure (change p)

  -- `setStatus`
  pub set_status : String → String → ProductStatus → App N Product
  unfolding load_owned_product update_product
  set_status id creator_id status = do
    load_owned_product id creator_id
    update_product id (λ p. record p { status = status })

module _ {N : Type 0} (config : StellarConfig) (horizon : HorizonServer N) where
  -- A read of the trustline that must succeed.
  unfoldable pub read_trustline : String → App N WalletBalanceResult
  read_trustline address =
      try_catch (get_usdc_balance config horizon address) (λ e. throw bad_request)

  -- One address of `assertCollaboratorsEligible`.
  unfoldable pub assert_eligible : String → App N (Unit {0})
  unfolding read_trustline
  assert_eligible address = do
    throw_if (not (is_some (← gets (find_wallet address)))) bad_request
    state ← read_trustline address
    throw_if (not state.has_usdc_trustline) bad_request

  unfoldable pub assert_all_eligible : List String → App N (Unit {0})
  unfolding assert_eligible
  assert_all_eligible [] = pure tt
  assert_all_eligible (a ∷ more) = do assert_eligible a; assert_all_eligible more

  -- `resolveCollaborators` with an explicit list.
  unfoldable pub resolve_shares : List Share → App N (List Share)
  unfolding assert_all_eligible
  resolve_shares shares = do
    throw_if (not (nat_eq (sum_by (λ s. s.revenue_percentage) shares) 10000)) bad_request
    throw_if (any (λ s. nat_eq s.revenue_percentage 0) shares) bad_request
    assert_all_eligible (unique (map share_address shares))
    pure shares

  -- `resolveCollaborators` without a list: the creator alone.
  pub resolve_sole : String → App N (List Share)
  unfolding read_trustline
  resolve_sole creator_id = do
    wallet ← or_throw (← gets (λ d. latest_wallet_of creator_id d.wallets)) bad_request
    state ← read_trustline wallet.wallet_address
    throw_if (not state.has_usdc_trustline) bad_request
    pure (sole_share wallet ∷ [])

  unfoldable pub resolve_collaborators : List Share → String → App N (List Share)
  unfolding resolve_shares resolve_sole
  resolve_collaborators [] creator_id = resolve_sole creator_id
  resolve_collaborators (s ∷ shares) creator_id = resolve_shares (s ∷ shares)

  -- `create`
  unfoldable pub create : String → CreateProductDto → String → App N Product
  unfolding resolve_collaborators
  create id dto creator_id = do
    shares ← resolve_collaborators dto.collaborators creator_id
    modify (add_product (new_product id dto creator_id) (map (row_of id) shares))
    pure (new_product id dto creator_id)

  -- The part of `update` that replaces the collaborators.
  unfoldable pub replace_shares : String → List Share → String → App N (Unit {0})
  unfolding resolve_collaborators
  replace_shares id [] creator_id = pure tt
  replace_shares id (s ∷ more) creator_id = do
    shares ← resolve_collaborators (s ∷ more) creator_id
    modify (replace_collaborators id (map (row_of id) shares))

  -- `update`
  unfoldable pub update : String → UpdateProductDto → String → App N Product
  unfolding load_owned_product replace_shares update_product
  update id dto creator_id = do
    load_owned_product id creator_id
    replace_shares id dto.collaborators creator_id
    update_product id (patched dto)
