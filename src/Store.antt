-- ===== src/Store.antt =====
-- The tables of backend/prisma/schema.prisma that the services read and write. A table is the
-- list of its rows; a query is the list function that its `where` clause describes.
-- A Decimal(18,2) is its number of hundredths: an amount in cents, a percentage in basis points.
pub mod Table
pub mod Query
use kreav.Base.{ℕ, String, Option, Bool, List}
use kreav.Base.Int.{ℤ}
use kreav.Orders.Machine.{OrderStatus}

pub data ProductStatus : Type 0 where
  active archived : ProductStatus

abbrev pub is_active : ProductStatus → Bool
is_active active = Bool.true
is_active archived = Bool.false

pub record Product : Type 0 where
  pub id : String
  pub creator_id : String
  pub title : String
  pub description : Option String
  pub file_url : Option String
  pub price_usd : ℕ
  pub status : ProductStatus

pub data CollaboratorStatus : Type 0 where
  enabled inactive : CollaboratorStatus

abbrev pub is_enabled : CollaboratorStatus → Bool
is_enabled enabled = Bool.true
is_enabled inactive = Bool.false

pub record Collaborator : Type 0 where
  pub product_id : String
  pub wallet_address : String
  pub role : String
  pub revenue_percentage : ℕ
  pub status : CollaboratorStatus

pub record Wallet : Type 0 where
  pub creator_id : String
  pub wallet_address : String
  pub connected_at : ℕ

pub record Order : Type 0 where
  pub id : String
  pub product_id : String
  pub buyer_email : String
  pub amount_usd : ℕ
  pub status : OrderStatus
  pub tx_hash : Option String
  pub payment_ref : Option String

pub data SettlementStatus : Type 0 where
  pending completed failed : SettlementStatus

pub data RecipientType : Type 0 where
  creator platform affiliate treasury : RecipientType

-- `amount` is in base units of USDC (seven decimals), as the services write it.
pub record SettlementRecipient : Type 0 where
  pub wallet_address : String
  pub recipient_type : RecipientType
  pub role : String
  pub percentage : ℕ
  pub amount : ℤ

pub record Settlement : Type 0 where
  pub order_id : String
  pub total_amount : ℕ
  pub tx_hash : String
  pub status : SettlementStatus
  pub recipients : List SettlementRecipient

pub data WithdrawalStatus : Type 0 where
  requested processing done rejected : WithdrawalStatus

pub record Withdrawal : Type 0 where
  pub id : String
  pub creator_id : String
  pub settlement_tx_hash : Option String
  pub amount : ℕ
  pub destination_type : String
  pub destination_account : String
  pub reference : String
  pub status : WithdrawalStatus
  pub anchor_transaction_id : Option String
  pub tx_hash : Option String
  pub created_at : ℕ
  pub completed_at : Option ℕ

pub record User : Type 0 where
  pub id : String
  pub email : String
  pub name : String
  pub role : String
  pub username : Option String
  pub country : Option String
  pub bio : Option String
  pub avatar_emoji : Option String
  pub accent : Option String
  pub created_at : ℕ

-- The tables of a creator's page; a row belongs to the user `user_id`.
pub record SocialLink : Type 0 where
  pub user_id : String
  pub platform : String
  pub handle : String

pub record CustomLink : Type 0 where
  pub user_id : String
  pub label : String
  pub url : String
  pub sort_order : ℕ

pub record FeaturedProduct : Type 0 where
  pub user_id : String
  pub product_id : String
  pub sort_order : ℕ

pub record Db : Type 0 where
  pub users : List User
  pub social_links : List SocialLink
  pub custom_links : List CustomLink
  pub featured_products : List FeaturedProduct
  pub products : List Product
  pub collaborators : List Collaborator
  pub wallets : List Wallet
  pub orders : List Order
  pub settlements : List Settlement
  pub withdrawals : List Withdrawal
