-- ===== src/Stellar/Horizon.antt =====
-- Reading account state from Horizon (horizon.service.ts). The SDK's `loadAccount` is a parameter:
-- it answers from the network's state and may change it. Balances are in base units.
use kreav.Base.{
  ℕ, String, Bool, true, false, ◌&&◌, Option, none, some, List, [], ◌∷◌, ◌==◌, if◌then◌else◌,
  is_some,
}
use kreav.App.{App, Result, Exn, http_not_found, call, pure, throw, try_catch, ◌>>=◌}

pub record CreditBalance : Type 0 where
  pub asset_code : String
  pub asset_issuer : String
  pub balance : ℕ

pub record HorizonServer (N : Type 0) : Type 0 where
  pub load_account : String → N → Result (List CreditBalance) × N

-- What the services read of `StellarConfig`; no key stands for a secret that is missing or invalid.
pub record StellarConfig : Type 0 where
  pub usdc_asset_code : String
  pub usdc_issuer : String
  pub platform_wallet_address : String
  pub platform_key : Option String

pub record WalletBalanceResult : Type 0 where
  pub balance_usd : ℕ
  pub has_usdc_trustline : Bool
  pub account_exists : Bool

abbrev find_usdc : StellarConfig → List CreditBalance → Option CreditBalance
find_usdc config [] = none
find_usdc config (b ∷ bs) =
    if b.asset_code == config.usdc_asset_code && b.asset_issuer == config.usdc_issuer
    then some b
    else find_usdc config bs

abbrev balance_of : Option CreditBalance → ℕ
balance_of none = 0
balance_of (some b) = b.balance

-- `isNotFoundError`
abbrev is_not_found_error : Exn → Bool
is_not_found_error http_not_found = true
is_not_found_error _ = false

abbrev unfunded : WalletBalanceResult
unfunded = record { balance_usd = 0; has_usdc_trustline = false; account_exists = false }

module _ {N : Type 0} (config : StellarConfig) (horizon : HorizonServer N) where
  -- `HorizonService.getUsdcBalance`
  unfoldable pub get_usdc_balance : String → App N WalletBalanceResult
  get_usdc_balance public_key =
      try_catch
        (do
          balances ← call (horizon.load_account public_key)
          pure (record {
            balance_usd = balance_of (find_usdc config balances);
            has_usdc_trustline = is_some (find_usdc config balances);
            account_exists = true;
          }))
        (λ e. if is_not_found_error e then pure unfunded else throw e)
