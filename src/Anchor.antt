-- ===== src/Anchor.antt =====
-- Withdrawals through an anchor (backend/src/withdrawals/anchor: anchor-sep24.service.ts and
-- withdrawals-anchor.controller.ts). The anchor's HTTP endpoints are parameters. Amounts are in base
-- units; the column of a withdrawal rounds them to cents.
pub mod Laws
use kreav.Base.{
  ℕ, ◌+◌, ◌/◌, String, Bool, true, false, not, ◌&&◌, Option, none, some, List, [], ◌∷◌, ◌++◌, map,
  ◌==◌, if◌then◌else◌, leb, ltb,
}
use kreav.Base.Int.{pos, ltb_ℤ}
use kreav.App.{
  App, Result, ok, err, not_found, forbidden, unauthorized, bad_request, bad_gateway,
  unique_violation, pure, throw, gets, modify, call, throw_if, or_throw, ◌>>=◌, ◌>>◌,
}
use kreav.Store.{Db, Wallet, Withdrawal, WithdrawalStatus}
use kreav.Products.{latest_wallet_of}
use kreav.Withdrawals.{set_withdrawals, withdrawable_balance}
use kreav.Stellar.Horizon.{StellarConfig, HorizonServer}
use kreav.Stellar.Sponsorship.{Sdk, build_withdraw_payment, submit_withdraw_payment}
use Prim.Native.String

-- An answer over HTTP; a body that is not the JSON that is expected is none.
pub data Reply (A : Type 0) : Type 0 where
  unreachable : Reply A
  replied : ℕ → Option A → Reply A

pub record AnchorChallenge : Type 0 where
  pub transaction : String
  pub network_passphrase : String

pub record AnchorInteractive : Type 0 where
  pub url : String
  pub id : String

pub record AnchorTransaction : Type 0 where
  pub id : String
  pub status : String
  pub withdraw_anchor_account : Option String
  pub withdraw_memo : Option String
  pub withdraw_memo_type : Option String
  pub amount_in : Option ℕ

pub record AnchorServer (N : Type 0) : Type 0 where
  pub challenge : String → N → Reply AnchorChallenge × N
  pub verify : String → N → Reply String × N
  pub interactive : String → String → ℕ → N → Reply AnchorInteractive × N
  pub transaction : String → String → N → Reply AnchorTransaction × N

-- What the controllers read of the configuration.
pub record AnchorConfig : Type 0 where
  pub anchor_enabled : Bool
  pub anchor_home_domain : String

-- `request`
unfoldable pub as_result : {A : Type 0} → Reply A → Result A
as_result {A} unreachable = err bad_gateway
as_result {A} (replied status body) =
    if leb 200 status && ltb status 300
    then (elim body as (λ _. Result A) [ none ↦ err bad_gateway | some a ↦ ok a ])
    else if leb 400 status && ltb status 500
    then err bad_request
    else err bad_gateway

abbrev pub is_failure : String → Bool
is_failure s =
    if s == "error"
    then true
    else if s == "refunded"
    then true
    else if s == "no_market"
    then true
    else if s == "too_small"
    then true
    else if s == "too_large"
    then true
    else s == "expired"

-- `mapStatus`; FAILED stands as `rejected`.
unfoldable pub map_status : String → WithdrawalStatus
map_status s =
    if s == "completed"
    then WithdrawalStatus.done
    else if is_failure s
    then WithdrawalStatus.rejected
    else WithdrawalStatus.processing

abbrev pub is_anchored : String → String → Withdrawal → Bool
is_anchored id creator w = elim w.anchor_transaction_id [
  | none ↦ false
  | some i ↦ i == id && w.creator_id == creator
]

-- `withdrawal.updateMany({ where: { anchorTransactionId, creatorId }, data })`
abbrev pub update_anchored : String → String → (Withdrawal → Withdrawal) → Db → Db
update_anchored id creator change d =
    set_withdrawals (map (λ w. if is_anchored id creator w then change w else w)) d

abbrev pub cents_of : ℕ → ℕ
cents_of n = (n + 50000) / 100000

abbrev pub given_cents : Option ℕ → ℕ → ℕ
given_cents none old = old
given_cents (some n) old = cents_of n

abbrev pub done_at : WithdrawalStatus → ℕ → Option ℕ
done_at WithdrawalStatus.done now = some now
done_at _ now = none

-- The data that a poll writes.
abbrev pub mirrored : AnchorTransaction → ℕ → Withdrawal → Withdrawal
mirrored tx now w = record w {
  status = map_status tx.status;
  completed_at = done_at (map_status tx.status) now;
  amount = given_cents tx.amount_in w.amount;
}

abbrev pub with_hash : String → Withdrawal → Withdrawal
with_hash hash w = record w { tx_hash = some hash }

abbrev pub anchor_row : AnchorConfig → String → String → String → String → ℕ → ℕ → Withdrawal
anchor_row config id creator anchor_id reference amount now = record {
  id = id;
  creator_id = creator;
  settlement_tx_hash = none;
  amount = cents_of amount;
  destination_type = "ANCHOR";
  destination_account = config.anchor_home_domain;
  reference = reference;
  status = WithdrawalStatus.processing;
  anchor_transaction_id = some anchor_id;
  tx_hash = none;
  created_at = now;
  completed_at = none;
}

abbrev pub add_withdrawal : Withdrawal → Db → Db
add_withdrawal w d = set_withdrawals (λ ws. ws ++ w ∷ []) d

module _ {N : Type 0} (config : AnchorConfig) (anchor : AnchorServer N) where
  abbrev pub ask : {A : Type 0} → (N → Reply A × N) → App N A
  ask f = call (λ n. let (reply, n') = f n in (as_result reply, n'))

  abbrev pub assert_enabled : App N (Unit {0})
  assert_enabled = throw_if (not config.anchor_enabled) forbidden

  abbrev pub require_token : Option String → App N String
  require_token none = throw unauthorized
  require_token (some token) = if token == "" then throw unauthorized else pure token

  -- `WalletsService.getAddressForCreator`
  unfoldable pub get_address_for_creator : String → App N String
  get_address_for_creator creator = do
    wallet ← or_throw (← gets (λ d. latest_wallet_of creator d.wallets)) not_found
    pure wallet.wallet_address

  unfoldable pub challenge : String → App N AnchorChallenge
  unfolding get_address_for_creator
  challenge creator = do
    assert_enabled
    address ← get_address_for_creator creator
    ask (anchor.challenge address)

  unfoldable pub post_auth_verify : String → App N String
  post_auth_verify signed_xdr = do assert_enabled; ask (anchor.verify signed_xdr)

  -- `interactive`; the new row gets `id`, `reference` and the time `now`.
  unfoldable pub interactive :
      String → Option String → ℕ → String → String → ℕ → App N AnchorInteractive
  unfolding get_address_for_creator
  interactive creator token amount id reference now = do
    assert_enabled
    anchor_token ← require_token token
    address ← get_address_for_creator creator
    available ← gets (withdrawable_balance address)
    throw_if (ltb_ℤ available (pos amount)) forbidden
    started ← ask (anchor.interactive anchor_token address amount)
    modify (add_withdrawal (anchor_row config id creator started.id reference amount now))
    pure started

  unfoldable pub transaction : String → String → Option String → ℕ → App N AnchorTransaction
  transaction creator id token now = do
    assert_enabled
    anchor_token ← require_token token
    tx ← ask (anchor.transaction anchor_token id)
    modify (update_anchored id creator (mirrored tx now))
    pure tx

  module _ {X : Type 0} (stellar : StellarConfig) (horizon : HorizonServer N) (sdk : Sdk N X) where
    -- The account and the amount of a transaction that the anchor is ready for.
    abbrev pub pay_anchor : String → AnchorTransaction → ℕ → Option String → Option ℕ → App N X
    pay_anchor address tx now (some account) (some amount) =
        build_withdraw_payment stellar horizon sdk address account amount tx.withdraw_memo
          tx.withdraw_memo_type now
    pay_anchor address tx now _ _ = throw forbidden

    unfoldable pub build_payment : String → String → Option String → ℕ → App N X
    unfolding get_address_for_creator
    build_payment creator id token now = do
      assert_enabled
      anchor_token ← require_token token
      address ← get_address_for_creator creator
      tx ← ask (anchor.transaction anchor_token id)
      pay_anchor address tx now tx.withdraw_anchor_account tx.amount_in

    unfoldable pub submit_payment : String → String → X → App N String
    unfolding get_address_for_creator
    submit_payment creator id signed_xdr = do
      assert_enabled
      address ← get_address_for_creator creator
      hash ← submit_withdraw_payment stellar horizon sdk signed_xdr address
      modify (update_anchored id creator (with_hash hash))
      pure hash
