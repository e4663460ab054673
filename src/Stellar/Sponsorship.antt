-- ===== src/Stellar/Sponsorship.antt =====
-- Transactions that a creator's wallet signs (backend/src/stellar/sponsorship.service.ts): the
-- sponsored trustline and the payment of a withdrawal. The SDK's XDR and keys and Horizon's two calls
-- are parameters. Amounts are in base units.
pub mod Prepared
pub mod Laws
pub mod Roundtrip
use kreav.Base.{
  ℕ, zero, suc, ◌+◌, ◌*◌, String, Bool, true, false, not, ◌&&◌, ◌||◌, Option, none, some, List, [],
  ◌∷◌, ◌++◌, ◌==◌, if◌then◌else◌, is_some, length, nat_eq,
}
use kreav.App.{
  App, Result, ok, err, World, Exn, other, bad_request, conflict, call, pure, throw, throw_if,
  or_throw, ◌>>=◌, ◌>>◌,
}
use kreav.Stellar.Horizon.{StellarConfig, HorizonServer, WalletBalanceResult, get_usdc_balance}

pub record Asset : Type 0 where
  pub code : String
  pub issuer : String

-- The operations that the service builds or looks for; a line that is no asset is a pool's share.
pub data Body : Type 0 where
  begin_sponsoring_future_reserves : String → Body
  create_account : String → ℕ → Body
  change_trust : Option Asset → Body
  end_sponsoring_future_reserves : Body
  payment : String → Asset → ℕ → Body
  another : String → Body

pub record Operation : Type 0 where
  pub body : Body
  pub source : Option String

pub data Memo : Type 0 where
  memo_none : Memo
  memo_text memo_id memo_hash : String → Memo

pub record Transaction : Type 0 where
  pub source : String
  pub sequence : ℕ
  pub fee : ℕ
  pub max_time : ℕ
  pub memo : Memo
  pub operations : List Operation
  pub signers : List String

-- What a submission comes to; `bad_seq` is an error that `isBadSeqError` recognises.
pub data Submission : Type 0 where
  submitted : String → Submission
  bad_seq refused : Submission

-- `X` is the type of XDR in base64.
pub record Sdk (N X : Type 0) : Type 0 where
  pub public_key : String → String
  pub base_fee : ℕ
  pub to_xdr : Transaction → X
  pub from_xdr : X → Option Transaction
  pub load_account : String → N → Result ℕ × N
  pub submit_transaction : Transaction → N → Submission × N

pub record PreparedSponsoredTx (X : Type 0) : Type 0 where
  pub xdr : X
  pub creates_account : Bool

abbrev pub usdc : StellarConfig → Asset
usdc config = record { code = config.usdc_asset_code; issuer = config.usdc_issuer }

abbrev pub by_source : Body → Operation
by_source b = record { body = b; source = none }

abbrev pub by : String → Body → Operation
by address b = record { body = b; source = some address }

-- The operations, in order; the account is created only if it is not there.
abbrev pub sandwich : StellarConfig → String → Bool → List Operation
sandwich config creator creates =
    by_source (begin_sponsoring_future_reserves creator)
    ∷ ((if creates then by_source (create_account creator 0) ∷ [] else [])
        ++ by creator (change_trust (some (usdc config)))
          ∷ by creator end_sponsoring_future_reserves
          ∷ [])

-- `tx.sign`
abbrev pub sign : String → Transaction → Transaction
sign key tx = record tx { signers = key ∷ tx.signers }

-- The first operation of a type, as `find` gives it.
unfoldable pub find_begin : List Operation → Option String
find_begin [] = none
find_begin (o ∷ os) = elim o.body [
  | begin_sponsoring_future_reserves id ↦ some id
  | _ ↦ find_begin os
]

pub record TrustLine : Type 0 where
  pub line : Option Asset
  pub owner : Option String

unfoldable pub find_change_trust : List Operation → Option TrustLine
find_change_trust [] = none
find_change_trust (o ∷ os) = elim o.body [
  | change_trust l ↦ some (record { line = l; owner = o.source })
  | _ ↦ find_change_trust os
]

unfoldable pub has_end : List Operation → Bool
has_end [] = false
has_end (o ∷ os) = elim o.body [ end_sponsoring_future_reserves ↦ true | _ ↦ has_end os ]

abbrev pub is_usdc : StellarConfig → Option Asset → Bool
is_usdc config none = false
is_usdc config (some a) = a.code == config.usdc_asset_code && a.issuer == config.usdc_issuer

abbrev pub is_address : String → Option String → Bool
is_address address none = false
is_address address (some a) = a == address

-- `toMemo`; a memo that is missing or empty is not added.
abbrev pub to_memo : Option String → Option String → Memo
to_memo none kind = memo_none
to_memo (some memo) kind =
    if memo == ""
    then memo_none
    else if is_address "hash" kind
    then memo_hash memo
    else if is_address "id" kind
    then memo_id memo
    else memo_text memo

-- The transaction's only operation, if it is a payment.
abbrev pub single_payment : List Operation → Option Asset
single_payment (o ∷ []) = elim o.body [ payment to asset amount ↦ some asset | _ ↦ none ]
single_payment _ = none

module _ {N X : Type 0} (config : StellarConfig) (horizon : HorizonServer N) (sdk : Sdk N X) where
  -- `prepareSponsoredTrustline` at the time `now`
  abbrev pub sponsored_tx : String → String → Bool → ℕ → ℕ → Transaction
  sponsored_tx creator secret creates sequence now = sign (sdk.public_key secret) (record {
    source = sdk.public_key secret;
    sequence = suc sequence;
    fee = sdk.base_fee * (if creates then 4 else 3);
    max_time = now + 300;
    memo = memo_none;
    operations = sandwich config creator creates;
    signers = [];
  })

  unfoldable pub prepare_sponsored_trustline : String → ℕ → App N (PreparedSponsoredTx X)
  prepare_sponsored_trustline creator now = do
    state ← get_usdc_balance config horizon creator
    throw_if state.has_usdc_trustline conflict
    secret ← or_throw config.platform_key other
    sequence ← call (sdk.load_account (sdk.public_key secret))
    pure (record {
      xdr = sdk.to_xdr (sponsored_tx creator secret (not state.account_exists) sequence now);
      creates_account = not state.account_exists;
    })

  -- `assertIsOurSponsoredTrustline`
  pub assert_sandwich : String → Option String → Option TrustLine → Bool → App N (Unit {0})
  assert_sandwich creator (some sponsored) (some trust) true = do
    throw_if (not (sponsored == creator)) bad_request
    throw_if (not (is_usdc config trust.line)) bad_request
    throw_if (not (is_address creator trust.owner)) bad_request
  assert_sandwich creator _ _ _ = throw bad_request

  pub assert_is_our_sponsored_trustline : Transaction → String → App N (Unit {0})
  unfolding assert_sandwich find_begin find_change_trust has_end
  assert_is_our_sponsored_trustline tx creator = do
    secret ← or_throw config.platform_key other
    throw_if (not (tx.source == sdk.public_key secret)) bad_request
    assert_sandwich creator (find_begin tx.operations) (find_change_trust tx.operations)
        (has_end tx.operations)

  abbrev pub submit : Transaction → App N Submission
  submit tx = call (λ n. let (s, n') = sdk.submit_transaction tx n in (ok s, n'))

  -- The loop over the attempts; another one follows only after `tx_bad_seq`.
  pub submit_attempts : ℕ → Transaction → App N String
  submit_attempts zero tx = throw bad_request
  submit_attempts (suc more) tx = submit tx >>= λ s. elim s [
    | submitted hash ↦ pure hash
    | bad_seq ↦ submit_attempts more tx
    | refused ↦ throw bad_request
  ]

  pub submit_once : Transaction → App N String
  submit_once tx = submit tx >>= λ s. elim s [ submitted hash ↦ pure hash | _ ↦ throw bad_request ]

  pub submit_sponsored_trustline : X → String → App N String
  unfolding assert_is_our_sponsored_trustline submit_attempts
  submit_sponsored_trustline signed_xdr creator = do
    tx ← or_throw (sdk.from_xdr signed_xdr) bad_request
    assert_is_our_sponsored_trustline tx creator
    submit_attempts 3 tx

  -- `buildWithdrawPayment`
  abbrev pub withdraw_tx : String → String → ℕ → Memo → ℕ → ℕ → Transaction
  withdraw_tx from to amount memo sequence now = record {
    source = from;
    sequence = suc sequence;
    fee = sdk.base_fee;
    max_time = now + 300;
    memo = memo;
    operations = by_source (payment to (usdc config) amount) ∷ [];
    signers = [];
  }

  unfoldable pub build_withdraw_payment :
      String → String → ℕ → Option String → Option String → ℕ → App N X
  build_withdraw_payment from to amount memo memo_type now = do
    sequence ← call (sdk.load_account from)
    pure (sdk.to_xdr (withdraw_tx from to amount (to_memo memo memo_type) sequence now))

  unfoldable pub submit_withdraw_payment : X → String → App N String
  unfolding submit_once
  submit_withdraw_payment signed_xdr from = do
    tx ← or_throw (sdk.from_xdr signed_xdr) bad_request
    throw_if (not (tx.source == from)) bad_request
    asset ← or_throw (single_payment tx.operations) bad_request
    throw_if (not (is_usdc config (some asset))) bad_request
    submit_once tx
