-- ===== src/Stellar/Sponsorship/Prepared.antt =====
-- What `prepareSponsoredTrustline` hands out (backend/src/stellar/sponsorship.service.ts).
use kreav.Base.{
  ℕ, String, Bool, true, false, not, ◌≡◌, refl, none, some, inl, inr, arith, Option-cases,
  Bool-cases, eq_refl,
}
use kreav.App.{World, Result, ok, err, Exn, conflict, other}
use kreav.Stellar.Horizon.{StellarConfig, HorizonServer, WalletBalanceResult, get_usdc_balance}
use kreav.Stellar.Sponsorship.{
  Transaction, Sdk, PreparedSponsoredTx, sponsored_tx, sandwich, prepare_sponsored_trustline,
  assert_sandwich, assert_is_our_sponsored_trustline, find_begin, find_change_trust, has_end,
}

module _ {N X : Type 0} (config : StellarConfig) (horizon : HorizonServer N) (sdk : Sdk N X) where
  -- How the preparation of a trustline ends.
  pub data Prepared (creator : String) (now : ℕ) (w : World N)
      (x : Result (PreparedSponsoredTx X) × World N) : Type 0 where
    unread :
        (e : Exn) (v : World N)
        → get_usdc_balance config horizon creator w ≡ (err e, v)
        → x ≡ (err e, v)
        → Prepared creator now w x
    trusting :
        (state : WalletBalanceResult) (v : World N)
        → get_usdc_balance config horizon creator w ≡ (ok state, v)
        → state.has_usdc_trustline ≡ true
        → x ≡ (err conflict, v)
        → Prepared creator now w x
    keyless :
        (state : WalletBalanceResult) (v : World N)
        → get_usdc_balance config horizon creator w ≡ (ok state, v)
        → config.platform_key ≡ none
        → x ≡ (err other, v)
        → Prepared creator now w x
    unloaded :
        (state : WalletBalanceResult) (secret : String) (v : World N) (e : Exn) (n : N)
        → get_usdc_balance config horizon creator w ≡ (ok state, v)
        → config.platform_key ≡ some secret
        → sdk.load_account (sdk.public_key secret) v.net ≡ (err e, n)
        → x ≡ (err e, record v { net = n })
        → Prepared creator now w x
    prepared :
        (state : WalletBalanceResult) (secret : String) (sequence : ℕ) (v : World N) (n : N)
        → get_usdc_balance config horizon creator w ≡ (ok state, v)
        → state.has_usdc_trustline ≡ false
        → config.platform_key ≡ some secret
        → sdk.load_account (sdk.public_key secret) v.net ≡ (ok sequence, n)
        → x ≡ (
          ok (record {
            xdr = sdk.to_xdr (
                sponsored_tx config horizon sdk creator secret
                  (not state.account_exists)
                  sequence
                  now);
            creates_account = not state.account_exists;
          }),
          record v { net = n },
        )
        → Prepared creator now w x

  pub prepare_sponsored_trustline-Prepared :
      (creator : String) (now : ℕ) (w : World N)
      → Prepared creator now w (prepare_sponsored_trustline config horizon sdk creator now w)
  unfolding prepare_sponsored_trustline
  prepare_sponsored_trustline-Prepared creator now w =
      read (get_usdc_balance config horizon creator w) refl
    where
      loaded :
          (state : WalletBalanceResult) (v : World N) (secret : String) (y : Result ℕ × N)
          → get_usdc_balance config horizon creator w ≡ (ok state, v)
          → state.has_usdc_trustline ≡ false
          → config.platform_key ≡ some secret
          → sdk.load_account (sdk.public_key secret) v.net ≡ y
          → Prepared creator now w (prepare_sponsored_trustline config horizon sdk creator now w)
      loaded state v secret (ok sequence, n) e fresh key l =
          prepared state secret sequence v n e fresh key l (ground (arith, e, fresh, key, l))
      loaded state v secret (err f, n) e fresh key l =
          unloaded state secret v f n e key l (ground (arith, e, fresh, key, l))

      read :
          (y : Result WalletBalanceResult × World N)
          → get_usdc_balance config horizon creator w ≡ y
          → Prepared creator now w (prepare_sponsored_trustline config horizon sdk creator now w)
      read (err f, v) e = unread f v e (ground (arith, e))
      read (ok state, v) e = elim (Bool-cases state.has_usdc_trustline) [
        | inl has ↦ trusting state v e has (ground (arith, e, has))
        | inr fresh ↦ elim (Option-cases config.platform_key) [
          | inl missing ↦ keyless state v e missing (ground (arith, e, fresh, missing))
          | inr (secret, key) ↦
              loaded state v secret (sdk.load_account (sdk.public_key secret) v.net) e fresh key
                refl
        ]
      ]

  -- What is handed out passes the check when it comes back.
  pub sandwich-passes :
      (creator secret : String) (tx : Transaction) (creates : Bool) (w : World N)
      → config.platform_key ≡ some secret
      → tx.source ≡ sdk.public_key secret
      → tx.operations ≡ sandwich config creator creates
      → assert_is_our_sponsored_trustline config horizon sdk tx creator w ≡ (ok tt, w)
  unfolding assert_is_our_sponsored_trustline assert_sandwich find_begin find_change_trust has_end
  sandwich-passes creator secret tx true w key source ops = ground (
    arith,
    key,
    source,
    ops,
    eq_refl (sdk.public_key secret),
    eq_refl creator,
    eq_refl config.usdc_asset_code,
    eq_refl config.usdc_issuer,
  )
  sandwich-passes creator secret tx false w key source ops = ground (
    arith,
    key,
    source,
    ops,
    eq_refl (sdk.public_key secret),
    eq_refl creator,
    eq_refl config.usdc_asset_code,
    eq_refl config.usdc_issuer,
  )
