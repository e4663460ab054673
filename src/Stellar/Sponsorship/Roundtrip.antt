-- ===== src/Stellar/Sponsorship/Roundtrip.antt =====
-- Transactions that come back signed (backend/src/stellar/sponsorship.service.ts).
use kreav.Base.{
  ℕ, String, not, ◌≡◌, ◌⊎◌, refl, sym, ap, ◌∙◌, Option, some, List, ◌++◌, inl, inr, arith,
  Bool-cases, eq_refl, eq_iff, ◌==◌, Option-cases, true, false,
}
use mathlib.Core.Path.{subst}
use kreav.App.{World, Result, ok, err, Exn, bad_request}
use kreav.Stellar.Horizon.{StellarConfig, HorizonServer}
use kreav.Stellar.Sponsorship.{
  Asset, Operation, Transaction, Sdk, PreparedSponsoredTx, usdc, is_usdc, sign,
  prepare_sponsored_trustline, assert_is_our_sponsored_trustline, single_payment, withdraw_tx,
  to_memo, submit_attempts, submit_sponsored_trustline, submit_withdraw_payment, submit_once,
  build_withdraw_payment,
}
use kreav.Stellar.Sponsorship.Prepared.{
  Prepared, unread, trusting, keyless, unloaded, prepared, prepare_sponsored_trustline-Prepared,
  sandwich-passes,
}
use kreav.Stellar.Sponsorship.Laws.{
  IsOurs, assert-of_IsOurs, is_usdc-eq, relay, find_begin-append, find_change_trust-append,
  has_end-append,
}

some_inj : {a b : Transaction} → some a ≡ some b → a ≡ b
some_inj e = cc

module _ {N X : Type 0} (config : StellarConfig) (horizon : HorizonServer N) (sdk : Sdk N X) where
  -- Where XDR can be read back, a trustline that was prepared for a creator and then signed by any key
  -- is relayed as it is, in whatever state the service is then.
  pub submit_sponsored_trustline-of_prepared :
      (creator key : String) (now : ℕ) (w v u : World N) (p : PreparedSponsoredTx X)
      (tx : Transaction)
      → ((t : Transaction) → sdk.from_xdr (sdk.to_xdr t) ≡ some t)
      → prepare_sponsored_trustline config horizon sdk creator now w ≡ (ok p, v)
      → sdk.from_xdr p.xdr ≡ some tx
      → submit_sponsored_trustline config horizon sdk (sdk.to_xdr (sign key tx)) creator u
        ≡ submit_attempts config horizon sdk 3 (sign key tx) u
  submit_sponsored_trustline-of_prepared creator key now w v u p tx reads made parsed =
      relay config horizon sdk (sdk.to_xdr (sign key tx)) creator (sign key tx) u
        (reads (sign key tx))
        (passes (prepare_sponsored_trustline-Prepared config horizon sdk creator now w))
    where
      clash :
          {x : Result (PreparedSponsoredTx X) × World N} {e : Exn} {t : World N}
          → x ≡ (ok p, v)
          → x ≡ (err e, t)
          → ⊥
      clash a b = cc

      same_xdr :
          {x : Result (PreparedSponsoredTx X) × World N} {q : PreparedSponsoredTx X} {t : World N}
          → x ≡ (ok p, v)
          → x ≡ (ok q, t)
          → p.xdr ≡ q.xdr
      same_xdr a b = cc

      same_tx : {t : Transaction} → p.xdr ≡ sdk.to_xdr t → tx ≡ t
      same_tx {t} e = some_inj (sym parsed ∙ ap sdk.from_xdr e ∙ reads t)

      passes :
          Prepared config horizon sdk creator now w
            (prepare_sponsored_trustline config horizon sdk creator now w)
          → assert_is_our_sponsored_trustline config horizon sdk (sign key tx) creator u
            ≡ (ok tt, u)
      passes (unread _ _ _ e) = absurd (clash made e)
      passes (trusting _ _ _ _ e) = absurd (clash made e)
      passes (keyless _ _ _ _ e) = absurd (clash made e)
      passes (unloaded _ _ _ _ _ _ _ _ e) = absurd (clash made e)
      passes (prepared state secret sequence _ _ _ _ platform _ e) =
          let same = same_tx (same_xdr made e) in
          sandwich-passes config horizon sdk creator secret (sign key tx) (not state.account_exists)
            u platform (ap (λ t. t.source) same) (ap (λ t. t.operations) same)

  -- The transaction with operations added at its end.
  abbrev pub extended : Transaction → List Operation → Transaction
  extended tx more = record tx { operations = tx.operations ++ more }

  -- A transaction that is relayed is relayed as well with any other operations at its end.
  pub submit_sponsored_trustline-extended :
      (xdr : X) (creator : String) (tx : Transaction) (more : List Operation) (w : World N)
      → sdk.from_xdr xdr ≡ some (extended tx more)
      → IsOurs config horizon sdk tx creator
      → submit_sponsored_trustline config horizon sdk xdr creator w
        ≡ submit_attempts config horizon sdk 3 (extended tx more) w
  submit_sponsored_trustline-extended xdr creator tx more w parsed h =
      relay config horizon sdk xdr creator (extended tx more) w parsed (
        assert-of_IsOurs config horizon sdk (extended tx more) creator w (record {
          secret = h.secret;
          trust = h.trust;
          key = h.key;
          from_platform = h.from_platform;
          sponsors = find_begin-append tx.operations more h.sponsors;
          trusts = find_change_trust-append tx.operations more h.trusts;
          asset = h.asset;
          owner = h.owner;
          ends = has_end-append tx.operations more h.ends;
        }))

  -- The transaction is one payment of the configured USDC from the account.
  pub record IsWithdrawal (tx : Transaction) (from : String) : Type 0 where
    pub sender : tx.source ≡ from
    pub single : single_payment tx.operations ≡ some (usdc config)

  withdraw-relay :
      (xdr : X) (from : String) (tx : Transaction) (w : World N)
      → sdk.from_xdr xdr ≡ some tx
      → IsWithdrawal tx from
      → submit_withdraw_payment config horizon sdk xdr from w ≡ submit_once config horizon sdk tx w
  unfolding submit_withdraw_payment
  withdraw-relay xdr from tx w parsed h = ground (
    arith,
    parsed,
    h.sender,
    h.single,
    eq_refl from,
    eq_refl config.usdc_asset_code,
    eq_refl config.usdc_issuer,
  )

  refused :
      (xdr : X) (from : String) (tx : Transaction)
      → sdk.from_xdr xdr ≡ some tx
      → ¬ IsWithdrawal tx from
      → ¬ ((t : Transaction) × (sdk.from_xdr xdr ≡ some t) × IsWithdrawal t from)
  refused xdr from tx parsed never (t, p, h) =
      let same : t ≡ tx = some_inj (sym p ∙ parsed) in
      never (subst (λ y. IsWithdrawal y from) same h)

  not_usdc : (a : Asset) → a ≡ usdc config → is_usdc config (some a) ≡ false → ⊥
  not_usdc a same other =
      let yes : is_usdc config (some (usdc config)) ≡ true =
        ground (arith, eq_refl config.usdc_asset_code, eq_refl config.usdc_issuer) in
      let no : is_usdc config (some (usdc config)) ≡ false =
        subst (λ b. is_usdc config (some b) ≡ false) same other in
      cc (yes, no)

  -- A signed withdrawal is relayed exactly if it is one payment of the configured USDC from the
  -- account; anything else is refused before the network is called.
  pub submit_withdraw_payment-cases :
      (xdr : X) (from : String) (w : World N)
      → let x = submit_withdraw_payment config horizon sdk xdr from w in
        ((tx : Transaction) × (sdk.from_xdr xdr ≡ some tx)
          × IsWithdrawal tx from
          × (x ≡ submit_once config horizon sdk tx w))
        ⊎ (¬ ((tx : Transaction) × (sdk.from_xdr xdr ≡ some tx) × IsWithdrawal tx from)
            × (x ≡ (err bad_request, w)))
  unfolding submit_withdraw_payment
  submit_withdraw_payment-cases xdr from w = elim (Option-cases (sdk.from_xdr xdr)) [
    | inl malformed ↦ inr (λ (t, p, h). cc (p, malformed), ground (arith, malformed))
    | inr (tx, parsed) ↦ elim (Bool-cases (tx.source == from)) [
      | inr foreign ↦ inr (
        refused xdr from tx parsed (λ h. cc ((eq_iff tx.source from).1 h.sender, foreign)),
        ground (arith, parsed, foreign),
      )
      | inl own ↦ elim (Option-cases (single_payment tx.operations)) [
        | inl several ↦ inr (
          refused xdr from tx parsed (λ h. cc (h.single, several)),
          ground (arith, parsed, own, several),
        )
        | inr (asset, single) ↦ elim (Bool-cases (is_usdc config (some asset))) [
          | inr other ↦ inr (
            refused xdr from tx parsed (λ h.
                let same : asset ≡ usdc config = cc (h.single, single) in
                not_usdc asset same other),
            ground (arith, parsed, own, single, other),
          )
          | inl ours ↦
              let h : IsWithdrawal tx from = record {
                sender = (eq_iff tx.source from).0 own;
                single = single ∙ is_usdc-eq config horizon sdk (some asset) ours;
              } in
              inl (tx, parsed, h, withdraw-relay xdr from tx w parsed h)
        ]
      ]
    ]
  ]

  -- Where XDR can be read back, a payment that was built is relayed, once it is signed, as it is.
  pub submit_withdraw_payment-of_built :
      (from to key : String) (xdr : X) (amount now : ℕ) (memo memo_type : Option String)
      (w v u : World N) (tx : Transaction)
      → ((t : Transaction) → sdk.from_xdr (sdk.to_xdr t) ≡ some t)
      → build_withdraw_payment config horizon sdk from to amount memo memo_type now w ≡ (ok xdr, v)
      → sdk.from_xdr xdr ≡ some tx
      → submit_withdraw_payment config horizon sdk (sdk.to_xdr (sign key tx)) from u
        ≡ submit_once config horizon sdk (sign key tx) u
  unfolding build_withdraw_payment
  submit_withdraw_payment-of_built from to key xdr amount now memo memo_type w v u tx reads made
        parsed =
      loaded (sdk.load_account from w.net) refl
    where
      same_tx :
          (sequence : ℕ)
          → xdr
            ≡ sdk.to_xdr (
                withdraw_tx config horizon sdk from to amount (to_memo memo memo_type) sequence now)
          → tx ≡ withdraw_tx config horizon sdk from to amount (to_memo memo memo_type) sequence now
      same_tx sequence e = some_inj (
          sym parsed
          ∙ ap sdk.from_xdr e
          ∙ reads
              (withdraw_tx config horizon sdk from to amount (to_memo memo memo_type) sequence now))

      loaded :
          (y : Result ℕ × N)
          → sdk.load_account from w.net ≡ y
          → submit_withdraw_payment config horizon sdk (sdk.to_xdr (sign key tx)) from u
            ≡ submit_once config horizon sdk (sign key tx) u
      loaded (err e, n) l = absurd (ground (arith, made, l))
      loaded (ok sequence, n) l =
          let same = same_tx sequence (ground (arith, made, l)) in
          withdraw-relay (sdk.to_xdr (sign key tx)) from (sign key tx) u (reads (sign key tx))
            (record {
              sender = ap (λ t. t.source) same;
              single = ap (λ t. single_payment t.operations) same;
            })
