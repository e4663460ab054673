-- ===== src/Stellar/Sponsorship/Laws.antt =====
-- What the two checks let through to the network (`assertIsOurSponsoredTrustline`,
-- `submitWithdrawPayment`, backend/src/stellar/sponsorship.service.ts).
use kreav.Base.{
  String, Bool, true, false, ◌≡◌, ◌⊎◌, refl, ap, ◌∙◌, Option, none, some, List, [], ◌∷◌, ◌++◌, inl,
  inr, arith, Option-cases, Bool-cases, eq_refl, eq_iff, ◌==◌,
}
use kreav.App.{World, Result, ok, err, Exn, bad_request, other}
use kreav.Stellar.Horizon.{StellarConfig, HorizonServer}
use kreav.Stellar.Sponsorship.{
  Asset, Operation, Transaction, TrustLine, Sdk, usdc, is_usdc, is_address, assert_sandwich,
  assert_is_our_sponsored_trustline, find_begin, find_change_trust, has_end, submit_attempts,
  submit_sponsored_trustline,
}

pub find_begin-append :
    (os more : List Operation) {id : String}
    → find_begin os ≡ some id
    → find_begin (os ++ more) ≡ some id
unfolding find_begin
find_begin-append [] more e = cc
find_begin-append (o ∷ os) more {id} e = ground (arith, find_begin-append os more {id = id})

pub find_change_trust-append :
    (os more : List Operation) {t : TrustLine}
    → find_change_trust os ≡ some t
    → find_change_trust (os ++ more) ≡ some t
unfolding find_change_trust
find_change_trust-append [] more e = cc
find_change_trust-append (o ∷ os) more {t} e =
    ground (arith, find_change_trust-append os more {t = t})

pub has_end-append : (os more : List Operation) → has_end os ≡ true → has_end (os ++ more) ≡ true
unfolding has_end
has_end-append [] more e = cc
has_end-append (o ∷ os) more e = ground (arith, has_end-append os more)

module _ {N X : Type 0} (config : StellarConfig) (horizon : HorizonServer N) (sdk : Sdk N X) where
  -- What the check asks of a transaction.
  pub record IsOurs (tx : Transaction) (creator : String) : Type 0 where
    pub secret : String
    pub trust : TrustLine
    pub key : config.platform_key ≡ some secret
    pub from_platform : tx.source ≡ sdk.public_key secret
    pub sponsors : find_begin tx.operations ≡ some creator
    pub trusts : find_change_trust tx.operations ≡ some trust
    pub asset : trust.line ≡ some (usdc config)
    pub owner : trust.owner ≡ some creator
    pub ends : has_end tx.operations ≡ true

  pub is_usdc-eq : (l : Option Asset) → is_usdc config l ≡ true → l ≡ some (usdc config)
  is_usdc-eq none e = cc
  is_usdc-eq (some a) e =
      ground (arith, eq_iff a.code config.usdc_asset_code, eq_iff a.issuer config.usdc_issuer)

  is_address-eq : (a : String) (o : Option String) → is_address a o ≡ true → o ≡ some a
  is_address-eq a none e = cc
  is_address-eq a (some b) e = ground (arith, eq_iff b a)

  assert_sandwich-cases :
      (creator : String) (b : Option String) (t : Option TrustLine) (h : Bool) (w : World N)
      → let x = assert_sandwich config horizon sdk creator b t h w in
        ((x ≡ (ok tt, w))
          × (b ≡ some creator)
          × (trust : TrustLine) × (t ≡ some trust)
          × (trust.line ≡ some (usdc config))
          × (trust.owner ≡ some creator)
          × (h ≡ true))
        ⊎ (x ≡ (err bad_request, w))
  unfolding assert_sandwich
  assert_sandwich-cases creator none t h w = inr refl
  assert_sandwich-cases creator (some b) none h w = inr refl
  assert_sandwich-cases creator (some b) (some t) false w = inr refl
  assert_sandwich-cases creator (some b) (some t) true w = elim (Bool-cases (b == creator)) [
    | inr bad ↦ inr (ground (arith, bad))
    | inl sponsors ↦ elim (Bool-cases (is_usdc config t.line)) [
      | inr bad ↦ inr (ground (arith, sponsors, bad))
      | inl line ↦ elim (Bool-cases (is_address creator t.owner)) [
        | inr bad ↦ inr (ground (arith, sponsors, line, bad))
        | inl owner ↦ inl (
          ground (arith, sponsors, line, owner),
          ap some ((eq_iff b creator).0 sponsors),
          t,
          refl,
          is_usdc-eq t.line line,
          is_address-eq creator t.owner owner,
          refl,
        )
      ]
    ]
  ]

  assert_is_ours-of_source :
      (tx : Transaction) (creator secret : String) (w : World N)
      → config.platform_key ≡ some secret
      → (tx.source == sdk.public_key secret) ≡ true
      → assert_is_our_sponsored_trustline config horizon sdk tx creator w
        ≡ assert_sandwich config horizon sdk creator
            (find_begin tx.operations)
            (find_change_trust tx.operations)
            (has_end tx.operations)
            w
  unfolding assert_is_our_sponsored_trustline
  assert_is_ours-of_source tx creator secret w key ours = ground (arith, key, ours)

  -- The check changes nothing, and lets pass what `IsOurs` describes and nothing else.
  pub assert-cases :
      (tx : Transaction) (creator : String) (w : World N)
      → let x = assert_is_our_sponsored_trustline config horizon sdk tx creator w in
        ((x ≡ (ok tt, w)) × IsOurs tx creator) ⊎ ((e : Exn) × (x ≡ (err e, w)))
  unfolding assert_is_our_sponsored_trustline
  assert-cases tx creator w = elim (Option-cases config.platform_key) [
    | inl missing ↦ inr (other, ground (arith, missing))
    | inr (secret, key) ↦ elim (Bool-cases (tx.source == sdk.public_key secret)) [
      | inr foreign ↦ inr (bad_request, ground (arith, key, foreign))
      | inl ours ↦
          elim (assert_sandwich-cases creator (find_begin tx.operations)
            (find_change_trust tx.operations) (has_end tx.operations) w) [
              | inl (e, sponsors, trust, trusts, asset, owner, ends) ↦ inl (
                assert_is_ours-of_source tx creator secret w key ours ∙ e,
                record {
                  secret = secret;
                  trust = trust;
                  key = key;
                  from_platform = (eq_iff tx.source (sdk.public_key secret)).0 ours;
                  sponsors = sponsors;
                  trusts = trusts;
                  asset = asset;
                  owner = owner;
                  ends = ends;
                },
              )
              | inr e ↦ inr (bad_request, assert_is_ours-of_source tx creator secret w key ours ∙ e)
            ]
    ]
  ]

  -- What `IsOurs` describes is let through.
  pub assert-of_IsOurs :
      (tx : Transaction) (creator : String) (w : World N)
      → IsOurs tx creator
      → assert_is_our_sponsored_trustline config horizon sdk tx creator w ≡ (ok tt, w)
  unfolding assert_is_our_sponsored_trustline assert_sandwich
  assert-of_IsOurs tx creator w h =
      assert_is_ours-of_source tx creator h.secret w h.key
        ((eq_iff tx.source (sdk.public_key h.secret)).1 h.from_platform)
      ∙ rw (h.sponsors, h.trusts, h.ends)
          (ground (
            arith,
            h.asset,
            h.owner,
            eq_refl creator,
            eq_refl config.usdc_asset_code,
            eq_refl config.usdc_issuer,
          ))

  pub relay :
      (xdr : X) (creator : String) (tx : Transaction) (w : World N)
      → sdk.from_xdr xdr ≡ some tx
      → assert_is_our_sponsored_trustline config horizon sdk tx creator w ≡ (ok tt, w)
      → submit_sponsored_trustline config horizon sdk xdr creator w
        ≡ submit_attempts config horizon sdk 3 tx w
  unfolding submit_sponsored_trustline
  relay xdr creator tx w parsed passed = ground (arith, parsed, passed)

  -- A signed trustline is relayed only if it is a transaction of the platform's account that begins a
  -- sponsorship of the creator, adds the configured USDC to the creator's lines and ends a
  -- sponsorship; anything else is refused before the network is called.
  pub submit_sponsored_trustline-cases :
      (xdr : X) (creator : String) (w : World N)
      → let x = submit_sponsored_trustline config horizon sdk xdr creator w in
        ((sdk.from_xdr xdr ≡ none) × (x ≡ (err bad_request, w)))
        ⊎ ((tx : Transaction) × (sdk.from_xdr xdr ≡ some tx)
            × IsOurs tx creator
            × (x ≡ submit_attempts config horizon sdk 3 tx w))
        ⊎ ((tx : Transaction) × (sdk.from_xdr xdr ≡ some tx)
            × (¬ IsOurs tx creator)
            × (e : Exn) × (x ≡ (err e, w)))
  unfolding submit_sponsored_trustline
  submit_sponsored_trustline-cases xdr creator w = elim (Option-cases (sdk.from_xdr xdr)) [
    | inl malformed ↦ inl (malformed, ground (arith, malformed))
    | inr (tx, parsed) ↦ elim (assert-cases tx creator w) [
      | inl (passed, ours) ↦ inr (inl (tx, parsed, ours, relay xdr creator tx w parsed passed))
      | inr (e, refused) ↦ inr (
          inr (
            tx,
            parsed,
            (λ h. clash e refused (assert-of_IsOurs tx creator w h)),
            e,
            ground (arith, parsed, refused),
          ))
    ]
  ]
    where
      clash : {x : Result (Unit {0}) × World N} (e : Exn) → x ≡ (err e, w) → x ≡ (ok tt, w) → ⊥
      clash e p q = cc
