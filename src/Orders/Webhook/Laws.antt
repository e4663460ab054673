-- ===== src/Orders/Webhook/Laws.antt =====
-- Who can confirm a payment.
use kreav.Base.{
  ℕ, String, ◌≡◌, ◌≢◌, ◌↔◌, ◌⊎◌, inl, inr, refl, true, false, Option, none, some, List, arith,
  eq_iff, eq_refl, ap, Bool-cases,
}
use kreav.App.{ok, World, err, forbidden, unauthorized}
use kreav.Orders.{handle_gcash_payment}
use Prim.Native.String
use kreav.Orders.Payment.Laws.{handle_gcash_payment-once}
use kreav.Orders.Webhook.{
  simulate_payment, Config, is_falsy, is_production, verify, handle_gcash_webhook,
}

module _ (hmac : String → List ℕ → String) where
  -- The header is the HMAC of the raw body under a configured secret.
  pub record IsSigned (config : Config) (raw_body : List ℕ) (signature : Option String)
      : Type 0 where
    pub secret : String
    pub configured : config.gcash_webhook_secret ≡ some secret
    pub secret_nonempty : secret ≢ ""
    pub matches : signature ≡ some (hmac secret raw_body)
    pub digest_nonempty : hmac secret raw_body ≢ ""

  verify-IsSigned :
      (config : Config) (raw_body : List ℕ) (signature : Option String)
      → verify hmac raw_body signature config.gcash_webhook_secret ≡ true
      → IsSigned config raw_body signature
  unfolding verify
  verify-IsSigned config raw_body signature h =
      by_parts config.gcash_webhook_secret refl signature h
    where
      by_parts :
          (s : Option String)
          → config.gcash_webhook_secret ≡ s
          → (header : Option String) → verify hmac raw_body header s ≡ true
          → IsSigned config raw_body header
      by_parts (some secret) c (some header) v =
          let same : header ≡ hmac secret raw_body =
            ground (arith, eq_iff header (hmac secret raw_body)) in
          record {
            secret = secret;
            configured = c;
            secret_nonempty = ground (arith, eq_iff secret "");
            matches = ap some same;
            digest_nonempty = ground (arith, eq_iff header "", same);
          }
      by_parts none c header v = cc
      by_parts (some secret) c none v = ground arith

  IsSigned-verify :
      (config : Config) (raw_body : List ℕ) (signature : Option String)
      → IsSigned config raw_body signature
      → verify hmac raw_body signature config.gcash_webhook_secret ≡ true
  unfolding verify
  IsSigned-verify config raw_body signature s = ground (
    arith,
    eq_iff s.secret "",
    eq_iff (hmac s.secret raw_body) "",
    eq_refl (hmac s.secret raw_body),
    s.configured,
    s.matches,
  )

  -- `verify` accepts exactly the bodies whose header is their HMAC under the configured secret.
  pub verify_iff :
      (config : Config) (raw_body : List ℕ) (signature : Option String)
      → (verify hmac raw_body signature config.gcash_webhook_secret ≡ true)
        ↔ IsSigned config raw_body signature
  verify_iff config raw_body signature =
      (verify-IsSigned config raw_body signature, IsSigned-verify config raw_body signature)

  -- The development escape: no secret, outside production.
  abbrev pub IsUnguarded : Config → Type 0
  IsUnguarded config =
      (is_falsy config.gcash_webhook_secret ≡ true) × (is_production config.node_env ≡ false)

  -- A webhook confirms the payment that it names if it is signed, or if no secret is configured
  -- outside production; in every other case it is refused and changes nothing.
  pub handle_gcash_webhook-guarded :
      {N : Type 0} (config : Config) (raw_body : List ℕ) (signature : Option String)
      (id ref : String) (w : World N)
      → let answer = handle_gcash_webhook hmac config raw_body signature id ref w in
        ((IsSigned config raw_body signature ⊎ IsUnguarded config)
          × (answer ≡ handle_gcash_payment id ref w))
        ⊎ ((¬ IsSigned config raw_body signature)
            × ((answer ≡ (err forbidden, w)) ⊎ (answer ≡ (err unauthorized, w))))
  unfolding handle_gcash_webhook
  handle_gcash_webhook-guarded config raw_body signature id ref w =
      elim (Bool-cases (is_falsy config.gcash_webhook_secret)) [
        | inl falsy ↦ elim (Bool-cases (is_production config.node_env)) [
          | inl production ↦ inr (unsigned falsy, inl (rw (falsy, production)))
          | inr development ↦ inl (inr (falsy, development), rw (falsy, development))
        ]
        | inr secret ↦
            elim (Bool-cases (verify hmac raw_body signature config.gcash_webhook_secret)) [
              | inl v ↦ inl (inl (verify-IsSigned config raw_body signature v), rw (secret, v))
              | inr v ↦
                  inr (λ s. cc (IsSigned-verify config raw_body signature s), inr (rw (secret, v)))
            ]
      ]
    where
      unsigned : is_falsy config.gcash_webhook_secret ≡ true → ¬ IsSigned config raw_body signature
      unsigned falsy s = ground (arith, s.configured, s.secret_nonempty, eq_iff s.secret "")

-- A demo payment that was accepted can be repeated, and changes nothing more.
pub simulate_payment-once :
    {N : Type 0} (config : Config) (id : String) (w : World N)
    → (simulate_payment config id w).0 ≡ ok id
    → let v = (simulate_payment config id w).1 in simulate_payment config id v ≡ (ok id, v)
unfolding simulate_payment
simulate_payment-once config id w h = elim (Bool-cases config.demo_mode) [
  | inl on ↦
      let again = handle_gcash_payment-once id id (String.◌++◌ "demo-" id) w (rw on at h) in
      rw on again
  | inr off ↦ absurd (ground (arith, off))
]
