-- ===== src/Orders/Webhook.antt =====
-- How a payment confirmation comes in: the signature check (webhook-signature.ts) and the two
-- endpoints of orders.controller.ts that confirm payments. A body is its bytes; `hmac` stands for
-- node:crypto's HMAC-SHA256 in hex, keyed by the secret.
pub mod Laws
use kreav.Base.{ℕ, String, Bool, true, false, Option, none, some, List, ◌==◌, if◌then◌else◌}
use kreav.App.{App, forbidden, unauthorized, throw, throw_if, ◌>>=◌, ◌>>◌}
use kreav.Orders.{handle_gcash_payment}
use Prim.Native.String

-- `!s`: undefined, or the empty text.
abbrev pub is_falsy : Option String → Bool
is_falsy none = true
is_falsy (some s) = s == ""

pub record Config : Type 0 where
  pub gcash_webhook_secret : Option String
  pub node_env : Option String
  pub demo_mode : Bool

abbrev pub is_production : Option String → Bool
is_production none = false
is_production (some env) = env == "production"

module _ (hmac : String → List ℕ → String) where
  -- `timingSafeEqual` on buffers of equal length: equal bytes are equal texts.
  abbrev signature_matches : List ℕ → Option String → Option String → Bool
  signature_matches raw_body (some header) (some secret) = header == hmac secret raw_body
  signature_matches raw_body _ _ = false

  -- `WebhookSignature.verify`
  pub verify : List ℕ → Option String → Option String → Bool
  verify raw_body header secret =
      if is_falsy secret
      then false
      else if is_falsy header
      then false
      else signature_matches raw_body header secret

  -- `OrdersController.handleGcashWebhook`
  pub handle_gcash_webhook :
      {N : Type 0} → Config → List ℕ → Option String → String → String → App N String
  handle_gcash_webhook config raw_body signature id ref =
      if is_falsy config.gcash_webhook_secret
      then if is_production config.node_env then throw forbidden else handle_gcash_payment id ref
      else if verify raw_body signature config.gcash_webhook_secret
      then handle_gcash_payment id ref
      else throw unauthorized

-- `OrdersController.simulatePayment`
unfoldable pub simulate_payment : {N : Type 0} → Config → String → App N String
simulate_payment config id =
    if config.demo_mode then handle_gcash_payment id (String.◌++◌ "demo-" id) else throw forbidden
