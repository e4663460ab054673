-- ===== src/Tests/Orders.antt =====
-- Runs of the checkout, of the payment webhook and of its signature check.
use kreav.Base.{none, ℕ, String, ◌≡◌, ◌⊎◌, ◌<◌, refl, some, List, [], ◌∷◌, true, false, arith}
use kreav.App.{World, ok, err, forbidden, unauthorized}
use kreav.Orders.Machine.{OrderStatus, can_transition}
use kreav.Orders.Machine.Laws.{Reach, Reach-one, can_transition-progress}
use kreav.Orders.{
  Plan, confirm, plan_payment, commit_payment, handle_gcash_payment, claim_order, read_order,
  announcement,
}
use kreav.Orders.Payment.Refs.{HasUniqueRefs}
use kreav.Orders.Payment.Laws.{Ends, handle_gcash_payment-Ends, handle_gcash_payment-once}
use kreav.Orders.Payment.Concurrent.{commit_payment-twice}
use kreav.Orders.Webhook.{simulate_payment, Config, handle_gcash_webhook}
use kreav.Orders.Webhook.Laws.{IsSigned, IsUnguarded, handle_gcash_webhook-guarded}
use kreav.Store.{Wallet}
use kreav.Store.Table.{find_by, update_by}
use kreav.Store.Query.{find_ref}
use kreav.Tests.Data.{order_in, world_in}
use Prim.Native.String

abbrev awaiting : World ℕ
awaiting = world_in OrderStatus.payment_pending

abbrev wallet : Wallet
wallet = record { creator_id = "c1"; wallet_address = "GA"; connected_at = 1 }

paid_now : (handle_gcash_payment "o1" "r1" awaiting).0 ≡ ok "o1"
unfolding handle_gcash_payment plan_payment read_order commit_payment claim_order find_by find_ref
    can_transition update_by
paid_now = refl

handle_gcash_payment-Ends_example :
    Ends "o1" "r1" awaiting (handle_gcash_payment "o1" "r1" awaiting)
handle_gcash_payment-Ends_example = handle_gcash_payment-Ends "o1" "r1" awaiting

handle_gcash_payment-once_example :
    handle_gcash_payment "o2" "r1" (handle_gcash_payment "o1" "r1" awaiting).1
    ≡ (ok "o2", (handle_gcash_payment "o1" "r1" awaiting).1)
handle_gcash_payment-once_example = handle_gcash_payment-once "o1" "o2" "r1" awaiting paid_now

planned :
    (plan_payment "o1" "r1" awaiting).0
    ≡ ok (confirm (order_in OrderStatus.payment_pending) "c1" (some wallet))
unfolding plan_payment read_order find_by find_ref can_transition
planned = refl

abbrev plan : Plan
plan = confirm (order_in OrderStatus.payment_pending) "c1" (some wallet)

commit_payment-twice_example :
    let once = commit_payment "r1" plan awaiting in
    let twice = commit_payment "r1" plan once.1 in
    (twice.0 ≡ ok tt)
    × (twice.1.events
        ≡ announcement "r1" (order_in OrderStatus.payment_pending) "c1" (some wallet)
          ∷ announcement "r1" (order_in OrderStatus.payment_pending) "c1" (some wallet)
          ∷ [])
commit_payment-twice_example =
    commit_payment-twice "o1" "r1" awaiting (order_in OrderStatus.payment_pending) "c1"
      (some wallet) planned

one_order : HasUniqueRefs awaiting.db.orders
unfolding find_by
one_order = record { unique = λ j k ref o p ej ek ro rp. ground arith }

permitted : can_transition OrderStatus.payment_pending OrderStatus.waiting_wallet ≡ true
unfolding can_transition
permitted = refl

can_transition-progress_example :
    (2 < 4)
    ⊎ ((OrderStatus.payment_pending ≡ OrderStatus.settlement_pending)
        × (OrderStatus.waiting_wallet ≡ OrderStatus.payment_received))
can_transition-progress_example =
    can_transition-progress OrderStatus.payment_pending OrderStatus.waiting_wallet permitted

withdrawing : Reach OrderStatus.settled OrderStatus.withdraw_pending
unfolding can_transition
withdrawing = Reach-one refl

-- A keyed digest stands for HMAC: its text tells the secret and the body's first byte apart.
abbrev digest : String → List ℕ → String
digest secret [] = secret
digest secret (b ∷ bytes) = String.◌++◌ "x" secret

abbrev production : Config
production = record {
  gcash_webhook_secret = some "k";
  node_env = some "production";
  demo_mode = false;
}

handle_gcash_webhook-guarded_example :
    let answer = handle_gcash_webhook digest production (7 ∷ []) (some "xk") "o1" "r1" awaiting in
    ((IsSigned digest production (7 ∷ []) (some "xk") ⊎ IsUnguarded digest production)
      × (answer ≡ handle_gcash_payment "o1" "r1" awaiting))
    ⊎ ((¬ IsSigned digest production (7 ∷ []) (some "xk"))
        × ((answer ≡ (err forbidden, awaiting)) ⊎ (answer ≡ (err unauthorized, awaiting))))
handle_gcash_webhook-guarded_example =
    handle_gcash_webhook-guarded digest production (7 ∷ []) (some "xk") "o1" "r1" awaiting

abbrev demo : Config
demo = record { gcash_webhook_secret = none; node_env = none; demo_mode = true }

simulated : (simulate_payment demo "o1" awaiting).0 ≡ ok "o1"
unfolding simulate_payment handle_gcash_payment plan_payment read_order commit_payment claim_order
    find_by find_ref can_transition update_by
simulated = refl
