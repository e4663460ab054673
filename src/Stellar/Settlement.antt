-- ===== src/Stellar/Settlement.antt =====
-- The settlement of a paid order (`SettlementService.handlePaymentReceived`,
-- backend/src/stellar/settlement.service.ts), step by step.
pub mod Reading
pub mod Trust
pub mod Verdict
pub mod Steps
pub mod Attempts
pub mod Laws
pub mod Outcome
pub mod Paid
pub mod Evolves
pub mod Reinvoked
use kreav.Base.{
  ℕ, zero, suc, String, Bool, true, false, not, ◌&&◌, Option, none, some, List, [], ◌∷◌, map,
  if◌then◌else◌, length, sum_by, ltb, leb, nat_eq,
}
use kreav.App.{
  App, Exn, PaymentReceivedPayload, invalid_transition, simulation_error, submission_error,
  network_error, timeout_error, pure, throw, gets, throw_if, try_catch, ◌>>=◌, ◌>>◌,
}
use kreav.Orders.Machine.{OrderStatus, can_transition}
use kreav.Store.{Collaborator, Order}
use kreav.Store.Query.{find_order, active_collaborators, update_order, with_status}
use kreav.Stellar.Split.{RecipientInput, to_base_units}
use kreav.Stellar.Horizon.{WalletBalanceResult, StellarConfig, HorizonServer, get_usdc_balance}
use kreav.Stellar.Rpc.{RpcServer, InvokeResult, invoke_settle, is_settled}
use kreav.Stellar.Recording.{to_recipient, record_settlement_success, recover_already_settled}

abbrev pub max_recipients : ℕ
max_recipients = 10

abbrev pub max_retries : ℕ
max_retries = 3

-- The three guards on the collaborators: there are some, their percentages add up to 100.00, and
-- the contract takes that many.
abbrev pub are_payable : List Collaborator → Bool
are_payable cs =
    not (nat_eq (length cs) 0)
    && (nat_eq (sum_by (λ c. c.revenue_percentage) cs) 10000 && leb (length cs) max_recipients)

abbrev pub reverted : String → Order → Order
reverted tx_hash o = record o { status = OrderStatus.settlement_failed; tx_hash = some tx_hash }

module _ {N : Type 0} where
  unfoldable pub fail_order : String → App N (Unit {0})
  fail_order id = update_order id (with_status OrderStatus.settlement_failed)

  -- `handleSettlementError`
  unfoldable pub handle_settlement_error : String → Exn → App N (Unit {0})
  unfolding fail_order
  handle_settlement_error id (invalid_transition from to) = pure tt
  handle_settlement_error id simulation_error = fail_order id
  handle_settlement_error id submission_error = fail_order id
  handle_settlement_error id (timeout_error tx_hash) = pure tt
  handle_settlement_error id network_error = pure tt
  handle_settlement_error id _ = fail_order id

-- The loop's `catch`: a network error leads on to `next`, any other is thrown on.
abbrev pub on_network_error : {N : Type 0} → App N (Unit {0}) → Exn → App N (Unit {0})
on_network_error next network_error = next
on_network_error next e = throw e

module _ {N : Type 0} (config : StellarConfig) (horizon : HorizonServer N) (rpc : RpcServer N) where
  -- The body of `findRecipientsMissingTrustline` for one recipient: a failed read counts as fine.
  unfoldable pub lacks_trustline : RecipientInput → App N Bool
  lacks_trustline r =
      try_catch
        (do state ← get_usdc_balance config horizon r.address; pure (not state.has_usdc_trustline))
        (λ e. pure false)

  -- `findRecipientsMissingTrustline`, one read after another.
  unfoldable pub find_recipients_missing_trustline : List RecipientInput → App N (List String)
  unfolding lacks_trustline
  find_recipients_missing_trustline [] = pure []
  find_recipients_missing_trustline (r ∷ rs) = do
    lacks ← lacks_trustline r
    rest ← find_recipients_missing_trustline rs
    pure (if lacks then r.address ∷ rest else rest)

  module _ (id : String) (amount_usd : ℕ) (collaborators : List Collaborator) where
    -- What follows a result of `invokeSettle` (steps 6a and 6b).
    unfoldable pub record_result : InvokeResult → App N (Unit {0})
    record_result result =
        if result.succeeded
        then record_settlement_success id amount_usd result.tx_hash collaborators
        else update_order id (reverted result.tx_hash)

    -- One round of the loop of step 5.
    unfoldable pub attempt : App N (Unit {0})
    attempt = do
      result ←
          invoke_settle config rpc id (to_base_units amount_usd) (map to_recipient collaborators)
      record_result result

    -- The loop of step 5, with the attempts that are left.
    unfoldable pub settle_attempts : ℕ → App N (Unit {0})
    unfolding fail_order
    settle_attempts zero = pure tt
    settle_attempts (suc zero) = try_catch attempt (on_network_error (fail_order id))
    settle_attempts (suc (suc left)) =
        try_catch attempt (on_network_error (settle_attempts (suc left)))

    -- Step 4c, on the float that Horizon reports.
    unfoldable pub check_float : WalletBalanceResult → App N Bool
    unfolding fail_order
    check_float float =
        if ltb float.balance_usd (to_base_units amount_usd)
        then (do fail_order id; pure false)
        else pure true

    -- Step 4c: a float that is known to be too low ends the settlement; a failed check does not.
    unfoldable pub has_float : App N Bool
    unfolding check_float
    has_float =
        try_catch
          (do
            float ← get_usdc_balance config horizon config.platform_wallet_address
            check_float float)
          (λ e. pure true)

    -- Step 4b: `is_settled`, a failed read counting as no.
    unfoldable pub already_settled : App N Bool
    already_settled = try_catch (is_settled config rpc id) (λ e. pure false)

    -- Steps 4c to 6.
    unfoldable pub settle_anew : App N (Unit {0})
    unfolding settle_attempts has_float
    settle_anew = do enough ← has_float; if enough then settle_attempts max_retries else pure tt

    -- Steps 4b to 6.
    unfoldable pub settle_on_chain : Option String → App N (Unit {0})
    unfolding settle_anew already_settled
    settle_on_chain known_tx_hash = do
      already ← already_settled
      if already
          then recover_already_settled id amount_usd known_tx_hash collaborators
          else settle_anew

  -- Step 3b: a recipient who is known to lack a trustline ends the settlement.
  unfoldable pub settle_trusted :
      String → ℕ → List Collaborator → Option String → List String → App N (Unit {0})
  unfolding fail_order
  settle_trusted id amount_usd collaborators known_tx_hash [] =
      settle_on_chain id amount_usd collaborators known_tx_hash
  settle_trusted id amount_usd collaborators known_tx_hash (a ∷ more) = fail_order id

  -- Steps 3 to 6.
  unfoldable pub settle_payable : String → ℕ → List Collaborator → Option String → App N (Unit {0})
  unfolding find_recipients_missing_trustline settle_trusted
  settle_payable id amount_usd collaborators known_tx_hash = do
    missing ← find_recipients_missing_trustline (map to_recipient collaborators)
    settle_trusted id amount_usd collaborators known_tx_hash missing

  -- Steps 2 to 6, on an order that is SETTLEMENT_PENDING.
  unfoldable pub settle_pending : String → ℕ → Order → App N (Unit {0})
  unfolding settle_payable fail_order
  settle_pending id amount_usd o = do
    collaborators ← gets (active_collaborators o.product_id)
    if are_payable collaborators
        then settle_payable id amount_usd collaborators o.tx_hash
        else fail_order id

  -- Steps 1 to 6; an order that is not found is logged.
  unfoldable pub settle_found : String → ℕ → Option Order → App N (Unit {0})
  unfolding settle_pending
  settle_found id amount_usd none = pure tt
  settle_found id amount_usd (some o) = do
    throw_if (not (can_transition o.status OrderStatus.settlement_pending))
        (invalid_transition o.status OrderStatus.settlement_pending)
    update_order id (with_status OrderStatus.settlement_pending)
    settle_pending id amount_usd o

  -- `handlePaymentReceived`
  unfoldable pub handle_payment_received : PaymentReceivedPayload → App N (Unit {0})
  unfolding settle_found handle_settlement_error
  handle_payment_received payload =
      try_catch
        (do
          found ← gets (find_order payload.order_id)
          settle_found payload.order_id payload.amount_usd found)
        (handle_settlement_error payload.order_id)
