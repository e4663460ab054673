-- ===== src/Stellar/Rpc.antt =====
-- Invoking the settlement contract (soroban-rpc.service.ts). The SDK's RPC server is a parameter:
-- its calls answer from the network's state and may change it. A transaction is the contract call
-- that it carries.
pub mod Laws
use kreav.Base.{ℕ, zero, suc, String, Bool, true, false, Option, none, some, List, if◌then◌else◌}
use kreav.App.{
  App, Result, Exn, simulation_error, submission_error, network_error, timeout_error, other, call,
  pure, throw, throw_if, or_throw, try_catch, ◌>>=◌, ◌>>◌,
}
use kreav.Stellar.Horizon.{StellarConfig}
use kreav.Stellar.Split.{RecipientInput}

pub data Invocation : Type 0 where
  settle : String → ℕ → List RecipientInput → Invocation
  is_settled_call : String → Invocation

-- A simulation fails, asks that an archived entry be restored, or returns a value: `returned b`
-- says whether that value is `true`.
pub data Simulation : Type 0 where
  sim_error sim_restore : Simulation
  returned : Bool → Simulation

pub data SendStatus : Type 0 where
  pending duplicate try_again_later error : SendStatus

pub data TxStatus : Type 0 where
  not_found success failed : TxStatus

pub record RpcServer (N : Type 0) : Type 0 where
  pub get_account : String → N → Result (Unit {0}) × N
  pub simulate_transaction : Invocation → N → Result Simulation × N
  pub send_transaction : Invocation → N → Result (SendStatus × String) × N
  pub get_transaction : String → N → Result TxStatus × N

-- `InvokeResult`: the status is SUCCESS or FAILED.
pub record InvokeResult : Type 0 where
  pub tx_hash : String
  pub succeeded : Bool

abbrev pub poll_max_attempts : ℕ
poll_max_attempts = 30

-- The errors that `invokeSettle` lets through as they are.
abbrev pub is_known_error : Exn → Bool
is_known_error simulation_error = true
is_known_error submission_error = true
is_known_error (timeout_error h) = true
is_known_error _ = false

abbrev is_sim_error : Simulation → Bool
is_sim_error sim_error = true
is_sim_error _ = false

-- ERROR and TRY_AGAIN_LATER: the transaction was not accepted.
abbrev is_rejected : SendStatus → Bool
is_rejected error = true
is_rejected try_again_later = true
is_rejected _ = false

-- What the poll does with a status; `rest` is the next attempt.
abbrev pub on_status : {N : Type 0} → App N InvokeResult → String → TxStatus → App N InvokeResult
on_status rest tx_hash not_found = rest
on_status rest tx_hash success = pure (record { tx_hash = tx_hash; succeeded = true })
on_status rest tx_hash failed = pure (record { tx_hash = tx_hash; succeeded = false })

-- An archived marker counts as settled.
abbrev pub settled_by : {N : Type 0} → Simulation → App N Bool
settled_by sim_error = throw other
settled_by sim_restore = pure true
settled_by (returned b) = pure b

module _ {N : Type 0} (config : StellarConfig) (rpc : RpcServer N) where
  -- `platformKey.getKeypair()` and `server.getAccount`.
  unfoldable pub load_source : App N (Unit {0})
  load_source = do key ← or_throw config.platform_key other; call (rpc.get_account key)

  -- `pollTransaction`, with the attempts that are left.
  unfoldable pub poll_transaction : ℕ → String → App N InvokeResult
  poll_transaction zero tx_hash = throw (timeout_error tx_hash)
  poll_transaction (suc attempts) tx_hash = do
    status ← call (rpc.get_transaction tx_hash)
    on_status (poll_transaction attempts tx_hash) tx_hash status

  -- `doInvokeSettle` up to the hash of the submitted transaction.
  unfoldable pub submit_settle : String → ℕ → List RecipientInput → App N String
  unfolding load_source
  submit_settle order_ref total recipients = do
    load_source
    sim ← call (rpc.simulate_transaction (settle order_ref total recipients))
    throw_if (is_sim_error sim) simulation_error
    sent ← call (rpc.send_transaction (settle order_ref total recipients))
    throw_if (is_rejected sent.0) submission_error
    pure sent.1

  -- `doInvokeSettle`
  unfoldable pub do_invoke_settle : String → ℕ → List RecipientInput → App N InvokeResult
  do_invoke_settle order_ref total recipients = do
    tx_hash ← submit_settle order_ref total recipients
    poll_transaction poll_max_attempts tx_hash

  -- `invokeSettle`: any other error counts as a transient network error.
  unfoldable pub invoke_settle : String → ℕ → List RecipientInput → App N InvokeResult
  unfolding do_invoke_settle
  invoke_settle order_ref total recipients =
      try_catch (do_invoke_settle order_ref total recipients)
        (λ e. if is_known_error e then throw e else throw network_error)

  -- `getTransactionStatus`
  abbrev pub get_transaction_status : String → App N TxStatus
  get_transaction_status tx_hash = call (rpc.get_transaction tx_hash)

  -- `isSettled`
  unfoldable pub is_settled : String → App N Bool
  unfolding load_source
  is_settled order_ref = do
    load_source
    sim ← call (rpc.simulate_transaction (is_settled_call order_ref))
    settled_by sim
