-- ===== src/Stellar/Rpc/Laws.antt =====
-- Polling for a transaction, and the errors that an invocation can throw.
use kreav.Base.{
  if◌then◌else◌, ℕ, zero, suc, ◌<◌, String, ◌≡◌, refl, sym, ◌⊎◌, Bool, true, false, List, arith,
}
use mathlib.Core.Path.{subst}
use kreav.App.Laws.{>>=-of_ok}
use kreav.App.{throw, call, World, Result, ok, err, Exn, timeout_error, network_error}
use kreav.Stellar.Split.{RecipientInput}
use kreav.Stellar.Horizon.{StellarConfig}
use kreav.Stellar.Rpc.{
  on_status, do_invoke_settle, RpcServer, TxStatus, not_found, success, failed, InvokeResult,
  poll_transaction, invoke_settle, is_known_error,
}

abbrev pub status_of : Bool → TxStatus
status_of true = success
status_of false = failed

module _ {N : Type 0} (config : StellarConfig) (rpc : RpcServer N) (tx_hash : String) where
  -- So many reads in a row have answered NOT_FOUND, and took the network from one state to another.
  pub data Waited : ℕ → N → N → Type 0 where
    now : {n : N} → Waited zero n n
    again :
        {k : ℕ} {n m o : N}
        → rpc.get_transaction tx_hash n ≡ (ok not_found, m)
        → Waited k m o
        → Waited (suc k) n o

  -- The first answer other than NOT_FOUND is the result, if one of the attempts gets it; a read
  -- that throws ends the poll with its error; and the poll times out after just its attempts.
  pub data PollEnds (attempts : ℕ) (w : World N) (x : Result InvokeResult × World N) : Type 0 where
    answered :
        (j : ℕ) (n m : N) (b : Bool)
        → j < attempts
        → Waited j w.net n
        → rpc.get_transaction tx_hash n ≡ (ok (status_of b), m)
        → x ≡ (ok (record { tx_hash = tx_hash; succeeded = b }), record w { net = m })
        → PollEnds attempts w x
    threw :
        (j : ℕ) (n m : N) (e : Exn)
        → j < attempts
        → Waited j w.net n
        → rpc.get_transaction tx_hash n ≡ (err e, m)
        → x ≡ (err e, record w { net = m })
        → PollEnds attempts w x
    timed_out :
        (n : N)
        → Waited attempts w.net n
        → x ≡ (err (timeout_error tx_hash), record w { net = n })
        → PollEnds attempts w x

  PollEnds-later :
      (k : ℕ) (w : World N) (m : N) (x : Result InvokeResult × World N)
      → rpc.get_transaction tx_hash w.net ≡ (ok not_found, m)
      → PollEnds k (record w { net = m }) x
      → PollEnds (suc k) w x
  PollEnds-later k w m x e (answered j n o b lt h q r) =
      answered (suc j) n o b (omega arith) (again e h) q r
  PollEnds-later k w m x e (threw j n o y lt h q r) =
      threw (suc j) n o y (omega arith) (again e h) q r
  PollEnds-later k w m x e (timed_out n h r) = timed_out n (again e h) r

  -- Every poll ends in one of these ways.
  pub poll_transaction-PollEnds :
      (attempts : ℕ) (w : World N)
      → PollEnds attempts w (poll_transaction config rpc attempts tx_hash w)
  unfolding poll_transaction
  poll_transaction-PollEnds zero w = timed_out w.net now refl
  poll_transaction-PollEnds (suc k) w =
      go (rpc.get_transaction tx_hash w.net) refl
        (λ m. poll_transaction-PollEnds k (record w { net = m }))
    where
      go :
          (x : Result TxStatus × N)
          → rpc.get_transaction tx_hash w.net ≡ x
          → ((m : N)
              → PollEnds k
                  (record w { net = m })
                  (poll_transaction config rpc k tx_hash (record w { net = m })))
          → PollEnds (suc k) w (poll_transaction config rpc (suc k) tx_hash w)
      go (ok not_found, m) e ih =
          let read : call (rpc.get_transaction tx_hash) w ≡ (ok not_found, record w { net = m }) =
            ground (arith, e) in
          subst (PollEnds (suc k) w)
            (sym (
              >>=-of_ok (call (rpc.get_transaction tx_hash))
                (on_status (poll_transaction config rpc k tx_hash) tx_hash) w read))
            (PollEnds-later k w m _ e (ih m))
      go (ok success, m) e ih = answered 0 w.net m true (omega arith) now e (ground (arith, e))
      go (ok failed, m) e ih = answered 0 w.net m false (omega arith) now e (ground (arith, e))
      go (err y, m) e ih = threw 0 w.net m y (omega arith) now e (ground (arith, e))

by_result :
    {N : Type 0} (x : Result InvokeResult × World N) {e : Exn}
    → (elim x.0 as (λ _. Result InvokeResult × World N) [
      | ok a ↦ (ok a, x.1)
      | err y ↦ (if is_known_error y then throw y else throw network_error) x.1
    ]).0
      ≡ err e
    → (is_known_error e ≡ true) ⊎ (e ≡ network_error)
by_result (ok a, w) h = cc
by_result (err y, w) h = ground arith

-- Whatever the network does, an invocation throws only what the settlement knows how to handle: a
-- simulation, submission or timeout error as it is, and any other as a network error.
pub invoke_settle-errors :
    {N : Type 0} (config : StellarConfig) (rpc : RpcServer N) (id : String) (total : ℕ)
    (rs : List RecipientInput) (w : World N) (e : Exn)
    → (invoke_settle config rpc id total rs w).0 ≡ err e
    → (is_known_error e ≡ true) ⊎ (e ≡ network_error)
unfolding invoke_settle
invoke_settle-errors config rpc id total rs w e h =
    by_result (do_invoke_settle config rpc id total rs w) h
