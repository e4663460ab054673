-- ===== src/Stellar/Settlement/Reading.antt =====
-- The steps of a settlement that only read, and those of the calls of the network.
use kreav.Base.{◌≡◌, refl, ℕ, zero, suc, String, List, [], ◌∷◌, arith}
use kreav.App.{World, Result, ok, err}
use kreav.App.Reads.{Reads, Alike}
use kreav.Store.{Collaborator}
use kreav.Stellar.Split.{RecipientInput}
use kreav.Stellar.Horizon.{StellarConfig, HorizonServer, get_usdc_balance}
use kreav.Stellar.Rpc.{
  RpcServer, poll_transaction, submit_settle, poll_max_attempts, invoke_settle, is_settled,
}
use kreav.Stellar.Settlement.{lacks_trustline, find_recipients_missing_trustline, already_settled}

module _ {N : Type 0} (config : StellarConfig) (horizon : HorizonServer N) where
  pub get_usdc_balance-Reads : (a : String) → Reads (get_usdc_balance config horizon a)
  unfolding get_usdc_balance
  get_usdc_balance-Reads a = record { alike = λ w. ground arith }

module _ {N : Type 0} (config : StellarConfig) (rpc : RpcServer N) where
  poll_transaction-Reads : (k : ℕ) (h : String) → Reads (poll_transaction config rpc k h)
  unfolding poll_transaction
  poll_transaction-Reads zero h = record { alike = λ w. ground arith }
  poll_transaction-Reads (suc k) h = record {
    alike = λ w. ground (
      arith,
      (poll_transaction-Reads k h).alike (record w { net = (rpc.get_transaction h w.net).1 }),
    );
  }

  submit_settle-Reads :
      (id : String) (total : ℕ) (rs : List RecipientInput)
      → Reads (submit_settle config rpc id total rs)
  unfolding submit_settle
  submit_settle-Reads id total rs = record { alike = λ w. ground arith }

  pub invoke_settle-Reads :
      (id : String) (total : ℕ) (rs : List RecipientInput)
      → Reads (invoke_settle config rpc id total rs)
  unfolding invoke_settle
  invoke_settle-Reads id total rs = record {
    alike = λ w. go w (submit_settle config rpc id total rs w) refl;
  }
    where
      go :
          (w : World N) (x : Result String × World N)
          → submit_settle config rpc id total rs w ≡ x
          → Alike (invoke_settle config rpc id total rs w).1 w
      go w (ok h, v) e = ground (
        arith,
        e,
        (submit_settle-Reads id total rs).alike w,
        (poll_transaction-Reads poll_max_attempts h).alike v,
      )
      go w (err x, v) e = ground (arith, e, (submit_settle-Reads id total rs).alike w)

  pub is_settled-Reads : (id : String) → Reads (is_settled config rpc id)
  unfolding is_settled
  is_settled-Reads id = record { alike = λ w. ground arith }

  pub already_settled-Reads :
      (horizon : HorizonServer N) (id : String) (amount : ℕ) (cs : List Collaborator)
      → Reads (already_settled config horizon rpc id amount cs)
  unfolding already_settled
  already_settled-Reads horizon id amount cs = record {
    alike = λ w. ground (arith, (is_settled-Reads id).alike w);
  }

  lacks_trustline-Reads :
      (horizon : HorizonServer N) (r : RecipientInput)
      → Reads (lacks_trustline config horizon rpc r)
  unfolding lacks_trustline
  lacks_trustline-Reads horizon r = record {
    alike = λ w. ground (arith, (get_usdc_balance-Reads config horizon r.address).alike w);
  }

  pub find_recipients_missing_trustline-Reads :
      (horizon : HorizonServer N) (rs : List RecipientInput)
      → Reads (find_recipients_missing_trustline config horizon rpc rs)
  unfolding find_recipients_missing_trustline
  find_recipients_missing_trustline-Reads horizon [] = record { alike = λ w. ground arith }
  find_recipients_missing_trustline-Reads horizon (r ∷ rs) = record {
    alike = λ w.
        let v = (lacks_trustline config horizon rpc r w).1 in
        ground (
          arith,
          (lacks_trustline-Reads horizon r).alike w,
          (find_recipients_missing_trustline-Reads horizon rs).alike v,
        );
  }
