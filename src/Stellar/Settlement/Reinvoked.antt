-- ===== src/Stellar/Settlement/Reinvoked.antt =====
-- An attempt whose transaction was accepted, but whose outcome could not be read.
use kreav.Base.{ℕ, zero, suc, String, ◌≡◌, ◌∙◌, List, map, arith}
use kreav.App.{World, App, ok, err, try_catch, simulation_error, network_error, other}
use kreav.App.Laws.{try_catch-of_err}
use kreav.Store.{Collaborator}
use kreav.Stellar.Split.{to_base_units}
use kreav.Stellar.Horizon.{StellarConfig, HorizonServer}
use kreav.Stellar.Rpc.{RpcServer, submit_settle, do_invoke_settle, invoke_settle, poll_transaction}
use kreav.Stellar.Recording.{to_recipient}
use kreav.Stellar.Settlement.{
  attempt, settle_attempts, on_network_error, handle_settlement_error, fail_order,
}

module _ {N : Type 0} (config : StellarConfig) (horizon : HorizonServer N) (rpc : RpcServer N)
    (id : String) (amount : ℕ) (cs : List Collaborator) where
  abbrev submit : App N String
  submit = submit_settle config rpc id (to_base_units amount) (map to_recipient cs)

  unread :
      (tx : String) (w v : World N) (n : N)
      → submit w ≡ (ok tx, v)
      → rpc.get_transaction tx v.net ≡ (err other, n)
      → attempt config horizon rpc id amount cs w ≡ (err network_error, record v { net = n })
  unfolding attempt invoke_settle do_invoke_settle poll_transaction
  unread tx w v n accepted unseen = ground (arith, accepted, unseen)

  refused_again :
      (w u : World N)
      → submit w ≡ (err simulation_error, u)
      → attempt config horizon rpc id amount cs w ≡ (err simulation_error, u)
  unfolding attempt invoke_settle do_invoke_settle
  refused_again w u refused = ground (arith, refused)

  second :
      (left : ℕ) (w u : World N)
      → submit w ≡ (err simulation_error, u)
      → settle_attempts config horizon rpc id amount cs (suc left) w ≡ (err simulation_error, u)
  unfolding settle_attempts
  second zero w u refused =
      try_catch-of_err (attempt config horizon rpc id amount cs) (on_network_error (fail_order id))
        w (refused_again w u refused)
  second (suc left) w u refused =
      try_catch-of_err (attempt config horizon rpc id amount cs)
        (on_network_error (settle_attempts config horizon rpc id amount cs (suc left))) w
        (refused_again w u refused)

  -- If a submission was accepted but the first look at its outcome fails, the settlement is
  -- submitted again; when the contract then refuses it, as one it has already paid, the order is
  -- marked SETTLEMENT_FAILED.
  pub settle_attempts-reinvokes :
      (left : ℕ) (tx : String) (w v u : World N) (n : N)
      → submit w ≡ (ok tx, v)
      → rpc.get_transaction tx v.net ≡ (err other, n)
      → submit (record v { net = n }) ≡ (err simulation_error, u)
      → try_catch
          (settle_attempts config horizon rpc id amount cs (suc (suc left)))
          (handle_settlement_error id)
          w
        ≡ fail_order id u
  unfolding settle_attempts handle_settlement_error fail_order
  settle_attempts-reinvokes left tx w v u n accepted unseen refused =
      try_catch-of_err (settle_attempts config horizon rpc id amount cs (suc (suc left)))
        (handle_settlement_error id) w
        (try_catch-of_err (attempt config horizon rpc id amount cs)
            (on_network_error (settle_attempts config horizon rpc id amount cs (suc left))) w
            (unread tx w v n accepted unseen)
          ∙ second left (record v { net = n }) u refused)
