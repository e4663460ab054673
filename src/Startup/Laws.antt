-- ===== src/Startup/Laws.antt =====
-- How the recovery of one stuck order ends, for every behaviour of the network.
use kreav.Base.{String, ◌≡◌, ◌∙◌, ap, eq_iff, refl, inl, inr, Option, none, some, Bool-cases, ◌==◌}
use kreav.App.{World}
use kreav.Orders.Machine.{OrderStatus}
use kreav.Store.{Order, Product}
use kreav.Store.Query.{find_order}
use kreav.Stellar.Horizon.{StellarConfig}
use kreav.Stellar.Rpc.{RpcServer}
use kreav.Startup.{
  recover_payment_received, recover_settlement_pending, recover_by_status, recover_order,
}
use kreav.Startup.Ending.{Recovery, announced, left}
use kreav.Startup.Pending.{recover_hashed-Recovery, recover_unhashed-Recovery}

module _ {N : Type 0} (config : StellarConfig) (rpc : RpcServer N) where
  recover_pending-Recovery :
      (o : Order) (p : Option Product) (hash : Option String) (w : World N)
      → o.status ≡ OrderStatus.settlement_pending
      → o.tx_hash ≡ hash
      → find_order o.id w.db ≡ some o
      → Recovery config rpc o p w.db w.events (recover_settlement_pending config rpc o p hash w)
  unfolding recover_settlement_pending
  recover_pending-Recovery o p none w pending hash found =
      recover_unhashed-Recovery config rpc o p pending w (inl hash) found
  recover_pending-Recovery o p (some tx) w pending hash found = elim (Bool-cases (tx == "")) [
    | inl e ↦ rw e (
        recover_unhashed-Recovery config rpc o p pending w
          (inr (hash ∙ ap some ((eq_iff tx "").0 e))) found)
    | inr e ↦ rw e (recover_hashed-Recovery config rpc o p pending tx w hash found)
  ]

  by_status-Recovery :
      (o : Order) (p : Option Product) (s : OrderStatus) (w : World N)
      → o.status ≡ s
      → find_order o.id w.db ≡ some o
      → Recovery config rpc o p w.db w.events (recover_by_status config rpc o p s w)
  unfolding recover_by_status recover_payment_received
  by_status-Recovery o p OrderStatus.payment_received w at found = announced _ _ at refl refl refl
  by_status-Recovery o p OrderStatus.settlement_pending w at found =
      recover_pending-Recovery o p o.tx_hash w at refl found
  by_status-Recovery o p OrderStatus.created w at found =
      left (inl (λ e. cc (at, e), λ e. cc (at, e))) refl refl refl
  by_status-Recovery o p OrderStatus.checkout_started w at found =
      left (inl (λ e. cc (at, e), λ e. cc (at, e))) refl refl refl
  by_status-Recovery o p OrderStatus.payment_pending w at found =
      left (inl (λ e. cc (at, e), λ e. cc (at, e))) refl refl refl
  by_status-Recovery o p OrderStatus.settled w at found =
      left (inl (λ e. cc (at, e), λ e. cc (at, e))) refl refl refl
  by_status-Recovery o p OrderStatus.withdraw_pending w at found =
      left (inl (λ e. cc (at, e), λ e. cc (at, e))) refl refl refl
  by_status-Recovery o p OrderStatus.withdraw_completed w at found =
      left (inl (λ e. cc (at, e), λ e. cc (at, e))) refl refl refl
  by_status-Recovery o p OrderStatus.payment_failed w at found =
      left (inl (λ e. cc (at, e), λ e. cc (at, e))) refl refl refl
  by_status-Recovery o p OrderStatus.settlement_failed w at found =
      left (inl (λ e. cc (at, e), λ e. cc (at, e))) refl refl refl
  by_status-Recovery o p OrderStatus.withdraw_failed w at found =
      left (inl (λ e. cc (at, e), λ e. cc (at, e))) refl refl refl
  by_status-Recovery o p OrderStatus.waiting_wallet w at found =
      left (inl (λ e. cc (at, e), λ e. cc (at, e))) refl refl refl
  by_status-Recovery o p OrderStatus.cancelled w at found =
      left (inl (λ e. cc (at, e), λ e. cc (at, e))) refl refl refl

  -- Whatever the network answers, the recovery of an order that is in the database as it was read
  -- ends in one of these ways.
  pub recover_order-Recovery :
      (o : Order) (p : Option Product) (w : World N)
      → find_order o.id w.db ≡ some o
      → Recovery config rpc o p w.db w.events (recover_order config rpc o p w)
  recover_order-Recovery o p w found = by_status-Recovery o p o.status w refl found
