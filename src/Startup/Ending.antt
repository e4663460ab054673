-- ===== src/Startup/Ending.antt =====
-- How the recovery of one stuck order can end, for every behaviour of the network.
use kreav.Base.{String, ◌≡◌, ◌≢◌, ◌⊎◌, Bool, true, false, Option, none, some, List, [], ◌∷◌, ◌++◌}
use kreav.App.{World, Result, ok, err, Exn, Event}
use kreav.Orders.Machine.{OrderStatus}
use kreav.Store.{Db, Order, Product, Settlement, Wallet}
use kreav.Store.Table.{update_by}
use kreav.Store.Query.{order_id, find_settlement, active_collaborators, set_orders, with_status}
use kreav.Stellar.Horizon.{StellarConfig}
use kreav.Stellar.Rpc.{RpcServer, TxStatus, success, is_settled}
use kreav.Stellar.Recording.{completed_event}
use kreav.Stellar.Settlement.Verdict.{recorded_db}
use kreav.Startup.{reannounced, rolled_back}

abbrev pub failed_db : Order → Db → Db
failed_db o d = set_orders (update_by order_id o.id (with_status OrderStatus.settlement_failed)) d

module _ {N : Type 0} (config : StellarConfig) (rpc : RpcServer N) where
  -- The network has said that the contract paid the order: `is_settled` answered yes, or the order's
  -- transaction succeeded.
  pub data Known (o : Order) : Type 0 where
    marked : (v : World N) → (is_settled config rpc o.id v).0 ≡ ok true → Known o
    succeeded :
        (tx : String) (n : N)
        → o.tx_hash ≡ some tx
        → (rpc.get_transaction tx n).0 ≡ ok success
        → Known o

  -- An empty hash counts as none.
  abbrev pub IsUnhashed : Order → Type 0
  IsUnhashed o = (o.tx_hash ≡ none) ⊎ (o.tx_hash ≡ some "")

  -- Why an order is marked as failed, and what recovery reports: its transaction failed; it has none,
  -- and the contract does not say that it is settled; it has none, is settled, and its settlement was
  -- recorded already; or it was paid and has no collaborators left.
  pub data Lost (o : Order) (d : Db) : Bool → Type 0 where
    on_chain :
        (tx : String) (n : N)
        → o.tx_hash ≡ some tx
        → (rpc.get_transaction tx n).0 ≡ ok TxStatus.failed
        → Lost o d false
    unmarked :
        (v : World N) → IsUnhashed o → (is_settled config rpc o.id v).0 ≢ ok true → Lost o d false
    unrecorded :
        (v : World N) (s : Settlement)
        → IsUnhashed o
        → (is_settled config rpc o.id v).0 ≡ ok true
        → find_settlement o.id d ≡ some s
        → Lost o d false
    without_creators : Known o → active_collaborators o.product_id d ≡ [] → Lost o d true

  -- A check of a transaction that settles nothing: it is not known, or cannot be read; or it succeeded
  -- and its settlement was recorded already.
  abbrev pub SettlesNothing : Order → Db → String → N → Type 0
  SettlesNothing o d tx n =
      (((rpc.get_transaction tx n).0 ≢ ok success)
        × ((rpc.get_transaction tx n).0 ≢ ok TxStatus.failed))
      ⊎ (((rpc.get_transaction tx n).0 ≡ ok success)
          × ((s : Settlement) × (find_settlement o.id d ≡ some s)))

  -- The order's transaction was not found, and the check that followed settled nothing.
  pub record IsDropped (o : Order) (d : Db) : Type 0 where
    pub tx : String
    pub first : N
    pub hash : o.tx_hash ≡ some tx
    pub missing : (rpc.get_transaction tx first).0 ≡ ok TxStatus.not_found
    pub again : SettlesNothing o d tx (rpc.get_transaction tx first).1

  -- The order is not stuck, or its transaction cannot be read.
  abbrev pub IsUntouched : Order → Type 0
  IsUntouched o =
      ((o.status ≢ OrderStatus.payment_received) × (o.status ≢ OrderStatus.settlement_pending))
      ⊎ ((tx : String) × (n : N) × (e : Exn) × (o.tx_hash ≡ some tx)
          × ((rpc.get_transaction tx n).0 ≡ err e))

  -- A stuck order is announced again as it is, or rolled back and announced; it fails; its
  -- settlement is recorded now, or was recorded already; or nothing is written.
  pub data Recovery (o : Order) (p : Option Product) (d : Db) (events : List Event)
      (x : Result Bool × World N) : Type 0 where
    announced :
        (wal : Option Wallet) (ref : String)
        → o.status ≡ OrderStatus.payment_received
        → x.0 ≡ ok true
        → x.1.db ≡ d
        → x.1.events ≡ events ++ reannounced o p wal ref ∷ []
        → Recovery o p d events x
    returned :
        (ref : String)
        → o.status ≡ OrderStatus.settlement_pending
        → IsDropped o d
        → x.0 ≡ ok true
        → x.1.db ≡ set_orders (update_by order_id o.id rolled_back) d
        → x.1.events ≡ events ++ reannounced o p none ref ∷ []
        → Recovery o p d events x
    lost :
        (reported : Bool)
        → o.status ≡ OrderStatus.settlement_pending
        → Lost o d reported
        → x.0 ≡ ok reported
        → x.1.db ≡ failed_db o d
        → x.1.events ≡ events
        → Recovery o p d events x
    recorded :
        (tx : String)
        → o.status ≡ OrderStatus.settlement_pending
        → Known o
        → find_settlement o.id d ≡ none
        → x.0 ≡ ok true
        → x.1.db ≡ recorded_db o.id o.amount_usd tx (active_collaborators o.product_id d) d
        → x.1.events ≡ events ++ completed_event o.id o.amount_usd tx ∷ []
        → Recovery o p d events x
    relinked :
        (s : Settlement)
        → o.status ≡ OrderStatus.settlement_pending
        → Known o
        → find_settlement o.id d ≡ some s
        → x.0 ≡ ok true
        → x.1.db ≡ set_orders (update_by order_id o.id (with_status OrderStatus.settled)) d
        → x.1.events ≡ events
        → Recovery o p d events x
    left :
        IsUntouched o → x.0 ≡ ok false → x.1.db ≡ d → x.1.events ≡ events → Recovery o p d events x

  -- A step that may also throw, having written nothing, where there is a settlement already.
  pub data Stepped (o : Order) (p : Option Product) (d : Db) (events : List Event)
      (x : Result Bool × World N) : Type 0 where
    ended : Recovery o p d events x → Stepped o p d events x
    threw :
        (e : Exn) (s : Settlement)
        → find_settlement o.id d ≡ some s
        → x.0 ≡ err e
        → x.1.db ≡ d
        → x.1.events ≡ events
        → Stepped o p d events x
