-- ===== src/Tests/Startup.antt =====
-- Runs of the recovery at the start.
use kreav.Base.{ℕ, ◌≡◌, refl, some, [], ◌∷◌, true}
use kreav.App.{World, ok}
use kreav.Orders.Machine.{OrderStatus}
use kreav.Orders.Evolves.{Evolves}
use kreav.Store.{Order}
use kreav.Store.Table.{find_by, update_by}
use kreav.Store.Query.{find_order, find_settlement, update_order, active_collaborators}
use kreav.Stellar.Rpc.{is_settled, load_source}
use kreav.Stellar.Recording.{record_recovered_settlement, record_found, record_settlement_success}
use kreav.Startup.{
  recover_order, on_application_bootstrap, recover_by_status, recover_settlement_pending,
  recover_unhashed, recover_marked, record_as, give_up,
}
use kreav.Startup.Ending.{Recovery, Known}
use kreav.Startup.Laws.{recover_order-Recovery}
use kreav.Startup.Evolves.{recover_order-Known}
use kreav.Startup.Bootstrap.{on_application_bootstrap-Evolves}
use kreav.Startup.Lost.{recover_order-loses_settled}
use kreav.Tests.Data.{product, order_in, settlement, db_with, world_of, world_in, config, rpc_with}

-- The contract has paid the order, and the process stopped before anything was recorded.
abbrev stuck : World ℕ
stuck = world_in OrderStatus.settlement_pending

abbrev stuck_order : Order
stuck_order = order_in OrderStatus.settlement_pending

found_stuck : find_order "o1" stuck.db ≡ some stuck_order
unfolding find_by
found_stuck = refl

-- `unknown-` and the first eight letters of the id.
abbrev recovered_order : Order
recovered_order = record (order_in OrderStatus.settled) { tx_hash = some "unknown-o1" }

recovered :
    find_order "o1" (recover_order config (rpc_with true) stuck_order (some product) stuck).1.db
    ≡ some recovered_order
unfolding recover_by_status recover_settlement_pending recover_unhashed recover_marked record_as
    give_up find_by update_by is_settled load_source record_recovered_settlement record_found
    record_settlement_success update_order active_collaborators
recovered = refl

recover_order-Recovery_example :
    Recovery config
      (rpc_with true)
      stuck_order
      (some product)
      stuck.db
      []
      (recover_order config (rpc_with true) stuck_order (some product) stuck)
recover_order-Recovery_example =
    recover_order-Recovery config (rpc_with true) stuck_order (some product) stuck found_stuck

recover_order-Known_example : Known config (rpc_with true) stuck_order
recover_order-Known_example =
    recover_order-Known config (rpc_with true) stuck_order (some product) stuck found_stuck
      recovered_order recovered refl (λ e. cc)

-- The settlement row was written, and the process stopped before the order was updated.
abbrev half_recorded : World ℕ
half_recorded = world_of (db_with (stuck_order ∷ []) (settlement ∷ []))

found_half : find_order "o1" half_recorded.db ≡ some stuck_order
unfolding find_by
found_half = refl

found_settlement : find_settlement "o1" half_recorded.db ≡ some settlement
unfolding find_by
found_settlement = refl

paid_half : (is_settled config (rpc_with true) "o1" half_recorded).0 ≡ ok true
unfolding is_settled load_source
paid_half = refl

recover_order-loses_settled_example :
    find_order "o1"
      (recover_order config (rpc_with true) stuck_order (some product) half_recorded).1.db
    ≡ some (order_in OrderStatus.settlement_failed)
recover_order-loses_settled_example =
    recover_order-loses_settled config (rpc_with true) stuck_order (some product) half_recorded
      settlement refl refl found_half found_settlement paid_half

on_application_bootstrap-Evolves_example :
    Evolves stuck.db.orders (on_application_bootstrap config (rpc_with true) stuck).1.db.orders
    × ((on_application_bootstrap config (rpc_with true) stuck).0 ≡ ok tt)
on_application_bootstrap-Evolves_example =
    on_application_bootstrap-Evolves config (rpc_with true) stuck (tt, tt)
