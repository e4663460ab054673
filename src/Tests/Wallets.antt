-- ===== src/Tests/Wallets.antt =====
-- A wallet is connected while an order waits for it.
use kreav.Base.{some, ℕ, ◌≡◌, ◌≢◌, ◌⊎◌, none}
use kreav.App.{World, ok, err, not_found, conflict}
use kreav.Orders.Machine.{OrderStatus}
use kreav.Store.{User}
use kreav.Store.Table.{find_by}
use kreav.Store.Query.{user_id, find_wallet}
use kreav.Wallets.{connect, new_wallet}
use kreav.Wallets.Laws.{connected_world, connect-cases}
use kreav.Tests.Data.{world_in}

abbrev waiting : World ℕ
waiting = world_in OrderStatus.waiting_wallet

connect-cases_example :
    let x = connect "c1" "GN" 7 waiting in
    ((find_by user_id "c1" waiting.db.users ≡ none) × (x ≡ (err not_found, waiting)))
    ⊎ ((u : User) × (find_by user_id "c1" waiting.db.users ≡ some u)
        × (find_wallet "GN" waiting.db ≢ none)
        × (x ≡ (err conflict, waiting)))
    ⊎ ((u : User) × (find_by user_id "c1" waiting.db.users ≡ some u)
        × (find_wallet "GN" waiting.db ≡ none)
        × (x ≡ (ok (new_wallet "c1" "GN" 7), connected_world "c1" "GN" 7 waiting)))
connect-cases_example = connect-cases "c1" "GN" 7 waiting
