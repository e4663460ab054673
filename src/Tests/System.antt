-- ===== src/Tests/System.antt =====
-- A run of the whole pipeline: checkout, payment, restart.
use kreav.Base.{false, ℕ, ◌≡◌, refl, none, []}
use kreav.App.{World}
use kreav.Orders.{checkout, handle_gcash_payment}
use kreav.Orders.Evolves.{Evolves}
use kreav.Startup.{on_application_bootstrap}
use kreav.Store.Table.{find_by}
use kreav.Store.Query.{find_order}
use kreav.System.{Run, start, then_step, checked_out, paid, restarted}
use kreav.System.Keeps.{IsSound}
use kreav.System.Laws.{Run-IsSound}
use kreav.Tests.Data.{db_with, world_of, config, horizon, rpc_with}

abbrev empty : World ℕ
empty = world_of (db_with [] [])

abbrev ordered : World ℕ
ordered = (checkout "o1" "p1" "b@x.io" empty).1

abbrev confirmed : World ℕ
confirmed = (handle_gcash_payment "o1" "r1" ordered).1

abbrev restarted_world : World ℕ
restarted_world = (on_application_bootstrap config (rpc_with false) confirmed).1

is_new : find_order "o1" empty.db ≡ none
unfolding find_by
is_new = refl

life : Run config horizon (rpc_with false) empty restarted_world
life =
    then_step (then_step (then_step start (checked_out "o1" "p1" "b@x.io" is_new)) (paid "o1" "r1"))
      restarted

empty-IsSound : IsSound empty
unfolding find_by
empty-IsSound = record {
  unique_ids = tt;
  unique_refs = record { unique = λ j k ref o p ej ek ro rp. cc };
  events_announced = tt;
}

Run-IsSound_example : Evolves [] restarted_world.db.orders × IsSound restarted_world
Run-IsSound_example =
    Run-IsSound config horizon (rpc_with false) empty restarted_world life empty-IsSound
