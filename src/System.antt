-- ===== src/System.antt =====
-- The order pipeline as a whole: the requests, the events and the restarts of the backend as steps
-- of one relation. Each step is one service call, run to its end.
pub mod Same
pub mod Keys
pub mod Refs
pub mod Sound
pub mod Keeps
pub mod Laws
use kreav.Base.{ℕ, String, ◌≡◌, none, List, [], ◌∷◌}
use kreav.App.{World, Event, payment_received, PaymentReceivedPayload}
use kreav.Orders.{checkout, handle_gcash_payment}
use kreav.Store.Query.{find_order}
use kreav.Stellar.Horizon.{StellarConfig, HorizonServer}
use kreav.Stellar.Rpc.{RpcServer}
use kreav.Stellar.Settlement.{handle_payment_received}
use kreav.Wallets.{connect}
use kreav.Startup.{on_application_bootstrap}

-- An event that has been emitted.
pub data IsEmitted (e : Event) : List Event → Type 0 where
  first : {es : List Event} → IsEmitted e (e ∷ es)
  later : {f : Event} {es : List Event} → IsEmitted e es → IsEmitted e (f ∷ es)

module _ {N : Type 0} (config : StellarConfig) (horizon : HorizonServer N) (rpc : RpcServer N) where
  -- A checkout gives its order an id that is new; a wallet may be connected; a payment's confirmation may name any order; any
  -- event that was emitted may be handled, at any time and more than once; the process may restart;
  -- and the network may change by itself.
  pub data Step (w : World N) : World N → Type 0 where
    checked_out :
        (id product_id buyer_email : String)
        → find_order id w.db ≡ none
        → Step w (checkout id product_id buyer_email w).1
    paid : (id ref : String) → Step w (handle_gcash_payment id ref w).1
    handled :
        (p : PaymentReceivedPayload)
        → IsEmitted (payment_received p) w.events
        → Step w (handle_payment_received config horizon rpc p w).1
    connected :
        (creator_id address : String) (now : ℕ) → Step w (connect creator_id address now w).1
    restarted : Step w (on_application_bootstrap config rpc w).1
    network : (n : N) → Step w (record w { net = n })

  -- Any number of steps.
  pub data Run (w : World N) : World N → Type 0 where
    start : Run w w
    then_step : {u v : World N} → Run w u → Step u v → Run w v
