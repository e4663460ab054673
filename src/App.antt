-- ===== src/App.antt =====
-- A service call: it reads and changes the database, emits events (backend/src/events) and talks
-- to the network, whose state and whose answers are parameters; or it throws.
pub mod Reads
pub mod Filter
pub mod Laws
use kreav.Base.{ℕ, String, Bool, Option, none, some, List, [], ◌∷◌, ◌++◌, if◌then◌else◌}
use kreav.Orders.Machine.{OrderStatus}
use kreav.Store.{Db}

pub record PaymentReceivedPayload : Type 0 where
  pub order_id : String
  pub amount_usd : ℕ
  pub creator_id : String
  pub wallet_address : Option String
  pub payment_ref : String

pub record WalletConnectRequiredPayload : Type 0 where
  pub order_id : String
  pub creator_id : String
  pub amount_usd : ℕ
  pub payment_ref : String

-- The two amounts are in base units, before `toFixed(2)` prints them.
pub record SettlementCompletedPayload : Type 0 where
  pub order_id : String
  pub tx_hash : String
  pub creator_amount : ℕ
  pub platform_amount : ℕ

pub data Event : Type 0 where
  payment_received : PaymentReceivedPayload → Event
  wallet_connect_required : WalletConnectRequiredPayload → Event
  settlement_completed : SettlementCompletedPayload → Event

-- What is thrown; messages are left out. `unique_violation` is Prisma's P2002.
pub data Exn : Type 0 where
  not_found bad_request conflict forbidden unauthorized : Exn
  invalid_transition : OrderStatus → OrderStatus → Exn
  domain : String → ℕ → Exn
  unique_violation : Exn
  simulation_error submission_error network_error : Exn
  timeout_error : String → Exn
  http_not_found bad_gateway other : Exn

pub data Result (A : Type 0) : Type 0 where
  ok : A → Result A
  err : Exn → Result A

pub record World (N : Type 0) : Type 0 where
  pub db : Db
  pub events : List Event
  pub net : N

abbrev pub App : Type 0 → Type 0 → Type 0
App N A = World N → Result A × World N

module _ {N : Type 0} where
  module _ {A : Type 0} where
    abbrev pub pure : A → App N A
    pure a w = (ok a, w)

    abbrev pub throw : Exn → App N A
    throw e w = (err e, w)

    -- A query.
    abbrev pub gets : (Db → A) → App N A
    gets f w = (ok (f w.db), w)

    -- A call of an external service.
    abbrev pub call : (N → Result A × N) → App N A
    call f w = let (r, n) = f w.net in (r, record w { net = n })

    abbrev pub or_throw : Option A → Exn → App N A
    or_throw none e = throw e
    or_throw (some a) e = pure a

    -- `try { m } catch (err) { h(err) }`
    abbrev pub try_catch : App N A → (Exn → App N A) → App N A
    try_catch m h w = let (r, w') = m w in elim r [ ok a ↦ (ok a, w') | err e ↦ h e w' ]

  infixl 5 ◌>>=◌ ◌>>◌
  abbrev pub ◌>>=◌ : {A B : Type 0} → App N A → (A → App N B) → App N B
  ◌>>=◌ m f w = let (r, w') = m w in elim r [ ok a ↦ f a w' | err e ↦ (err e, w') ]

  abbrev pub ◌>>◌ : {A B : Type 0} → App N A → App N B → App N B
  m >> k = m >>= λ _. k

  abbrev pub throw_if : Bool → Exn → App N (Unit {0})
  throw_if c e w = (if c then err e else ok tt, w)

  -- A write of the database.
  abbrev pub modify : (Db → Db) → App N (Unit {0})
  modify f w = (ok tt, record w { db = f w.db })

  -- `emitter.emit`: the listeners run later.
  abbrev pub emit : Event → App N (Unit {0})
  emit e w = (ok tt, record w { events = w.events ++ e ∷ [] })
