-- ===== src/Orders/Machine.antt =====
-- The order state machine (backend/src/orders/order-state-machine.ts).
pub mod Laws
use kreav.Base.{ℕ, Bool, List, [], ◌∷◌, any, length, nat_eq}

pub data OrderStatus : Type 0 where
  created checkout_started payment_pending payment_received : OrderStatus
  settlement_pending settled withdraw_pending withdraw_completed : OrderStatus
  payment_failed settlement_failed withdraw_failed waiting_wallet cancelled : OrderStatus

abbrev pub ordinal : OrderStatus → ℕ
ordinal created = 0
ordinal checkout_started = 1
ordinal payment_pending = 2
ordinal payment_received = 3
ordinal settlement_pending = 4
ordinal settled = 5
ordinal withdraw_pending = 6
ordinal withdraw_completed = 7
ordinal payment_failed = 8
ordinal settlement_failed = 9
ordinal withdraw_failed = 10
ordinal waiting_wallet = 11
ordinal cancelled = 12

-- `===` on statuses.
abbrev pub status_eq : OrderStatus → OrderStatus → Bool
status_eq a b = nat_eq (ordinal a) (ordinal b)

-- The table `TRANSITIONS`.
pub transitions : OrderStatus → List OrderStatus
transitions created = checkout_started ∷ cancelled ∷ []
transitions checkout_started = payment_pending ∷ cancelled ∷ []
transitions payment_pending = payment_received ∷ waiting_wallet ∷ payment_failed ∷ cancelled ∷ []
transitions payment_received = settlement_pending ∷ waiting_wallet ∷ cancelled ∷ []
transitions waiting_wallet = settlement_pending ∷ cancelled ∷ []
transitions settlement_pending = settled ∷ settlement_failed ∷ cancelled ∷ payment_received ∷ []
transitions settled = withdraw_pending ∷ []
transitions withdraw_pending = withdraw_completed ∷ withdraw_failed ∷ cancelled ∷ []
transitions withdraw_completed = []
transitions payment_failed = []
transitions settlement_failed = []
transitions withdraw_failed = []
transitions cancelled = []

-- `canTransition`: `TRANSITIONS[from].includes(to)`.
unfoldable pub can_transition : OrderStatus → OrderStatus → Bool
unfolding transitions
can_transition from to = any (status_eq to) (transitions from)

-- `isTerminal`
pub is_terminal : OrderStatus → Bool
unfolding transitions
is_terminal status = nat_eq (length (transitions status)) 0
