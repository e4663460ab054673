-- ===== src/Orders/Machine/Laws.antt =====
-- What the transition table allows, over whole lives of an order.
use kreav.Base.{ℕ, ◌<◌, ◌≡◌, ◌≢◌, ◌↔◌, ◌⊎◌, inl, inr, refl, true, false, arith}
use kreav.Orders.Machine.{
  OrderStatus, created, checkout_started, payment_pending, payment_received, settlement_pending,
  settled, withdraw_pending, withdraw_completed, payment_failed, settlement_failed, withdraw_failed,
  waiting_wallet, cancelled, can_transition, is_terminal,
}

-- A status that an order can come to by permitted transitions, in any number.
pub data Reach (s : OrderStatus) : OrderStatus → Type 0 where
  here : Reach s s
  next : {t u : OrderStatus} → Reach s t → can_transition t u ≡ true → Reach s u

pub Reach-trans : {s t u : OrderStatus} → Reach s t → Reach t u → Reach s u
Reach-trans r here = r
Reach-trans r (next q e) = next (Reach-trans r q) e

pub Reach-one : {s t : OrderStatus} → can_transition s t ≡ true → Reach s t
Reach-one e = next here e

-- An order that is finished has no next status, and every other has one.
pub is_terminal_iff :
    (s : OrderStatus) → (is_terminal s ≡ true) ↔ ((t : OrderStatus) → can_transition s t ≡ false)
unfolding can_transition is_terminal
is_terminal_iff created = (λ h. cc, λ h. cc (h cancelled))
is_terminal_iff checkout_started = (λ h. cc, λ h. cc (h cancelled))
is_terminal_iff payment_pending = (λ h. cc, λ h. cc (h cancelled))
is_terminal_iff payment_received = (λ h. cc, λ h. cc (h cancelled))
is_terminal_iff settlement_pending = (λ h. cc, λ h. cc (h cancelled))
is_terminal_iff settled = (λ h. cc, λ h. cc (h withdraw_pending))
is_terminal_iff withdraw_pending = (λ h. cc, λ h. cc (h cancelled))
is_terminal_iff withdraw_completed = (λ h t. refl, λ h. refl)
is_terminal_iff payment_failed = (λ h t. refl, λ h. refl)
is_terminal_iff settlement_failed = (λ h t. refl, λ h. refl)
is_terminal_iff withdraw_failed = (λ h t. refl, λ h. refl)
is_terminal_iff waiting_wallet = (λ h. cc, λ h. cc (h cancelled))
is_terminal_iff cancelled = (λ h t. refl, λ h. refl)

-- How far an order has come.
abbrev pub progress : OrderStatus → ℕ
progress created = 0
progress checkout_started = 1
progress payment_pending = 2
progress payment_received = 3
progress waiting_wallet = 4
progress settlement_pending = 5
progress settled = 6
progress withdraw_pending = 7
progress _ = 8

-- Every permitted transition takes the order forward, but for the one that recovery uses, from
-- SETTLEMENT_PENDING back to PAYMENT_RECEIVED.
pub can_transition-progress :
    (s t : OrderStatus)
    → can_transition s t ≡ true
    → (progress s < progress t) ⊎ ((s ≡ settlement_pending) × (t ≡ payment_received))
unfolding can_transition
can_transition-progress s t h = ground arith

-- An order can be cancelled exactly while it is neither finished nor SETTLED.
pub cancel_iff :
    (s : OrderStatus)
    → (can_transition s cancelled ≡ true) ↔ ((is_terminal s ≡ false) × (s ≢ settled))
unfolding can_transition is_terminal
cancel_iff s = ground arith

-- The statuses of an order whose money has been paid out.
abbrev pub IsPaidOut : OrderStatus → Type 0
IsPaidOut settled = Unit
IsPaidOut withdraw_pending = Unit
IsPaidOut withdraw_completed = Unit
IsPaidOut withdraw_failed = Unit
IsPaidOut _ = ⊥

step-IsPaidOut :
    (s t : OrderStatus) → IsPaidOut s → can_transition s t ≡ true → IsPaidOut t ⊎ (t ≡ cancelled)
unfolding can_transition
step-IsPaidOut s t p h = ground arith

-- An order that was settled never comes back to a status from which it could be settled again.
pub Reach-settled : {t : OrderStatus} → Reach settled t → IsPaidOut t ⊎ (t ≡ cancelled)
unfolding can_transition
Reach-settled here = inl tt
Reach-settled (next {t} {u} r e) = elim (Reach-settled r) [
  | inl p ↦ step-IsPaidOut t u p e
  | inr c ↦ absurd (cancelled_ends t u c e)
]
  where
    cancelled_ends : (t u : OrderStatus) → t ≡ cancelled → can_transition t u ≡ true → ⊥
    cancelled_ends t u c e = ground arith
