-- ===== src/System/Sound.antt =====
-- The events that announce orders of the database.
use kreav.Base.{
  ◌<◌, ◌≤◌, ◌*◌, ℕ, ◌+◌, String, ◌≡◌, ◌∙◌, sym, arith, some, List, [], ◌∷◌, ◌++◌, All, All-append,
  All-with,
}
use mathlib.Core.Path.{subst}
use kreav.Stellar.Recording.{to_fixed}
use kreav.App.{Event, payment_received, wallet_connect_required, settlement_completed}
use kreav.Store.{Db, Order}
use kreav.Store.Query.{find_order}
use kreav.Stellar.Split.{to_base_units, creator_pool, platform_fee}
use kreav.Orders.Evolves.{Evolves}
use kreav.System.{IsEmitted, first, later}

abbrev pub IsOrder : Db → String → ℕ → Type 0
IsOrder d id amount = (o : Order) × (find_order id d ≡ some o) × (o.amount_usd ≡ amount)

-- The number of cents that is the nearest to a number of hundredths of a cent, a half rounded up.
abbrev pub IsNearest : ℕ → ℕ → Type 0
IsNearest cents n = (cents * 100 ≤ n + 50) × (n + 50 < (cents + 1) * 100)

-- The two amounts of a completed settlement are 95% and 5% of the order's amount, each in whole cents.
abbrev pub IsSplit : Db → String → ℕ → ℕ → Type 0
IsSplit d id creator platform =
    (o : Order) × (find_order id d ≡ some o)
    × IsNearest creator (o.amount_usd * 95)
    × IsNearest platform (o.amount_usd * 5)

-- An event names an order that is in the database, and its amount.
abbrev pub Announced : Db → Event → Type 0
Announced d (payment_received p) = IsOrder d p.order_id p.amount_usd
Announced d (wallet_connect_required p) = IsOrder d p.order_id p.amount_usd
Announced d (settlement_completed p) = IsSplit d p.order_id p.creator_amount p.platform_amount

pub IsOrder-Evolves :
    (d e : Db) (id : String) (amount : ℕ)
    → Evolves d.orders e.orders
    → IsOrder d id amount
    → IsOrder e id amount
IsOrder-Evolves d e id amount ev (o, found, same) =
    let (o', found', s) = ev.follow id o found in (o', found', s.same_amount ∙ same)

pub Announced-Evolves :
    (d e : Db) (event : Event) → Evolves d.orders e.orders → Announced d event → Announced e event
Announced-Evolves d e (payment_received p) ev a = IsOrder-Evolves d e p.order_id p.amount_usd ev a
Announced-Evolves d e (wallet_connect_required p) ev a =
    IsOrder-Evolves d e p.order_id p.amount_usd ev a
Announced-Evolves d e (settlement_completed p) ev (o, found, creator, platform) =
    let (o', found', s) = ev.follow p.order_id o found in
    (
      o',
      found',
      subst (λ n. IsNearest p.creator_amount (n * 95)) (sym s.same_amount) creator,
      subst (λ n. IsNearest p.platform_amount (n * 5)) (sym s.same_amount) platform,
    )

fee_of_cents : (n : ℕ) → platform_fee (to_base_units n) ≡ n * 5000
fee_of_cents n = omega arith

IsNearest-platform_fee : (n : ℕ) → IsNearest (to_fixed (platform_fee (to_base_units n))) (n * 5)
IsNearest-platform_fee n = (omega (arith, fee_of_cents n), omega (arith, fee_of_cents n))

IsNearest-creator_pool : (n : ℕ) → IsNearest (to_fixed (creator_pool (to_base_units n))) (n * 95)
IsNearest-creator_pool n = (omega (arith, fee_of_cents n), omega (arith, fee_of_cents n))

pub completed-IsSplit :
    (d : Db) (id : String) (amount : ℕ)
    → IsOrder d id amount
    → IsSplit d id
        (to_fixed (creator_pool (to_base_units amount)))
        (to_fixed (platform_fee (to_base_units amount)))
completed-IsSplit d id amount (o, found, same) = (
  o,
  found,
  subst (λ n. IsNearest (to_fixed (creator_pool (to_base_units amount))) (n * 95)) (sym same)
      (IsNearest-creator_pool amount),
  subst (λ n. IsNearest (to_fixed (platform_fee (to_base_units amount))) (n * 5)) (sym same)
      (IsNearest-platform_fee amount),
)

-- Events stay announced, and new ones are.
pub events-Announced :
    (d e : Db) (old new : List Event)
    → Evolves d.orders e.orders
    → All (Announced e) new
    → All (Announced d) old
    → All (Announced e) (old ++ new)
events-Announced d e old new ev fresh a =
    All-append (Announced e) old new (All-with old (λ x b _. Announced-Evolves d e x ev b) a a)
      fresh

-- An event that was emitted is announced.
pub emitted-Announced :
    (d : Db) (e : Event) (es : List Event) → IsEmitted e es → All (Announced d) es → Announced d e
emitted-Announced d e [] i a = elim i [ ]
emitted-Announced d e (x ∷ es) first a = a.0
emitted-Announced d e (x ∷ es) (later i) a = emitted-Announced d e es i a.1
