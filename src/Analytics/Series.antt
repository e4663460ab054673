-- ===== src/Analytics/Series.antt =====
-- The series of revenue over thirty days (`getRevenueSeries`,
-- backend/src/analytics/analytics.service.ts).
use kreav.Base.{
  ℕ, zero, suc, ◌+◌, ◌*◌, ◌≤◌, ◌<◌, String, Bool, true, false, ◌&&◌, ◌≡◌, refl, ap, ◌∙◌, Option,
  none, some, List, [], ◌∷◌, map, keep, length, sum_by, if◌then◌else◌, nat_eq, leb, ltb, is_some,
  Option-cases, Bool-cases, inl, inr, arith,
}
use kreav.Store.{Db}
use kreav.Analytics.{
  Dated, DayAmount, amount_of, is_settled_for, settled_stats, day_ms, day_index, add_at, day_totals,
  is_recent, days_from, revenue_series_of,
}

abbrev pub series_sum : List DayAmount → ℕ
series_sum days = sum_by (λ d. d.amount) days

abbrev pub dated_amount : Dated → ℕ
dated_amount o = o.order.amount_usd

abbrev pub is_placed : ℕ → Dated → Bool
is_placed now o = is_some (day_index now o.created_at)

days_from-before :
    (left day i a : ℕ) (f : ℕ → ℕ)
    → i < day
    → series_sum (days_from left day (add_at (some i) a f)) ≡ series_sum (days_from left day f)
days_from-before zero day i a f h = refl
days_from-before (suc left) day i a f h =
    let rest = days_from-before left (suc day) i a f (omega (arith, h)) in ground (arith, rest, h)

days_from-at :
    (left day i a : ℕ) (f : ℕ → ℕ)
    → day ≤ i
    → i < day + left
    → series_sum (days_from left day (add_at (some i) a f)) ≡ series_sum (days_from left day f) + a
days_from-at zero day i a f h k = absurd (omega (arith, h, k))
days_from-at (suc left) day i a f h k = elim (Bool-cases (nat_eq day i)) [
  | inl here ↦
      let rest = days_from-before left (suc day) i a f (ground (arith, here)) in
      ground (arith, rest, here)
  | inr later ↦
      let rest = days_from-at left (suc day) i a f (ground (arith, later, h)) (omega (arith, k)) in
      ground (arith, rest, later)
]

day_index-bounds : (now created i : ℕ) → day_index now created ≡ some i → (1 ≤ i) × (i < 1 + 30)
day_index-bounds now created i e = (ground (arith, e), ground (arith, e))

add_at-sum :
    (now : ℕ) (o : Dated) (f : ℕ → ℕ)
    → series_sum (days_from 30 1 (add_at (day_index now o.created_at) o.order.amount_usd f))
      ≡ series_sum (days_from 30 1 f) + (if is_placed now o then o.order.amount_usd else 0)
add_at-sum now o f = go (day_index now o.created_at) refl
  where
    go :
        (i : Option ℕ)
        → day_index now o.created_at ≡ i
        → series_sum (days_from 30 1 (add_at i o.order.amount_usd f))
          ≡ series_sum (days_from 30 1 f) + (if is_some i then o.order.amount_usd else 0)
    go none e = omega arith
    go (some i) e =
        let b = day_index-bounds now o.created_at i e in
        days_from-at 30 1 i o.order.amount_usd f b.0 b.1

day_totals-sum :
    (now : ℕ) (os : List Dated) (f : ℕ → ℕ)
    → series_sum (days_from 30 1 (day_totals now os f))
      ≡ series_sum (days_from 30 1 f) + sum_by dated_amount (keep (is_placed now) os)
unfolding day_totals
day_totals-sum now [] f = omega arith
day_totals-sum now (o ∷ os) f =
    let rest = day_totals-sum now os (add_at (day_index now o.created_at) o.order.amount_usd f) in
    rest ∙ one (is_placed now o) (add_at-sum now o f)
  where
    one :
        (b : Bool)
        → series_sum (days_from 30 1 (add_at (day_index now o.created_at) o.order.amount_usd f))
          ≡ series_sum (days_from 30 1 f) + (if b then o.order.amount_usd else 0)
        → series_sum (days_from 30 1 (add_at (day_index now o.created_at) o.order.amount_usd f))
            + sum_by dated_amount (keep (is_placed now) os)
          ≡ series_sum (days_from 30 1 f)
            + sum_by dated_amount (elim b as (λ _. List Dated) [
              | true ↦ o ∷ keep (is_placed now) os
              | false ↦ keep (is_placed now) os
            ])
    one true e = omega (arith, e)
    one false e = omega (arith, e)

-- Created by now, and less than thirty days ago.
abbrev pub is_young : ℕ → Dated → Bool
is_young now o = leb o.created_at now && ltb now (o.created_at + 2592000000)

-- Settled, and younger than thirty days.
abbrev pub is_counted : String → Db → ℕ → Dated → Bool
is_counted creator d now o = is_settled_for creator d o.order && is_young now o

placed-young : (now : ℕ) (o : Dated) → is_placed now o ≡ is_young now o
placed-young now o = ground arith

within-recent :
    (now : ℕ) (o : Dated) → is_placed now o ≡ true → leb now (o.created_at + 30 * day_ms) ≡ true
within-recent now o h = elim (Option-cases (day_index now o.created_at)) [
  | inl never ↦ absurd (ground (arith, h, never))
  | inr (i, e) ↦ ground (arith, e)
]

recent-counted :
    (creator : String) (d : Db) (now : ℕ) (os : List Dated)
    → sum_by dated_amount (keep (is_placed now) (keep (is_recent creator d now) os))
      ≡ sum_by dated_amount (keep (is_counted creator d now) os)
recent-counted creator d now [] = refl
recent-counted creator d now (o ∷ os) =
    ground (arith, recent-counted creator d now os, within-recent now o, placed-young now o)

counted-le :
    (creator : String) (d : Db) (now : ℕ) (os : List Dated)
    → sum_by dated_amount (keep (is_counted creator d now) os)
      ≤ sum_by amount_of (keep (is_settled_for creator d) (map (λ o. o.order) os))
counted-le creator d now [] = omega arith
counted-le creator d now (o ∷ os) = ground (arith, counted-le creator d now os)

zeros : (left day : ℕ) → series_sum (days_from left day (λ _. 0)) ≡ 0
zeros zero day = refl
zeros (suc left) day = omega (arith, zeros left (suc day))

le_of : {a b c e : ℕ} → a ≡ b → b ≤ c → c ≡ e → a ≤ e
le_of p q r = omega (arith, p, q, r)

-- The thirty days of the series hold every settled order of the creator that is younger than thirty
-- days, each on one day, and nothing else: they add up to those orders' amounts, and so to no more
-- than the creator's whole revenue.
pub revenue_series_of-sum :
    (creator : String) (now : ℕ) (orders : List Dated) (d : Db)
    → map (λ o. o.order) orders ≡ d.orders
    → (series_sum (revenue_series_of creator now orders d)
        ≡ sum_by dated_amount (keep (is_counted creator d now) orders))
      × (series_sum (revenue_series_of creator now orders d) ≤ (settled_stats creator d).0)
      × (length (revenue_series_of creator now orders d) ≡ 30)
unfolding revenue_series_of settled_stats
revenue_series_of-sum creator now orders d same =
    let recent = keep (is_recent creator d now) orders in
    let sum : series_sum (days_from 30 1 (day_totals now recent (λ _. 0)))
        ≡ sum_by dated_amount (keep (is_counted creator d now) orders) =
      day_totals-sum now recent (λ _. 0)
      ∙ omega (arith, zeros 30 1, recent-counted creator d now orders) in
    let le = counted-le creator d now orders in
    (
      sum,
      le_of sum le (ap (λ os. sum_by amount_of (keep (is_settled_for creator d) os)) same),
      refl,
    )
