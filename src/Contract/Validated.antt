-- ===== src/Contract/Validated.antt =====
-- Recipients that the contract's validation accepts (smartcontract/src/lib.rs).
use kreav.Base.{
  ℕ, zero, suc, ◌+◌, ◌*◌, ◌/◌, ◌≤◌, ◌<◌, false, ◌≡◌, refl, some, List, [], ◌∷◌, map, length, any,
  ◌==◌, All, sum_by, arith, length-map,
}
use kreav.Base.Int.{pos}
use kreav.Stellar.Split.{RecipientInput, amounts_from, creator_amounts}
use kreav.Contract.{
  done, Recipient, positive, overflows, validate_from, validate_recipients, calculate_from,
  calculate_creator_amounts,
}

-- What the backend sends for a recipient.
abbrev pub sent : RecipientInput → Recipient
sent r = record { address = r.address; share_bps = pos r.share_bps }

abbrev pub ArePositive : List RecipientInput → Type 0
ArePositive rs = All (λ r. 0 < r.share_bps) rs

-- No address stands twice.
abbrev pub AreDistinct : List RecipientInput → Type 0
AreDistinct [] = Unit
AreDistinct (r ∷ rs) =
    (any (λ (o : Recipient). r.address == o.address) (map sent rs) ≡ false) × AreDistinct rs

pub positive-pos : (n : ℕ) → 0 < n → positive (pos n) ≡ some n
positive-pos zero h = absurd (omega (arith, h))
positive-pos (suc n) h = refl

validate_from-accepts :
    (sum : ℕ) (rs : List RecipientInput)
    → ArePositive rs
    → AreDistinct rs
    → sum + sum_by (λ r. r.share_bps) rs ≡ 10000
    → validate_from sum (map sent rs) ≡ done 10000
unfolding validate_from
validate_from-accepts sum [] p d all = ground (arith, all)
validate_from-accepts sum (r ∷ rs) p d all =
    let rest : validate_from (sum + r.share_bps) (map sent rs) ≡ done 10000 =
      validate_from-accepts (sum + r.share_bps) rs p.1 d.1 (omega (arith, all)) in
    ground (arith, positive-pos r.share_bps p.0, d.0, all, rest)

pub validate_recipients-accepts :
    (rs : List RecipientInput)
    → ArePositive rs
    → AreDistinct rs
    → sum_by (λ r. r.share_bps) rs ≡ 10000
    → length rs ≤ 10
    → validate_recipients (map sent rs) ≡ done 10000
unfolding validate_recipients
validate_recipients-accepts [] p d all few = absurd (omega (arith, all))
validate_recipients-accepts (r ∷ rs) p d all few =
    let rest : validate_from 0 (map sent (r ∷ rs)) ≡ done 10000 =
      validate_from-accepts 0 (r ∷ rs) p d (omega (arith, all)) in
    ground (arith, few, rest, length-map sent rs)

-- The product of an amount and a share, within an i128.
abbrev pub Fits : ℕ → Type 0
Fits n = n * 10000 ≤ 170141183460469231731687303715884105727

product-Fits : (pool share : ℕ) → share ≤ 10000 → Fits pool → overflows (pool * share) ≡ false
product-Fits pool share few f =
    let below : pool * share ≤ pool * 10000 = grind (arith, few) in ground (arith, below, f)

sum-Fits :
    (pool sum part : ℕ)
    → part ≤ 10000
    → 10000 * sum ≤ pool * part
    → Fits pool
    → overflows sum ≡ false
sum-Fits pool sum part few low f =
    let below : pool * part ≤ pool * 10000 = grind (arith, few) in ground (arith, below, low, f)

-- Within an i128 the contract computes the amounts that the backend records.
calculate_from-eq :
    (pool d part : ℕ) (rs : List RecipientInput)
    → Fits pool
    → part + sum_by (λ r. r.share_bps) rs ≡ 10000
    → 10000 * d ≤ pool * part
    → calculate_from pool d (map sent rs) ≡ done (amounts_from pool d rs)
unfolding calculate_from amounts_from
calculate_from-eq pool d part [] f all low = refl
calculate_from-eq pool d part (r ∷ []) f all low = refl
calculate_from-eq pool d part (r ∷ s ∷ rs) f all low =
    let c = (pool * r.share_bps) / 10000 in
    let next : 10000 * (d + c) ≤ pool * (part + r.share_bps) = omega (arith, low) in
    let small : overflows (d + c) ≡ false =
      sum-Fits pool (d + c) (part + r.share_bps) (omega (arith, all)) next f in
    let product : overflows (pool * r.share_bps) ≡ false =
      product-Fits pool r.share_bps (omega (arith, all)) f in
    let rest =
      calculate_from-eq pool (d + c) (part + r.share_bps) (s ∷ rs) f (omega (arith, all)) next in
    ground (arith, small, product, rest)

pub calculate_creator_amounts-eq :
    (pool : ℕ) (rs : List RecipientInput)
    → Fits pool
    → sum_by (λ r. r.share_bps) rs ≡ 10000
    → calculate_creator_amounts (map sent rs) pool ≡ done (creator_amounts pool rs)
unfolding calculate_creator_amounts creator_amounts
calculate_creator_amounts-eq pool rs f all =
    calculate_from-eq pool 0 0 rs f (omega (arith, all)) (omega arith)
