-- ===== src/Stellar/Split/Fair.antt =====
-- How the amounts of a split lie to the shares (`recordSettlementSuccess`).
use kreav.Base.{ℕ, ◌+◌, ◌*◌, ◌/◌, ◌≤◌, ◌≡◌, refl, ap, List, [], ◌∷◌, arith, sum_by, length}
use kreav.Base.Int.{ℤ, pos, sub_ℕ, ◌≤ℤ◌}
use kreav.Stellar.Split.{RecipientInput, amounts_from, creator_amounts}

abbrev pub share_floor : ℕ → RecipientInput → ℕ
share_floor pool r = (pool * r.share_bps) / 10000

-- `dust` is what the last recipient may get beyond the share.
abbrev pub AreFair : ℕ → ℕ → List RecipientInput → List ℤ → Type 0
AreFair pool dust [] [] = Unit
AreFair pool dust (r ∷ []) (a ∷ []) =
    (pos (share_floor pool r) ≤ℤ a) × (a ≤ℤ pos (share_floor pool r + dust))
AreFair pool dust (r ∷ s ∷ rs) (a ∷ amounts) =
    (a ≡ pos (share_floor pool r)) × AreFair pool dust (s ∷ rs) amounts
AreFair pool dust _ _ = ⊥

last_share :
    (pool d share done count : ℕ)
    → done + share ≡ 10000
    → 10000 * d ≤ pool * done
    → pool * done ≤ 10000 * (d + count)
    → (pos ((pool * share) / 10000) ≤ℤ sub_ℕ pool d)
      × (sub_ℕ pool d ≤ℤ pos ((pool * share) / 10000 + count))
last_share pool d share done count all low high =
    let whole : pool * done + pool * share ≡ pool * 10000 =
      omega (arith, ap (λ (t : ℕ). pool * t) all) in
    ground arith

amounts_from-AreFair :
    (pool d done count dust : ℕ) (r : RecipientInput) (rs : List RecipientInput)
    → done + sum_by (λ x. x.share_bps) (r ∷ rs) ≡ 10000
    → 10000 * d ≤ pool * done
    → pool * done ≤ 10000 * (d + count)
    → count + length rs ≡ dust
    → AreFair pool dust (r ∷ rs) (amounts_from pool d (r ∷ rs))
unfolding amounts_from
amounts_from-AreFair pool d done count dust r [] all low high n =
    ground (arith, last_share pool d r.share_bps done count (omega arith) low high)
amounts_from-AreFair pool d done count dust r (s ∷ rs) all low high n = (
  refl,
  amounts_from-AreFair pool (d + share_floor pool r) (done + r.share_bps) (count + 1) dust s rs
      (omega arith) (omega arith) (omega arith) (omega arith),
)

-- Shares of 100% in all: every recipient but the last gets the share rounded down, and the last
-- gets that and at most one base unit more for each of the others.
pub creator_amounts-AreFair :
    (pool : ℕ) (r : RecipientInput) (rs : List RecipientInput)
    → sum_by (λ x. x.share_bps) (r ∷ rs) ≡ 10000
    → AreFair pool (length rs) (r ∷ rs) (creator_amounts pool (r ∷ rs))
unfolding creator_amounts
creator_amounts-AreFair pool r rs all =
    amounts_from-AreFair pool 0 0 0 (length rs) r rs (omega arith) (omega arith) (omega arith)
      (omega arith)
