-- ===== src/Stellar/Split/Laws.antt =====
-- The sum of a split, and the split that the integration scripts state.
use kreav.Base.{ℕ, suc, length, ◌+◌, ◌*◌, ◌/◌, ◌≡◌, refl, ap, ◌∙◌, List, [], ◌∷◌, ◌++◌, map, arith}
use kreav.Base.Int.{pos, sub_ℕ, ◌+ℤ◌, sum_ℤ}
use kreav.Stellar.Split.{
  RecipientInput, platform_fee, creator_pool, amounts_from, creator_amounts, platform_fee_amount,
  creator_pool_amount, recipient_share_amount, last_recipient_amount, sum_from,
}

sub_ℕ-zero : (a b : ℕ) → sub_ℕ a b +ℤ pos 0 ≡ sub_ℕ a b
unfolding ◌+ℤ◌
sub_ℕ-zero a b = ground arith

sub_ℕ-step : (a b c : ℕ) → pos c +ℤ sub_ℕ a (b + c) ≡ sub_ℕ a b
unfolding ◌+ℤ◌
sub_ℕ-step a b c = ground arith

pub amounts_from-sum :
    (pool distributed : ℕ) (r : RecipientInput) (rs : List RecipientInput)
    → sum_ℤ (amounts_from pool distributed (r ∷ rs)) ≡ sub_ℕ pool distributed
unfolding amounts_from sum_ℤ
amounts_from-sum pool d r [] = sub_ℕ-zero pool d
amounts_from-sum pool d r (s ∷ rs) =
    rw (amounts_from-sum pool (d + (pool * r.share_bps) / 10000) s rs)
      (sub_ℕ-step pool d ((pool * r.share_bps) / 10000))

-- The creators' amounts add up to the pool and, with the platform's fee, to the whole amount, for
-- every list of shares that is not empty.
pub creator_amounts-sum :
    (total : ℕ) (r : RecipientInput) (rs : List RecipientInput)
    → (sum_ℤ (creator_amounts (creator_pool total) (r ∷ rs)) ≡ pos (creator_pool total))
      × (platform_fee total + creator_pool total ≡ total)
unfolding creator_amounts
creator_amounts-sum total r rs =
    (amounts_from-sum (creator_pool total) 0 r rs ∙ ground arith, omega arith)

sum_from-add : (a b : ℕ) (xs : List ℕ) → sum_from (a + b) xs ≡ a + sum_from b xs
unfolding sum_from
sum_from-add a b [] = refl
sum_from-add a b (x ∷ xs) = rw (← sum_from-add a (b + x) xs) (ap (λ n. sum_from n xs) (omega arith))

-- The amounts of a run of recipients before the last, as the scripts state them.
abbrev shares_of : ℕ → List RecipientInput → List ℕ
shares_of pool [] = []
shares_of pool (r ∷ rs) = recipient_share_amount pool r.share_bps ∷ shares_of pool rs

amounts_from-last :
    (pool distributed : ℕ) (rs : List RecipientInput) (last : RecipientInput)
    → amounts_from pool distributed (rs ++ last ∷ [])
      ≡ map pos (shares_of pool rs) ++ sub_ℕ pool (sum_from distributed (shares_of pool rs)) ∷ []
unfolding amounts_from sum_from recipient_share_amount
amounts_from-last pool d [] last = refl
amounts_from-last pool d (r ∷ []) last = refl
amounts_from-last pool d (r ∷ s ∷ rs) last =
    ap (λ l. pos ((pool * r.share_bps) / 10000) ∷ l)
      (amounts_from-last pool (d + (pool * r.share_bps) / 10000) (s ∷ rs) last)

-- What the service records is what the integration scripts expect: the same fee and pool, each
-- recipient's share but the last, and for the last what the others left.
pub creator_amounts-eq_expected :
    (total : ℕ) (rs : List RecipientInput) (last : RecipientInput)
    → let pool = creator_pool_amount total in
      (platform_fee total ≡ platform_fee_amount total)
      × (creator_amounts (creator_pool total) (rs ++ last ∷ [])
          ≡ map pos (shares_of pool rs) ++ last_recipient_amount pool (shares_of pool rs) ∷ [])
unfolding creator_amounts platform_fee_amount creator_pool_amount last_recipient_amount
creator_amounts-eq_expected total rs last = (refl, amounts_from-last (creator_pool total) 0 rs last)

length-amounts_from :
    (pool d : ℕ) (rs : List RecipientInput) → length (amounts_from pool d rs) ≡ length rs
unfolding amounts_from
length-amounts_from pool d [] = refl
length-amounts_from pool d (r ∷ []) = refl
length-amounts_from pool d (r ∷ s ∷ rs) =
    ap suc (length-amounts_from pool (d + (pool * r.share_bps) / 10000) (s ∷ rs))

-- One amount for each recipient.
pub length-creator_amounts :
    (pool : ℕ) (rs : List RecipientInput) → length (creator_amounts pool rs) ≡ length rs
unfolding creator_amounts
length-creator_amounts pool rs = length-amounts_from pool 0 rs
