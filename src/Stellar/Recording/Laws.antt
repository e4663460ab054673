-- ===== src/Stellar/Recording/Laws.antt =====
-- What a settlement row accounts for.
use kreav.Base.{
  length-map, ℕ, suc, ◌+◌, String, ◌≡◌, refl, ap, ◌∙◌, List, [], ◌∷◌, map, arith, length,
}
use kreav.Base.Int.{ℤ, pos, ◌+ℤ◌, sum_ℤ, int_laws}
use kreav.Store.{Collaborator, SettlementRecipient}
use kreav.Stellar.Split.{to_base_units, platform_fee, creator_pool, creator_amounts}
use kreav.Stellar.Split.Laws.{length-creator_amounts, creator_amounts-sum}
use kreav.Stellar.Recording.{to_recipient, creator_rows, settlement_row}

abbrev pub amounts_of : List SettlementRecipient → List ℤ
amounts_of rows = map (λ r. r.amount) rows

-- There is a row for each collaborator, and it carries the amount that was computed.
creator_rows-amounts :
    (cs : List Collaborator) (amounts : List ℤ)
    → length amounts ≡ length cs
    → amounts_of (creator_rows cs amounts) ≡ amounts
creator_rows-amounts [] [] h = refl
creator_rows-amounts (c ∷ cs) (a ∷ amounts) h =
    ap (λ l. a ∷ l) (creator_rows-amounts cs amounts (omega arith))
creator_rows-amounts [] (a ∷ amounts) h = absurd (omega arith)
creator_rows-amounts (c ∷ cs) [] h = absurd (omega arith)

length-creator_rows :
    (cs : List Collaborator) (amounts : List ℤ)
    → length amounts ≡ length cs
    → length (creator_rows cs amounts) ≡ length cs
length-creator_rows [] [] h = refl
length-creator_rows (c ∷ cs) (a ∷ amounts) h = ap suc (length-creator_rows cs amounts (omega arith))
length-creator_rows [] (a ∷ amounts) h = absurd (omega arith)
length-creator_rows (c ∷ cs) [] h = absurd (omega arith)

-- The rows of a recorded settlement add up to the whole amount of the order, and there is one for
-- the platform and one for each collaborator.
pub settlement_row-sum :
    (id tx : String) (amount : ℕ) (c : Collaborator) (cs : List Collaborator)
    → let s = settlement_row id amount tx (c ∷ cs) in
      (sum_ℤ (amounts_of s.recipients) ≡ pos (to_base_units amount))
      × (length s.recipients ≡ length cs + 2)
unfolding sum_ℤ
settlement_row-sum id tx amount c cs =
    let total = to_base_units amount in
    let amounts = creator_amounts (creator_pool total) (map to_recipient (c ∷ cs)) in
    let len : length amounts ≡ length (c ∷ cs) =
      length-creator_amounts (creator_pool total) (map to_recipient (c ∷ cs))
      ∙ length-map to_recipient (c ∷ cs) in
    let parts = creator_amounts-sum total (to_recipient c) (map to_recipient cs) in
    let all = creator_rows-amounts (c ∷ cs) amounts len in
    let one = length-creator_rows (c ∷ cs) amounts len in
    let sum : pos (platform_fee total) +ℤ pos (creator_pool total) ≡ pos total = omega int_laws in
    (
      ap (λ l. pos (platform_fee total) +ℤ sum_ℤ l) all
          ∙ ap (λ n. pos (platform_fee total) +ℤ n) parts.0
          ∙ sum,
      ap suc one ∙ omega arith,
    )
