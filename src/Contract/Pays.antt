-- ===== src/Contract/Pays.antt =====
-- What the contract pays (smartcontract/src/lib.rs), and what the backend records of it
-- (`recordSettlementSuccess`, backend/src/stellar/settlement.service.ts).
use kreav.Base.{
  ℕ, ◌*◌, ◌≤◌, ◌<◌, String, Bool, true, false, ◌≡◌, refl, ap, ◌∙◌, Option, some, List, [], ◌∷◌,
  ◌++◌, map, length, sum_by, sum_by-map, length-map, eq_refl, arith,
}
use kreav.Base.Int.{ℤ, pos}
use kreav.Store.{Collaborator, Settlement, SettlementRecipient, RecipientType}
use kreav.Stellar.Split.{RecipientInput, to_base_units, platform_fee, creator_pool, creator_amounts}
use kreav.Stellar.Recording.{to_recipient, creator_rows, settlement_row}
use kreav.Stellar.Settlement.{are_payable}
use kreav.Contract.{
  done, RecipientPaid, Ledger, positive, overflows, pay_all, paid_events, is_settled, settle,
}
use kreav.Contract.Validated.{
  positive-pos, sent, ArePositive, AreDistinct, Fits, validate_recipients-accepts,
  calculate_creator_amounts-eq,
}

-- The payments that a recorded settlement tells of.
abbrev pub payouts : String → List SettlementRecipient → List RecipientPaid
payouts id [] = []
payouts id (row ∷ rows) = elim row.recipient_type [
  | RecipientType.creator ↦
      record { order_ref = id; address = row.wallet_address; amount = row.amount } ∷ payouts id rows
  | _ ↦ payouts id rows
]

module _ {T : Type 0} (transfer : String → String → ℤ → T → Option T) where
  paid_events-rows :
      (id : String) (cs : List Collaborator) (amounts : List ℤ)
      → paid_events transfer id (map sent (map to_recipient cs)) amounts
        ≡ payouts id (creator_rows cs amounts)
  paid_events-rows id [] amounts = refl
  paid_events-rows id (c ∷ cs) [] = refl
  paid_events-rows id (c ∷ cs) (a ∷ amounts) =
      let event : RecipientPaid = record {
        order_ref = id;
        address = c.wallet_address;
        amount = a;
      } in
      ap (λ l. event ∷ l) (paid_events-rows id cs amounts)

  abbrev pub written : String → ℕ → List RecipientPaid → ℕ → T → Ledger T → Ledger T
  written id total events count t l = record l {
    settlements = id ∷ l.settlements;
    token = t;
    paid = l.paid ++ events;
    executed =
        l.executed
        ++ record {
          order_ref = id;
          total_amount = total;
          platform_fee_amount = platform_fee total;
          creator_pool_amount = creator_pool total;
          recipient_count = count;
        }
          ∷ [];
  }

  -- The ledger after a settlement, as the backend records it.
  abbrev pub settled_ledger : String → Settlement → ℕ → ℕ → T → Ledger T → Ledger T
  settled_ledger id s total count t l = written id total (payouts id s.recipients) count t l

  -- The contract accepts what the backend's guards let through.
  settle-accepts :
      (auth : String → Bool) (id platform usdc : String) (total : ℕ) (rs : List RecipientInput)
      (l : Ledger T) (t : T)
      → l.platform_wallet ≡ some platform
      → l.usdc_sac ≡ some usdc
      → auth platform ≡ true
      → is_settled transfer id l ≡ false
      → 0 < total
      → Fits total
      → ArePositive rs
      → AreDistinct rs
      → sum_by (λ r. r.share_bps) rs ≡ 10000
      → length rs ≤ 10
      → pay_all transfer platform (map sent rs) (creator_amounts (creator_pool total) rs) l.token
        ≡ done t
      → settle transfer auth id (pos total) (map sent rs) l
        ≡ done (
            written id total
              (paid_events transfer id (map sent rs) (creator_amounts (creator_pool total) rs))
              (length (map sent rs))
              t
              l)
  unfolding settle
  settle-accepts auth id platform usdc total rs l t p u a fresh more f ps ds all few paid =
      let valid = validate_recipients-accepts rs ps ds all few in
      let amounts = calculate_creator_amounts-eq (creator_pool total) rs (omega (arith, f)) all in
      let small : overflows (total * 500) ≡ false = ground (arith, f) in
      let above : positive (pos total) ≡ some total = positive-pos total more in
      ground (arith, p, u, a, fresh, valid, amounts, small, above, paid)

  payable-parts :
      (cs : List Collaborator)
      → are_payable cs ≡ true
      → (sum_by (λ c. c.revenue_percentage) cs ≡ 10000) × (length cs ≤ 10)
  payable-parts cs h = ground (arith, h)

  -- For collaborators that pass the backend's guards, with positive shares and no address twice, and
  -- an amount within an i128, the contract accepts the settlement that the backend sends, if it is
  -- set up, signed by the platform and has not settled the order, and if the token's transfers
  -- succeed. It pays then, in the same order, exactly the amounts to exactly the wallets that the
  -- backend computes for its record, before the database rounds them to cents, keeps the fee that
  -- the backend computes, and marks the order as settled.
  pub settle-refines :
      (auth : String → Bool) (id tx platform usdc : String) (amount_usd : ℕ)
      (cs : List Collaborator) (l : Ledger T) (t : T)
      → let total = to_base_units amount_usd in
        let rs = map to_recipient cs in
        are_payable cs ≡ true
        → ArePositive rs
        → AreDistinct rs
        → 0 < amount_usd
        → Fits total
        → l.platform_wallet ≡ some platform
        → l.usdc_sac ≡ some usdc
        → auth platform ≡ true
        → is_settled transfer id l ≡ false
        → pay_all transfer platform (map sent rs) (creator_amounts (creator_pool total) rs) l.token
          ≡ done t
        → (settle transfer auth id (pos total) (map sent rs) l
            ≡ done (settled_ledger id (settlement_row id amount_usd tx cs) total (length cs) t l))
          × (is_settled transfer id
                (settled_ledger id (settlement_row id amount_usd tx cs) total (length cs) t l)
              ≡ true)
  settle-refines auth id tx platform usdc amount_usd cs l t payable ps ds more f p u a fresh paid =
      let rs = map to_recipient cs in
      let total = to_base_units amount_usd in
      let parts = payable-parts cs payable in
      let events = paid_events-rows id cs (creator_amounts (creator_pool total) rs) in
      let count : length (map sent rs) ≡ length cs =
        length-map sent rs ∙ length-map to_recipient cs in
      (
        settle-accepts auth id platform usdc total rs l t p u a fresh (omega (arith, more)) f ps ds
              (sum_by-map (λ r. r.share_bps) to_recipient cs ∙ parts.0)
              (rw (length-map to_recipient cs) (parts.1)) paid
            ∙ ap (λ es. done (written id total es (length (map sent rs)) t l)) events
            ∙ ap
                (λ n. done (
                  written id total (payouts id (settlement_row id amount_usd tx cs).recipients) n t
                    l))
                count,
        ground (arith, eq_refl id),
      )
