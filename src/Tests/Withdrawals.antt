-- ===== src/Tests/Withdrawals.antt =====
-- Runs of the withdrawals service: a balance of ten dollars, asked for twice.
use kreav.Base.{keep, ◌==◌, ℕ, ◌≡◌, refl, none, some, [], ◌∷◌, map, length, newest_first, arith}
use kreav.Base.Int.{pos, ◌+ℤ◌, ◌-ℤ◌}
use kreav.App.{World, Result, ok}
use kreav.Store.{Wallet, Settlement, SettlementStatus, RecipientType}
use kreav.Store.Table.{find_by, update_by}
use kreav.Withdrawals.{
  Receipt, withdrawal_id, reference_of, receipt_of, request_withdrawal, withdrawable_balance,
  total_settled, paid_in, total_withdrawn, last_settlement, create_withdrawal, update_withdrawal,
}
use kreav.Withdrawals.Laws.{
  Requested, requested_row, request_withdrawal-Requested, request_withdrawal-again,
}
use kreav.Withdrawals.Listing.{
  list_withdrawals, page_of_withdrawals, entries, to_entry, list_withdrawals-all,
}
use kreav.Tests.Data.{db_with, world_of}

abbrev paid : Settlement
paid = record {
  order_id = "o1";
  total_amount = 1000;
  tx_hash = "T1";
  status = SettlementStatus.completed;
  recipients =
      record {
        wallet_address = "GA";
        recipient_type = RecipientType.creator;
        role = "Author";
        percentage = 10000;
        amount = pos 95000000;
      }
      ∷ [];
}

abbrev funded : World ℕ
funded = world_of (db_with [] (paid ∷ []))

abbrev asked : Result Receipt × World ℕ
asked = request_withdrawal "w1" "KRV-1" 0 "GA" 950 "gcash" "0917" funded

abbrev receipt : Receipt
receipt =
    receipt_of (requested_row "w1" "KRV-1" 0 "GA" 950 "gcash" "0917" "c1" (some "T1"))
      (pos 95000000)

accepted_once : asked.0 ≡ ok receipt
unfolding request_withdrawal create_withdrawal update_withdrawal withdrawable_balance total_settled
    paid_in total_withdrawn last_settlement find_by update_by ◌+ℤ◌ ◌-ℤ◌
accepted_once = refl

new_id : find_by withdrawal_id "w1" funded.db.withdrawals ≡ none
unfolding find_by
new_id = refl

new_reference : find_by reference_of "KRV-1" funded.db.withdrawals ≡ none
unfolding find_by
new_reference = refl

later_id : find_by withdrawal_id "w2" asked.1.db.withdrawals ≡ none
unfolding request_withdrawal create_withdrawal update_withdrawal withdrawable_balance total_settled
    paid_in total_withdrawn last_settlement find_by update_by ◌+ℤ◌ ◌-ℤ◌
later_id = refl

later_reference : find_by reference_of "KRV-2" asked.1.db.withdrawals ≡ none
unfolding request_withdrawal create_withdrawal update_withdrawal withdrawable_balance total_settled
    paid_in total_withdrawn last_settlement find_by update_by ◌+ℤ◌ ◌-ℤ◌
later_reference = refl

request_withdrawal-Requested_example : Requested "w1" "KRV-1" 0 "GA" 950 "gcash" "0917" funded asked
request_withdrawal-Requested_example =
    request_withdrawal-Requested "w1" "KRV-1" 0 "GA" 950 "gcash" "0917" funded new_id new_reference

request_withdrawal-again_example :
    (withdrawable_balance "GA" asked.1.db ≡ withdrawable_balance "GA" funded.db)
    × ((s : Receipt) × ((request_withdrawal "w2" "KRV-2" 9 "GA" 950 "gcash" "0917" asked.1).0
          ≡ ok s))
request_withdrawal-again_example =
    request_withdrawal-again "w1" "w2" "KRV-1" "KRV-2" 0 9 "GA" 950 "gcash" "0917" funded receipt
      new_id new_reference accepted_once later_id later_reference

abbrev ana_wallet : Wallet
ana_wallet = record { creator_id = "c1"; wallet_address = "GA"; connected_at = 1 }

abbrev twice : World ℕ
twice = (request_withdrawal "w2" "KRV-2" 9 "GA" 950 "gcash" "0917" asked.1).1

list_withdrawals-all_example :
    ((page : ℕ)
      → list_withdrawals "GA" page 1 twice ≡ (
        ok (record {
          address = "GA";
          withdrawals = page_of_withdrawals (some ana_wallet) page 1 twice.db;
        }),
        twice,
      ))
    × ((page : ℕ)
        → (page_of_withdrawals (some ana_wallet) page 1 twice.db).total
          ≡ length (keep (λ x. x.creator_id == "c1") twice.db.withdrawals))
    × (entries "GA" 2 1 twice.db
        ≡ map to_entry (newest_first (keep (λ x. x.creator_id == "c1") twice.db.withdrawals)))
unfolding request_withdrawal create_withdrawal update_withdrawal withdrawable_balance total_settled
    paid_in total_withdrawn last_settlement update_by find_by ◌-ℤ◌ ◌+ℤ◌
list_withdrawals-all_example = list_withdrawals-all "GA" 2 1 twice ana_wallet refl (ground arith)
