-- ===== src/Withdrawals/Reading.antt =====
-- What reading a withdrawal does (`getWithdrawal`).
use kreav.Base.{
  ℕ, String, true, false, Option, some, ◌≡◌, arith, inl, inr, Bool-cases, Option-cases,
}
use kreav.App.{World, Result, ok, err, not_found}
use kreav.Store.{Db, Withdrawal}
use kreav.Store.Table.{find_by, update_by, find_by-key}
use kreav.Store.Query.{find_wallet_of}
use kreav.Withdrawals.{
  Receipt, withdrawal_id, set_withdrawals, update_withdrawal, receipt_of, get_withdrawal,
  complete_if_due, is_due, is_foreign, completed_at_time, balance_before,
}

abbrev pub completed_db : String → ℕ → Db → Db
completed_db id now d = set_withdrawals (update_by withdrawal_id id (completed_at_time now)) d

-- The receipt and the world after a completion.
abbrev pub shown_completed :
    {N : Type 0} → String → ℕ → Withdrawal → World N → Result Receipt × World N
shown_completed id now row w = (
  ok (
      receipt_of (completed_at_time now row)
        (balance_before (find_wallet_of row.creator_id w.db) row (completed_db id now w.db))),
  record w { db = completed_db id now w.db },
)

-- How reading a withdrawal ends: as not found, for an unknown one and for another creator's alike;
-- or with the receipt of the row, which is completed first if it is PROCESSING and its delay is over.
pub data Shown {N : Type 0} (id : String) (now : ℕ) (requester : Option String) (w : World N)
    (x : Result Receipt × World N) : Type 0 where
  hidden :
      ((row : Withdrawal)
        → find_by withdrawal_id id w.db.withdrawals ≡ some row
        → is_foreign requester row ≡ true)
      → x ≡ (err not_found, w)
      → Shown id now requester w x
  unchanged :
      (row : Withdrawal)
      → find_by withdrawal_id id w.db.withdrawals ≡ some row
      → is_foreign requester row ≡ false
      → is_due now row ≡ false
      → x ≡ (ok (receipt_of row (balance_before (find_wallet_of row.creator_id w.db) row w.db)), w)
      → Shown id now requester w x
  completed :
      (row : Withdrawal)
      → find_by withdrawal_id id w.db.withdrawals ≡ some row
      → is_foreign requester row ≡ false
      → is_due now row ≡ true
      → x ≡ shown_completed id now row w
      → Shown id now requester w x

-- Every reading of a withdrawal ends in one of these ways.
pub get_withdrawal-Shown :
    {N : Type 0} (id : String) (now : ℕ) (requester : Option String) (w : World N)
    → Shown id now requester w (get_withdrawal id now requester w)
unfolding get_withdrawal complete_if_due update_withdrawal
get_withdrawal-Shown id now requester w =
    elim (Option-cases (find_by withdrawal_id id w.db.withdrawals)) [
      | inl missing ↦ hidden (λ row e. cc (e, missing)) (ground (arith, missing))
      | inr (row, found) ↦ elim (Bool-cases (is_foreign requester row)) [
        | inl foreign ↦ hidden (λ q e. cc (e, found, foreign)) (ground (arith, found, foreign))
        | inr own ↦ elim (Bool-cases (is_due now row)) [
          | inl due ↦
              completed row found own due (
                ground
                  (arith, found, own, due, find_by-key withdrawal_id id w.db.withdrawals found))
          | inr not_due ↦ unchanged row found own not_due (ground (arith, found, own, not_due))
        ]
      ]
    ]
