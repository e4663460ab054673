-- ===== src/Withdrawals.antt =====
-- Simulated withdrawals (backend/src/withdrawals/withdrawals.service.ts). Amounts of withdrawals
-- are cents and balances base units; `now` is the clock in milliseconds. A new row's id and its
-- generated reference are arguments. What a receipt repeats from constants is left out.
pub mod Laws
pub mod Reading
pub mod Listing
use kreav.Base.{
  ℕ, ◌+◌, ◌-◌, ◌*◌, String, Bool, true, false, not, ◌&&◌, Option, none, some, List, [], ◌∷◌, ◌++◌,
  keep, ◌==◌, if◌then◌else◌, sum_by, length, leb, nat_eq, is_some,
}
use kreav.Base.Int.{ℤ, pos, ◌+ℤ◌, ◌-ℤ◌, ltb_ℤ, sum_ℤ}
use kreav.App.{
  App, Exn, not_found, other, unique_violation, domain, pure, throw, gets, modify, throw_if,
  or_throw, ◌>>=◌, ◌>>◌,
}
use kreav.Store.{
  Db, Wallet, Settlement, SettlementStatus, SettlementRecipient, RecipientType, Withdrawal,
  WithdrawalStatus,
}
use kreav.Store.Table.{find_by, update_by}
use kreav.Store.Query.{find_wallet, find_wallet_of}
use kreav.Orders.Webhook.{is_falsy}
use kreav.Stellar.Split.{to_base_units}

abbrev pub is_completed : SettlementStatus → Bool
is_completed SettlementStatus.completed = true
is_completed _ = false

abbrev is_creator : RecipientType → Bool
is_creator RecipientType.creator = true
is_creator _ = false

abbrev pub is_done : WithdrawalStatus → Bool
is_done WithdrawalStatus.done = true
is_done _ = false

abbrev pub is_processing : WithdrawalStatus → Bool
is_processing WithdrawalStatus.processing = true
is_processing _ = false

-- The recipient rows that `where` selects of one settlement.
abbrev pub is_paid_to : String → SettlementRecipient → Bool
is_paid_to address r = r.wallet_address == address && is_creator r.recipient_type

-- The two `_sum`s; of no row it is null, which the source reads as 0.
unfoldable pub paid_in : String → List SettlementRecipient → ℤ
paid_in address [] = pos 0
paid_in address (r ∷ rs) =
    if is_paid_to address r then r.amount +ℤ paid_in address rs else paid_in address rs

unfoldable pub total_settled : String → List Settlement → ℤ
unfolding paid_in
total_settled address [] = pos 0
total_settled address (s ∷ ss) =
    if is_completed s.status
    then paid_in address s.recipients +ℤ total_settled address ss
    else total_settled address ss

abbrev is_withdrawn_by : String → Withdrawal → Bool
is_withdrawn_by creator_id w = w.creator_id == creator_id && is_done w.status

unfoldable pub total_withdrawn : String → List Withdrawal → ℕ
total_withdrawn creator_id [] = 0
total_withdrawn creator_id (w ∷ ws) =
    if is_withdrawn_by creator_id w
    then w.amount + total_withdrawn creator_id ws
    else total_withdrawn creator_id ws

-- `getWithdrawableBalance` on the database.
abbrev balance_by : String → Option Wallet → Db → ℤ
balance_by address none d = pos 0
balance_by address (some w) d =
    total_settled address d.settlements
    -ℤ pos (to_base_units (total_withdrawn w.creator_id d.withdrawals))

unfoldable pub withdrawable_balance : String → Db → ℤ
withdrawable_balance address d = balance_by address (find_wallet address d) d

-- `findRecentSettlementTxHash`: the newest row is the last; an empty hash counts as none.
abbrev is_paid_by : String → Settlement → Bool
is_paid_by address s =
    is_completed s.status && not (nat_eq (length (keep (is_paid_to address) s.recipients)) 0)

unfoldable pub last_settlement : String → List Settlement → Option Settlement
last_settlement address [] = none
last_settlement address (s ∷ ss) = elim (last_settlement address ss) [
  | some later ↦ some later
  | none ↦ if is_paid_by address s then some s else none
]

abbrev pub hash_of : Option Settlement → Option String
hash_of none = none
hash_of (some s) = if s.tx_hash == "" then none else some s.tx_hash

-- What a receipt says of the withdrawal.
pub record Receipt : Type 0 where
  pub withdrawal_id : String
  pub reference : String
  pub status : WithdrawalStatus
  pub amount : ℕ
  pub available_before : ℤ
  pub available_after : ℤ
  pub destination_type : String
  pub destination_account : String
  pub settlement_tx_hash : Option String
  pub requested_at : ℕ
  pub completed_at : Option ℕ

abbrev pub withdrawal_id : Withdrawal → String
withdrawal_id w = w.id

abbrev pub reference_of : Withdrawal → String
reference_of w = w.reference

abbrev pub set_withdrawals : (List Withdrawal → List Withdrawal) → Db → Db
set_withdrawals f d = record d { withdrawals = f d.withdrawals }

abbrev pub simulation_delay_ms : ℕ
simulation_delay_ms = 2500

abbrev pub as_processing : Withdrawal → Withdrawal
as_processing w = record w { status = WithdrawalStatus.processing }

abbrev pub completed_at_time : ℕ → Withdrawal → Withdrawal
completed_at_time now w = record w { status = WithdrawalStatus.done; completed_at = some now }

-- PROCESSING, and the delay is over.
abbrev pub is_due : ℕ → Withdrawal → Bool
is_due now w = is_processing w.status && leb simulation_delay_ms (now - w.created_at)

-- `requesterCreatorId && withdrawal.creatorId !== requesterCreatorId`
abbrev pub is_foreign : Option String → Withdrawal → Bool
is_foreign none w = false
is_foreign (some requester) w = not (requester == "") && not (w.creator_id == requester)

abbrev pub receipt_of : Withdrawal → ℤ → Receipt
receipt_of w before = record {
  withdrawal_id = w.id;
  reference = w.reference;
  status = w.status;
  amount = w.amount;
  available_before = before;
  available_after = before -ℤ pos (to_base_units w.amount);
  destination_type = w.destination_type;
  destination_account = w.destination_account;
  settlement_tx_hash = w.settlement_tx_hash;
  requested_at = w.created_at;
  completed_at = w.completed_at;
}

abbrev pub balance_before : Option Wallet → Withdrawal → Db → ℤ
balance_before none w d = pos 0
balance_before (some wallet) w d =
    withdrawable_balance wallet.wallet_address d +ℤ pos (to_base_units w.amount)

module _ {N : Type 0} where
  -- `withdrawal.update`; a missing row is refused (P2025).
  unfoldable pub update_withdrawal : String → (Withdrawal → Withdrawal) → App N (Unit {0})
  update_withdrawal id change = do
    or_throw (← gets (λ d. find_by withdrawal_id id d.withdrawals)) other
    modify (set_withdrawals (update_by withdrawal_id id change))

  -- `withdrawal.create`: references are unique.
  unfoldable pub create_withdrawal : Withdrawal → App N (Unit {0})
  create_withdrawal w = do
    throw_if (is_some (← gets (λ d. find_by reference_of w.reference d.withdrawals)))
        unique_violation
    modify (set_withdrawals (λ ws. ws ++ w ∷ []))

  -- `requestWithdrawal`
  unfoldable pub request_withdrawal :
      String → String → ℕ → String → ℕ → String → String → App N Receipt
  unfolding update_withdrawal create_withdrawal withdrawable_balance last_settlement
  request_withdrawal id reference now address amount destination_type destination_account = do
    wallet ← or_throw (← gets (find_wallet address)) (domain "WALLET_NOT_FOUND" 404)
    available ← gets (withdrawable_balance address)
    throw_if (ltb_ℤ available (pos (to_base_units amount))) (domain "INSUFFICIENT_BALANCE" 400)
    settlement ← gets (λ d. last_settlement address d.settlements)
    let row : Withdrawal = record {
      id = id;
      creator_id = wallet.creator_id;
      settlement_tx_hash = hash_of settlement;
      amount = amount;
      destination_type = destination_type;
      destination_account = destination_account;
      reference = reference;
      status = WithdrawalStatus.requested;
      anchor_transaction_id = none;
      tx_hash = none;
      created_at = now;
      completed_at = none;
    }
    create_withdrawal row
    update_withdrawal id as_processing
    pure (receipt_of (as_processing row) available)

  -- The lazy completion of `getWithdrawal`, and the row that the receipt then shows.
  pub complete_if_due : ℕ → Withdrawal → App N Withdrawal
  unfolding update_withdrawal
  complete_if_due now w =
      if is_due now w
      then (do update_withdrawal w.id (completed_at_time now); pure (completed_at_time now w))
      else pure w

  -- `getWithdrawal`
  pub get_withdrawal : String → ℕ → Option String → App N Receipt
  unfolding complete_if_due withdrawable_balance
  get_withdrawal id now requester = do
    w ← or_throw (← gets (λ d. find_by withdrawal_id id d.withdrawals)) not_found
    throw_if (is_foreign requester w) not_found
    shown ← complete_if_due now w
    wallet ← gets (find_wallet_of w.creator_id)
    before ← gets (balance_before wallet w)
    pure (receipt_of shown before)
