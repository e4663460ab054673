-- ===== src/Wallets/History.antt =====
-- The history of a wallet (`getTransactions`, backend/src/wallets/wallets.service.ts): the settlements
-- that paid it and the withdrawals of its creator, in one list by pages. The rows of the recipients
-- come joined with their settlements. A row and its settlement are created by one nested `create`, so
-- that one time stands for the `createdAt` of both. Links are left out.
use kreav.Base.{
  ℕ, zero, suc, ◌+◌, ◌*◌, ◌≤◌, ◌∷◌, leb, if◌then◌else◌, String, Bool, true, false, ◌&&◌, ◌≡◌, refl,
  ap, ◌∙◌, Option, none, some, List, [], ◌++◌, map, keep, length, ◌==◌, take, page_of, sort, newer,
  page_of-bounded, map-IsSorted, map-take, length-sort, IsSorted, sort-IsSorted, arith,
  length-append, length-map, Page,
}
use kreav.Base.Int.{ℤ, pos}
use kreav.App.{App, World, ok, gets}
use kreav.Store.{Db, RecipientType, SettlementStatus, Wallet, Withdrawal, WithdrawalStatus}
use kreav.Store.Query.{find_wallet}

pub record RecipientRow : Type 0 where
  pub id : String
  pub wallet_address : String
  pub recipient_type : RecipientType
  pub role : String
  pub percentage : ℕ
  pub amount : ℤ
  pub order_id : String
  pub tx_hash : String
  pub total_amount : ℕ
  pub status : SettlementStatus
  pub created_at : ℕ

pub data Kind : Type 0 where
  settlement withdrawal : Kind

pub data Direction : Type 0 where
  credit debit : Direction

pub data TransactionStatus : Type 0 where
  settlement_status : SettlementStatus → TransactionStatus
  withdrawal_status : WithdrawalStatus → TransactionStatus

pub record WalletTransaction : Type 0 where
  pub id : String
  pub kind : Kind
  pub direction : Direction
  pub order_id : String
  pub tx_hash : String
  pub total_amount : ℕ
  pub amount : ℤ
  pub recipient_type : Option RecipientType
  pub role : String
  pub percentage : Option ℕ
  pub destination : String
  pub status : TransactionStatus
  pub created_at : ℕ

abbrev pub direction_of : RecipientType → Direction
direction_of RecipientType.creator = credit
direction_of _ = debit

abbrev pub of_recipient : RecipientRow → WalletTransaction
of_recipient r = record {
  id = r.id;
  kind = settlement;
  direction = direction_of r.recipient_type;
  order_id = r.order_id;
  tx_hash = r.tx_hash;
  total_amount = r.total_amount;
  amount = r.amount;
  recipient_type = some r.recipient_type;
  role = r.role;
  percentage = some r.percentage;
  destination = "";
  status = settlement_status r.status;
  created_at = r.created_at;
}

abbrev or_empty : Option String → String
or_empty none = ""
or_empty (some s) = s

abbrev pub of_withdrawal : Withdrawal → WalletTransaction
of_withdrawal w = record {
  id = w.id;
  kind = withdrawal;
  direction = debit;
  order_id = "";
  tx_hash = or_empty w.tx_hash;
  total_amount = w.amount;
  amount = pos w.amount;
  recipient_type = none;
  role = "";
  percentage = none;
  destination = w.destination_type;
  status = withdrawal_status w.status;
  created_at = w.created_at;
}

abbrev row_time : RecipientRow → ℕ
row_time r = r.created_at

abbrev withdrawal_time : Withdrawal → ℕ
withdrawal_time w = w.created_at

abbrev transaction_time : WalletTransaction → ℕ
transaction_time t = t.created_at

abbrev pub is_completed : WithdrawalStatus → Bool
is_completed WithdrawalStatus.done = true
is_completed _ = false

-- The two queries, before `take`
abbrev pub settlements_of : String → List RecipientRow → List RecipientRow
settlements_of address rows = sort (newer row_time) (keep (λ r. r.wallet_address == address) rows)

abbrev pub withdrawals_of : Option Wallet → Db → List Withdrawal
withdrawals_of none d = []
withdrawals_of (some v) d =
    sort (newer withdrawal_time)
      (keep (λ w. w.creator_id == v.creator_id && is_completed w.status) d.withdrawals)

-- `[...settlementTx, ...withdrawalTx].sort(...)`
pub merged : List RecipientRow → List Withdrawal → List WalletTransaction
merged rows withdrawals =
    sort (newer transaction_time) (map of_recipient rows ++ map of_withdrawal withdrawals)

pub history_page : String → ℕ → ℕ → List RecipientRow → Db → Page WalletTransaction
unfolding merged
history_page address page limit rows d =
    let bounded_take = page * limit * 2 in
    let all =
      merged (take bounded_take (settlements_of address rows))
        (take bounded_take (withdrawals_of (find_wallet address d) d)) in
    record { data_rows = page_of page limit all; page = page; limit = limit; total = length all }

module _ {N : Type 0} where
  pub get_transactions : String → ℕ → ℕ → List RecipientRow → App N (Page WalletTransaction)
  unfolding history_page
  get_transactions address page limit rows = gets (history_page address page limit rows)

-- The history as a whole.
abbrev pub history : String → List RecipientRow → Db → List WalletTransaction
history address rows d =
    merged (settlements_of address rows) (withdrawals_of (find_wallet address d) d)

withdrawals-IsSorted :
    (v : Option Wallet) (d : Db) → IsSorted (newer withdrawal_time) (withdrawals_of v d)
withdrawals-IsSorted none d = tt
withdrawals-IsSorted (some v) d =
    sort-IsSorted withdrawal_time
      (keep (λ w. w.creator_id == v.creator_id && is_completed w.status) d.withdrawals)

merged-bounded :
    (page limit : ℕ) (rows : List RecipientRow) (ws : List Withdrawal)
    → 1 ≤ page
    → IsSorted (newer row_time) rows
    → IsSorted (newer withdrawal_time) ws
    → page_of page limit (merged (take (page * limit * 2) rows) (take (page * limit * 2) ws))
      ≡ page_of page limit (merged rows ws)
unfolding merged
merged-bounded page limit rows ws h p q =
    let bound = page * limit * 2 in
    let enough : page * limit ≤ bound = omega arith in
    ap
      (λ l.
        page_of page limit (sort (newer transaction_time) (l ++ map of_withdrawal (take bound ws))))
      (map-take of_recipient row_time transaction_time bound rows)
    ∙ ap
        (λ l.
          page_of page limit
            (sort (newer transaction_time) (take bound (map of_recipient rows) ++ l)))
        (map-take of_withdrawal withdrawal_time transaction_time bound ws)
    ∙ page_of-bounded transaction_time page limit bound (map of_recipient rows)
        (map of_withdrawal ws) h enough
        (map-IsSorted of_recipient row_time transaction_time (λ x. refl) rows p)
        (map-IsSorted of_withdrawal withdrawal_time transaction_time (λ x. refl) ws q)

length-merged :
    (rows : List RecipientRow) (ws : List Withdrawal)
    → length (merged rows ws) ≡ length rows + length ws
unfolding merged
length-merged rows ws =
    length-sort (newer transaction_time) (map of_recipient rows ++ map of_withdrawal ws)
    ∙ length-append (map of_recipient rows) (map of_withdrawal ws)
    ∙ omega (arith, length-map of_recipient rows, length-map of_withdrawal ws)

-- A page of a wallet's transactions is that page of its whole history, settlements and completed
-- withdrawals together, the newest first, although only twice the rows up to that page are read of
-- either; nothing changes.
pub get_transactions-page :
    {N : Type 0} (address : String) (page limit : ℕ) (rows : List RecipientRow) (w : World N)
    → 1 ≤ page
    → (get_transactions address page limit rows w
        ≡ (ok (history_page address page limit rows w.db), w))
      × ((history_page address page limit rows w.db).data_rows
          ≡ page_of page limit (history address rows w.db))
unfolding get_transactions history_page
get_transactions-page address page limit rows w h = (
  refl,
  merged-bounded page limit (settlements_of address rows)
      (withdrawals_of (find_wallet address w.db) w.db) h
      (sort-IsSorted row_time (keep (λ r. r.wallet_address == address) rows))
      (withdrawals-IsSorted (find_wallet address w.db) w.db),
)

abbrev pub least : ℕ → ℕ → ℕ
least m n = if leb m n then m else n

length-take-least : {A : Type 0} (n : ℕ) (xs : List A) → length (take n xs) ≡ least n (length xs)
length-take-least zero xs = ground arith
length-take-least (suc n) [] = ground arith
length-take-least (suc n) (x ∷ xs) = ground (arith, length-take-least n xs)

-- The total that goes with a page counts of the settlements, and of the withdrawals, no more than
-- twice the rows up to that page: it is the length of the history only if there are no more.
pub get_transactions-total :
    (address : String) (page limit : ℕ) (rows : List RecipientRow) (d : Db)
    → (history_page address page limit rows d).total
      ≡ least (page * limit * 2) (length (settlements_of address rows))
        + least (page * limit * 2) (length (withdrawals_of (find_wallet address d) d))
unfolding history_page
get_transactions-total address page limit rows d =
    let bound = page * limit * 2 in
    let a = settlements_of address rows in
    let b = withdrawals_of (find_wallet address d) d in
    length-merged (take bound a) (take bound b)
    ∙ ap (λ n. n + length (take bound b)) (length-take-least bound a)
    ∙ ap (λ n. least bound (length a) + n) (length-take-least bound b)
