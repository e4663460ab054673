-- ===== src/Withdrawals/Listing.antt =====
-- A wallet's withdrawals by pages (backend/src/withdrawals/withdrawals.service.ts:
-- `listWithdrawals`). What an entry repeats from constants is left out.
use kreav.Base.{
  ℕ, zero, suc, ◌*◌, ◌≤◌, String, ◌≡◌, refl, ap, ◌∙◌, Option, none, some, List, [], ◌++◌, map, keep,
  length, ◌==◌, Page, page_with, walked, walked-all, newest_first,
}
use kreav.App.{App, World, ok, gets}
use kreav.Store.{Db, Wallet, Withdrawal, WithdrawalStatus}
use kreav.Store.Query.{find_wallet}

pub record Entry : Type 0 where
  pub withdrawal_id : String
  pub reference : String
  pub status : WithdrawalStatus
  pub amount : ℕ
  pub destination_type : String
  pub destination_account : String
  pub requested_at : ℕ
  pub completed_at : Option ℕ
  pub settlement_tx_hash : Option String

abbrev pub to_entry : Withdrawal → Entry
to_entry w = record {
  withdrawal_id = w.id;
  reference = w.reference;
  status = w.status;
  amount = w.amount;
  destination_type = w.destination_type;
  destination_account = w.destination_account;
  requested_at = w.created_at;
  completed_at = w.completed_at;
  settlement_tx_hash = w.settlement_tx_hash;
}

pub record Listed : Type 0 where
  pub address : String
  pub withdrawals : Page Entry

abbrev pub withdrawals_by : String → Db → List Withdrawal
withdrawals_by creator d = keep (λ w. w.creator_id == creator) d.withdrawals

-- An address that is no wallet has no withdrawals.
pub page_of_withdrawals : Option Wallet → ℕ → ℕ → Db → Page Entry
unfolding page_with
page_of_withdrawals none page limit d = record {
  data_rows = [];
  page = page;
  limit = limit;
  total = 0;
}
page_of_withdrawals (some w) page limit d =
    page_with to_entry page limit (withdrawals_by w.creator_id d)

module _ {N : Type 0} where
  pub list_withdrawals : String → ℕ → ℕ → App N Listed
  unfolding page_of_withdrawals
  list_withdrawals address page limit = gets (λ d. record {
    address = address;
    withdrawals = page_of_withdrawals (find_wallet address d) page limit d;
  })

-- The entries of the first `n` pages of an address.
abbrev pub entries : String → ℕ → ℕ → Db → List Entry
entries address zero limit d = []
entries address (suc n) limit d =
    entries address n limit d
    ++ (page_of_withdrawals (find_wallet address d) (suc n) limit d).data_rows

entries-walked :
    (address : String) (n limit : ℕ) (d : Db) (w : Wallet)
    → find_wallet address d ≡ some w
    → entries address n limit d ≡ walked to_entry n limit (withdrawals_by w.creator_id d)
unfolding page_of_withdrawals
entries-walked address zero limit d w e = refl
entries-walked address (suc n) limit d w e =
    ap
      (λ (o : Option Wallet).
        entries address n limit d ++ (page_of_withdrawals o (suc n) limit d).data_rows)
      e
    ∙ ap (λ l. l ++ (page_with to_entry (suc n) limit (withdrawals_by w.creator_id d)).data_rows)
        (entries-walked address n limit d w e)

-- Enough pages show every withdrawal of the creator who owns the wallet once, the newest first, and
-- no other; every page says how many there are, and the list changes nothing.
pub list_withdrawals-all :
    {N : Type 0} (address : String) (n limit : ℕ) (v : World N) (w : Wallet)
    → find_wallet address v.db ≡ some w
    → length (keep (λ x. x.creator_id == w.creator_id) v.db.withdrawals) ≤ n * limit
    → ((page : ℕ)
        → list_withdrawals address page limit v ≡ (
          ok (record {
            address = address;
            withdrawals = page_of_withdrawals (some w) page limit v.db;
          }),
          v,
        ))
      × ((page : ℕ)
          → (page_of_withdrawals (some w) page limit v.db).total
            ≡ length (keep (λ x. x.creator_id == w.creator_id) v.db.withdrawals))
      × (entries address n limit v.db
          ≡ map to_entry (newest_first (keep (λ x. x.creator_id == w.creator_id) v.db.withdrawals)))
unfolding list_withdrawals page_of_withdrawals page_with
list_withdrawals-all address n limit v w e h = (
  λ page.
      ap
        (λ (o : Option Wallet). (
          ok (record { address = address; withdrawals = page_of_withdrawals o page limit v.db }),
          v,
        ))
        e,
  λ page. refl,
  entries-walked address n limit v.db w e
      ∙ walked-all to_entry n limit (withdrawals_by w.creator_id v.db) h,
)
