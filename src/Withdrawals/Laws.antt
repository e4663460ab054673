-- ===== src/Withdrawals/Laws.antt =====
-- What a request for a withdrawal does (`requestWithdrawal`).
use kreav.Base.{
  ℕ, String, true, false, Option, none, some, List, [], ◌∷◌, ◌++◌, ◌≡◌, refl, ap, ◌∙◌, arith, inl,
  inr, Bool-cases, Option-cases, eq_iff,
}
use kreav.Base.Int.{pos, ltb_ℤ}
use kreav.App.{World, Result, ok, err, domain}
use kreav.Store.{Db, Wallet, Withdrawal, WithdrawalStatus}
use kreav.Store.Table.{find_by, update_by}
use kreav.Store.Query.{find_wallet}
use kreav.Stellar.Split.{to_base_units}
use kreav.Withdrawals.{
  Receipt, withdrawal_id, reference_of, set_withdrawals, withdrawable_balance, total_withdrawn,
  last_settlement, hash_of, request_withdrawal, create_withdrawal, update_withdrawal, as_processing,
  receipt_of,
}

find_by-last :
    (k : String) (ws : List Withdrawal) (x : Withdrawal)
    → find_by withdrawal_id k ws ≡ none
    → x.id ≡ k
    → find_by withdrawal_id k (ws ++ x ∷ []) ≡ some x
unfolding find_by
find_by-last k [] x free same = ground (arith, eq_iff x.id k)
find_by-last k (w ∷ ws) x free same = ground (arith, find_by-last k ws x)

update_by-last :
    (k : String) (f : Withdrawal → Withdrawal) (ws : List Withdrawal) (x : Withdrawal)
    → find_by withdrawal_id k ws ≡ none
    → x.id ≡ k
    → update_by withdrawal_id k f (ws ++ x ∷ []) ≡ ws ++ f x ∷ []
unfolding find_by update_by
update_by-last k f [] x free same = ground (arith, eq_iff x.id k)
update_by-last k f (w ∷ ws) x free same = ground (arith, update_by-last k f ws x)

abbrev as_requested : Withdrawal → Withdrawal
as_requested w = record w { status = WithdrawalStatus.requested }

module _ (id reference : String) (now : ℕ) (address : String) (amount : ℕ)
    (destination_type destination_account : String) where
  -- The row that a request leaves.
  abbrev pub requested_row : String → Option String → Withdrawal
  requested_row creator_id tx_hash = record {
    id = id;
    creator_id = creator_id;
    settlement_tx_hash = tx_hash;
    amount = amount;
    destination_type = destination_type;
    destination_account = destination_account;
    reference = reference;
    status = WithdrawalStatus.processing;
    anchor_transaction_id = none;
    tx_hash = none;
    created_at = now;
    completed_at = none;
  }

  abbrev pub row_in : Wallet → Db → Withdrawal
  row_in wallet d =
      requested_row wallet.creator_id (hash_of (last_settlement address d.settlements))

  abbrev pub requested_world : {N : Type 0} → Wallet → World N → World N
  requested_world wallet w = record w {
    db = set_withdrawals (λ ws. ws ++ row_in wallet w.db ∷ []) w.db;
  }

  -- How a request ends: no wallet, too little balance, or one more row, which is PROCESSING.
  pub data Requested {N : Type 0} (w : World N) (x : Result Receipt × World N) : Type 0 where
    no_wallet :
        find_wallet address w.db ≡ none
        → x ≡ (err (domain "WALLET_NOT_FOUND" 404), w)
        → Requested w x
    refused :
        ltb_ℤ (withdrawable_balance address w.db) (pos (to_base_units amount)) ≡ true
        → x ≡ (err (domain "INSUFFICIENT_BALANCE" 400), w)
        → Requested w x
    accepted :
        (wallet : Wallet)
        → find_wallet address w.db ≡ some wallet
        → ltb_ℤ (withdrawable_balance address w.db) (pos (to_base_units amount)) ≡ false
        → x ≡ (
          ok (receipt_of (row_in wallet w.db) (withdrawable_balance address w.db)),
          requested_world wallet w,
        )
        → Requested w x

  -- Every request whose id and reference are new ends in one of these ways.
  pub request_withdrawal-Requested :
      {N : Type 0} (w : World N)
      → find_by withdrawal_id id w.db.withdrawals ≡ none
      → find_by reference_of reference w.db.withdrawals ≡ none
      → Requested w (
          request_withdrawal id reference now address amount destination_type destination_account w)
  unfolding request_withdrawal create_withdrawal update_withdrawal
  request_withdrawal-Requested w new_id new_reference =
      elim (Option-cases (find_wallet address w.db)) [
        | inl missing ↦ no_wallet missing (ground (arith, missing))
        | inr (wallet, found) ↦
            elim (Bool-cases
              (ltb_ℤ (withdrawable_balance address w.db) (pos (to_base_units amount)))) [
                | inl low ↦ refused low (ground (arith, found, low))
                | inr enough ↦ accepted wallet found enough (
                    ground (
                      arith,
                      found,
                      enough,
                      new_reference,
                      find_by-last id w.db.withdrawals (as_requested (row_in wallet w.db)) new_id
                          refl,
                      update_by-last id as_processing w.db.withdrawals
                          (as_requested (row_in wallet w.db)) new_id refl,
                    ))
              ]
      ]

processing_uncounted :
    (creator_id : String) (ws : List Withdrawal) (x : Withdrawal)
    → x.status ≡ WithdrawalStatus.processing
    → total_withdrawn creator_id (ws ++ x ∷ []) ≡ total_withdrawn creator_id ws
unfolding total_withdrawn
processing_uncounted creator_id [] x p = ground (arith, p)
processing_uncounted creator_id (w ∷ ws) x p =
    ground (arith, processing_uncounted creator_id ws x p)

balance_uncounted :
    (address : String) (d : Db) (x : Withdrawal)
    → x.status ≡ WithdrawalStatus.processing
    → withdrawable_balance address (set_withdrawals (λ ws. ws ++ x ∷ []) d)
      ≡ withdrawable_balance address d
unfolding withdrawable_balance
balance_uncounted address d x p = go (find_wallet address d) refl
  where
    go :
        (wallet : Option Wallet)
        → find_wallet address d ≡ wallet
        → withdrawable_balance address (set_withdrawals (λ ws. ws ++ x ∷ []) d)
          ≡ withdrawable_balance address d
    go none e = ground (arith, e)
    go (some v) e = ground (arith, e, processing_uncounted v.creator_id d.withdrawals x p)

-- A request that was accepted leaves the withdrawable balance as it was, so that a second request
-- for the same amount is accepted as well, whatever the balance was.
pub request_withdrawal-again :
    {N : Type 0} (id later_id reference later_reference : String) (now later : ℕ) (address : String)
    (amount : ℕ) (kind account : String) (w : World N) (r : Receipt)
    → find_by withdrawal_id id w.db.withdrawals ≡ none
    → find_by reference_of reference w.db.withdrawals ≡ none
    → (request_withdrawal id reference now address amount kind account w).0 ≡ ok r
    → let v = (request_withdrawal id reference now address amount kind account w).1 in
      find_by withdrawal_id later_id v.db.withdrawals ≡ none
      → find_by reference_of later_reference v.db.withdrawals ≡ none
      → (withdrawable_balance address v.db ≡ withdrawable_balance address w.db)
        × ((s : Receipt) × ((request_withdrawal later_id later_reference later address amount kind
                account v).0
              ≡ ok s))
request_withdrawal-again {N} id later_id reference later_reference now later address amount kind
      account w r new_id new_ref was_ok new_id' new_ref' =
    first (request_withdrawal id reference now address amount kind account w)
      (request_withdrawal-Requested id reference now address amount kind account w new_id new_ref)
      was_ok new_id' new_ref'
  where
    second :
        (v : World N) (x : Result Receipt × World N) (wallet : Wallet)
        → find_wallet address v.db ≡ some wallet
        → ltb_ℤ (withdrawable_balance address v.db) (pos (to_base_units amount)) ≡ false
        → Requested later_id later_reference later address amount kind account v x
        → (s : Receipt) × (x.0 ≡ ok s)
    second v x wallet found enough (no_wallet missing e) = absurd (cc (missing, found))
    second v x wallet found enough (refused low e) = absurd (cc (low, enough))
    second v x wallet found enough (accepted u _ _ e) = (_, ap (λ y. y.0) e)

    first :
        (x : Result Receipt × World N)
        → Requested id reference now address amount kind account w x
        → x.0 ≡ ok r
        → find_by withdrawal_id later_id x.1.db.withdrawals ≡ none
        → find_by reference_of later_reference x.1.db.withdrawals ≡ none
        → (withdrawable_balance address x.1.db ≡ withdrawable_balance address w.db)
          × ((s : Receipt) × ((request_withdrawal later_id later_reference later address amount kind
                  account x.1).0
                ≡ ok s))
    first x (no_wallet missing e) k n m = absurd (ground arith)
    first x (refused low e) k n m = absurd (ground arith)
    first (y, v) (accepted wallet found enough e) k n m =
        let there : v ≡ requested_world id reference now address amount kind account wallet w =
          ap (λ y. y.1) e in
        let same : withdrawable_balance address v.db ≡ withdrawable_balance address w.db =
          ap (λ (u : World N). withdrawable_balance address u.db) there
          ∙ balance_uncounted address w.db
              (row_in id reference now address amount kind account wallet w.db) refl in
        (
          same,
          second v (request_withdrawal later_id later_reference later address amount kind account v)
              wallet (ap (λ (u : World N). find_wallet address u.db) there ∙ found)
              (ap (λ b. ltb_ℤ b (pos (to_base_units amount))) same ∙ enough)
              (request_withdrawal-Requested later_id later_reference later address amount kind
                account v n m),
        )
