-- ===== src/Tests/Anchor.antt =====
-- Ana polls the anchor for her withdrawal.
use kreav.Base.{ℕ, suc, true, false, none, some, [], ◌∷◌, ◌≡◌, ◌⊎◌, refl, arith, eq_iff}
use kreav.App.{World, ok, err, Exn, bad_gateway, forbidden}
use kreav.Store.{WithdrawalStatus}
use kreav.Anchor.{
  challenge, post_auth_verify, build_payment, submit_payment, Reply, AnchorConfig, AnchorServer,
  AnchorTransaction, anchor_row, transaction, as_result, map_status,
}
use kreav.Anchor.Laws.{Answers, MirrorAll, transaction-cases}
use kreav.Products.{latest_wallet_of}
use kreav.Stellar.Sponsorship.{
  Transaction, withdraw_tx, memo_none, build_withdraw_payment, submit_withdraw_payment,
}
use kreav.Tests.Sponsorship.{sdk, new_account}
use kreav.Tests.Data.{db_with, config}

abbrev pub anchors : AnchorConfig
anchors = record { anchor_enabled = true; anchor_home_domain = "anchor.io" }

abbrev completed : AnchorTransaction
completed = record {
  id = "a1";
  status = "completed";
  withdraw_anchor_account = some "GX";
  withdraw_memo = none;
  withdraw_memo_type = none;
  amount_in = some 20000000;
}

abbrev anchor : AnchorServer ℕ
anchor = record {
  challenge = λ a n. (Reply.unreachable, n);
  verify = λ x n. (Reply.replied 200 (some "t1"), n);
  interactive =
      λ t a m n. (Reply.replied 201 (some (record { url = "https://anchor.io"; id = "a1" })), n);
  transaction = λ t i n. (Reply.replied 200 (some completed), suc n);
}

abbrev started : World ℕ
started = record {
  db = record (db_with [] []) {
    withdrawals = anchor_row anchors "w1" "c1" "a1" "KRV-WD-A-1" 10000000 3 ∷ [];
  };
  events = [];
  net = 0;
}

abbrev polled : World ℕ
polled = (transaction anchors anchor "c1" "a1" (some "t1") 9 started).1

is_mirrored :
    polled.db.withdrawals
    ≡ record (anchor_row anchors "w1" "c1" "a1" "KRV-WD-A-1" 10000000 3) {
      status = WithdrawalStatus.done;
      amount = 200;
      completed_at = some 9;
    }
      ∷ []
unfolding transaction as_result map_status
is_mirrored = refl

transaction-cases_example :
    let x = transaction anchors anchor "c1" "a1" (some "t1") 9 started in
    let y = anchor.transaction "t1" "a1" started.net in
    ((anchors.anchor_enabled ≡ false) × (x ≡ (err forbidden, started)))
    ⊎ ((anchors.anchor_enabled ≡ true)
        × ¬ ((tx : AnchorTransaction) × Answers anchors anchor y.0 tx)
        × ((e : Exn) × (x.0 ≡ err e))
        × (x.1.db ≡ started.db))
    ⊎ ((anchors.anchor_enabled ≡ true)
        × (tx : AnchorTransaction) × Answers anchors anchor y.0 tx
        × (x.0 ≡ ok tx)
        × MirrorAll anchors anchor "a1" "c1" tx 9 started.db.withdrawals x.1.db.withdrawals)
transaction-cases_example =
    transaction-cases anchors anchor "c1" "a1" "t1" 9 started
      (λ e. ground (arith, e, eq_iff "t1" ""))

challenge_unreachable : challenge anchors anchor "c1" started ≡ (err bad_gateway, started)
unfolding challenge as_result latest_wallet_of
challenge_unreachable = refl

verified : post_auth_verify anchors anchor "xdr" started ≡ (ok "t1", started)
unfolding post_auth_verify as_result
verified = refl

-- The payment that is built is the one that is relayed, and its hash is recorded.
abbrev built : Transaction
built = withdraw_tx config new_account sdk "GA" "GX" 20000000 memo_none 7 9

build_payment-built :
    (build_payment anchors anchor config new_account sdk "c1" "a1" (some "t1") 9 started).0
    ≡ ok built
unfolding build_payment as_result latest_wallet_of build_withdraw_payment
build_payment-built = refl

submit_payment_recorded :
    (submit_payment anchors anchor config new_account sdk "c1" "a1" built started).1.db.withdrawals
    ≡ record (anchor_row anchors "w1" "c1" "a1" "KRV-WD-A-1" 10000000 3) { tx_hash = some "H1" }
      ∷ []
unfolding submit_payment latest_wallet_of submit_withdraw_payment
submit_payment_recorded = refl
