-- ===== src/Tests/Sponsorship.antt =====
-- A trustline that Ana signs, and the payment of a withdrawal.
use kreav.Base.{ℕ, suc, true, none, some, [], ◌∷◌, ◌≡◌, ◌⊎◌, refl}
use kreav.App.{World, ok, err, Exn, bad_request, http_not_found}
use kreav.Orders.Machine.{OrderStatus}
use kreav.Stellar.Horizon.{HorizonServer, get_usdc_balance}
use kreav.Stellar.Sponsorship.{
  Transaction, Sdk, Submission, sponsored_tx, sign, payment, by_source, usdc, withdraw_tx,
  memo_none, prepare_sponsored_trustline, submit_sponsored_trustline, submit_attempts,
  submit_withdraw_payment, submit_once, find_begin, find_change_trust, has_end,
}
use kreav.Stellar.Sponsorship.Laws.{IsOurs, submit_sponsored_trustline-cases}
use kreav.Stellar.Sponsorship.Roundtrip.{
  extended, IsWithdrawal, submit_sponsored_trustline-of_prepared,
  submit_sponsored_trustline-extended, submit_withdraw_payment-cases,
}
use kreav.Tests.Data.{config, world_in}

abbrev pub new_account : HorizonServer ℕ
new_account = record { load_account = λ a n. (err http_not_found, n) }

-- An XDR is the transaction that it stands for.
abbrev pub sdk : Sdk ℕ Transaction
sdk = record {
  public_key = λ s. "GP";
  base_fee = 100;
  to_xdr = λ t. t;
  from_xdr = λ t. some t;
  load_account = λ a n. (ok 7, n);
  submit_transaction = λ t n. (Submission.submitted "H1", suc n);
}

abbrev trustline : Transaction
trustline = sponsored_tx config new_account sdk "GA" "S" true 7 5

abbrev withdrawal : Transaction
withdrawal = withdraw_tx config new_account sdk "GA" "GX" 1000 memo_none 7 5

abbrev more : Transaction
more = extended config new_account sdk trustline (by_source (payment "GX" (usdc config) 1000) ∷ [])

abbrev shop : World ℕ
shop = world_in OrderStatus.created

submit_sponsored_trustline-cases_example :
    let x = submit_sponsored_trustline config new_account sdk trustline "GA" shop in
    ((sdk.from_xdr trustline ≡ none) × (x ≡ (err bad_request, shop)))
    ⊎ ((tx : Transaction) × (sdk.from_xdr trustline ≡ some tx)
        × IsOurs config new_account sdk tx "GA"
        × (x ≡ submit_attempts config new_account sdk 3 tx shop))
    ⊎ ((tx : Transaction) × (sdk.from_xdr trustline ≡ some tx)
        × (¬ IsOurs config new_account sdk tx "GA")
        × (e : Exn) × (x ≡ (err e, shop)))
submit_sponsored_trustline-cases_example =
    submit_sponsored_trustline-cases config new_account sdk trustline "GA" shop

trustline-IsOurs : IsOurs config new_account sdk trustline "GA"
unfolding find_begin find_change_trust has_end
trustline-IsOurs = record {
  secret = "S";
  trust = record { line = some (usdc config); owner = some "GA" };
  key = refl;
  from_platform = refl;
  sponsors = refl;
  trusts = refl;
  asset = refl;
  owner = refl;
  ends = refl;
}

submit_sponsored_trustline-extended_example :
    submit_sponsored_trustline config new_account sdk more "GA" shop
    ≡ submit_attempts config new_account sdk 3 more shop
submit_sponsored_trustline-extended_example =
    submit_sponsored_trustline-extended config new_account sdk more "GA" trustline
      (by_source (payment "GX" (usdc config) 1000) ∷ []) shop refl trustline-IsOurs

submit_withdraw_payment-cases_example :
    let x = submit_withdraw_payment config new_account sdk withdrawal "GA" shop in
    ((tx : Transaction) × (sdk.from_xdr withdrawal ≡ some tx)
      × IsWithdrawal config new_account sdk tx "GA"
      × (x ≡ submit_once config new_account sdk tx shop))
    ⊎ (¬ (
          (tx : Transaction) × (sdk.from_xdr withdrawal ≡ some tx)
          × IsWithdrawal config new_account sdk tx "GA")
        × (x ≡ (err bad_request, shop)))
submit_withdraw_payment-cases_example =
    submit_withdraw_payment-cases config new_account sdk withdrawal "GA" shop

submit_sponsored_trustline-of_prepared_example :
    submit_sponsored_trustline config new_account sdk (sdk.to_xdr (sign "GA" trustline)) "GA" shop
    ≡ submit_attempts config new_account sdk 3 (sign "GA" trustline) shop
unfolding prepare_sponsored_trustline get_usdc_balance
submit_sponsored_trustline-of_prepared_example =
    submit_sponsored_trustline-of_prepared config new_account sdk "GA" "GA" 5 shop shop shop
      (record { xdr = trustline; creates_account = true }) trustline (λ t. refl) refl refl
