-- ===== src/Tests/Contract.antt =====
-- The contract pays the author and the editor of the shop.
use kreav.Base.{ℕ, suc, String, Bool, true, some, Option, List, [], ◌∷◌, ◌≡◌, ◌≢◌, map, refl, arith}
use kreav.Base.Int.{ℤ, pos}
use kreav.Store.{Collaborator}
use kreav.Stellar.Split.{to_base_units, creator_amounts}
use kreav.Stellar.Recording.{to_recipient, settlement_row}
use kreav.Contract.{done, Recipient, Ledger, settle, is_settled, pay_all}
use kreav.Contract.Validated.{sent}
use kreav.Contract.Pays.{settled_ledger, settle-refines}
use kreav.Contract.Once.{start, settle-once}
use kreav.Tests.Data.{author, editor}

-- A token that counts its transfers.
abbrev transfer : String → String → ℤ → ℕ → Option ℕ
transfer from to amount t = some (suc t)

abbrev auth : String → Bool
auth address = true

abbrev deployed : Ledger ℕ
deployed = record {
  platform_wallet = some "GP";
  usdc_sac = some "CU";
  settlements = [];
  token = 0;
  paid = [];
  executed = [];
}

abbrev team : List Collaborator
team = author ∷ editor ∷ []

abbrev after : Ledger ℕ
after =
    settled_ledger transfer "o1" (settlement_row "o1" 1001 "T1" team) (to_base_units 1001) 2 2
      deployed

settle-refines_example :
    (settle transfer auth "o1"
        (pos (to_base_units 1001))
        (map sent (map to_recipient team))
        deployed
      ≡ done after)
    × (is_settled transfer "o1" after ≡ true)
unfolding pay_all creator_amounts
settle-refines_example =
    settle-refines transfer auth "o1" "T1" "GP" "CU" 1001 team deployed 2 refl
      (omega arith, (omega arith, tt)) (refl, (refl, tt)) (omega arith) (omega arith) refl refl refl
      refl refl

abbrev alone : List Recipient
alone = record { address = "GA"; share_bps = pos 10000 } ∷ []

abbrev paid_alone : Ledger ℕ
paid_alone = record deployed {
  settlements = "o1" ∷ [];
  token = 1;
  paid = record { order_ref = "o1"; address = "GA"; amount = pos 95 } ∷ [];
  executed =
      record {
        order_ref = "o1";
        total_amount = 100;
        platform_fee_amount = 5;
        creator_pool_amount = 95;
        recipient_count = 1;
      }
      ∷ [];
}

settle-once_example : settle transfer auth "o1" (pos 7) alone paid_alone ≢ done paid_alone
unfolding settle
settle-once_example =
    settle-once transfer auth auth "o1" (pos 100) (pos 7) alone alone deployed paid_alone paid_alone
      paid_alone refl start
