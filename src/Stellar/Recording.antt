-- ===== src/Stellar/Recording.antt =====
-- How a settlement is written into the database (the recording half of settlement.service.ts).
pub mod Laws
use kreav.Base.{
  ◌==◌, ℕ, suc, ◌*◌, ◌+◌, ◌/◌, String, Bool, true, false, not, Option, none, some, List, [], ◌∷◌,
  ◌++◌, map, is_some, if◌then◌else◌,
}
use kreav.Base.Int.{ℤ, pos, negsuc, sub_ℕ}
use kreav.App.{
  App, unique_violation, settlement_completed, Event, pure, gets, modify, emit, throw_if, ◌>>=◌,
  ◌>>◌,
}
use kreav.Orders.Machine.{OrderStatus}
use kreav.Store.{
  Db, Collaborator, Order, Settlement, SettlementRecipient, SettlementStatus, RecipientType,
}
use kreav.Store.Query.{find_order, find_settlement, active_collaborators, update_order, with_status}
use kreav.Stellar.Split.{RecipientInput, to_base_units, platform_fee, creator_pool, creator_amounts}
use Prim.Native.String

-- A Decimal(5,2) percentage times 100: its number of hundredths.
abbrev pub to_recipient : Collaborator → RecipientInput
to_recipient c = record { address = c.wallet_address; share_bps = c.revenue_percentage }

abbrev platform_row : ℕ → SettlementRecipient
platform_row fee = record {
  wallet_address = "";
  recipient_type = RecipientType.platform;
  role = "Platform Fee";
  percentage = 500;
  amount = pos fee;
}

-- The creators' rows; `recipients[i]` is made from `collaborators[i]`.
abbrev pub creator_rows : List Collaborator → List ℤ → List SettlementRecipient
creator_rows (c ∷ cs) (a ∷ amounts) =
    (record {
      wallet_address = c.wallet_address;
      recipient_type = RecipientType.creator;
      role = c.role;
      percentage = c.revenue_percentage;
      amount = a;
    })
    ∷ creator_rows cs amounts
creator_rows _ _ = []

-- The row that is handed to the database, in base units.
abbrev pub settlement_row : String → ℕ → String → List Collaborator → Settlement
settlement_row id amount_usd tx_hash collaborators =
    let total = to_base_units amount_usd in
    record {
      order_id = id;
      total_amount = amount_usd;
      tx_hash = tx_hash;
      status = SettlementStatus.completed;
      recipients =
          platform_row (platform_fee total)
          ∷ creator_rows collaborators
              (creator_amounts (creator_pool total) (map to_recipient collaborators));
    }

-- `toFixed(2)` of base units: the nearest cent, a half rounded up.
abbrev pub to_fixed : ℕ → ℕ
to_fixed n = (n + 50000) / 100000

-- The event's amounts are in cents.
abbrev pub completed_event : String → ℕ → String → Event
completed_event id amount_usd tx_hash = settlement_completed (record {
  order_id = id;
  tx_hash = tx_hash;
  creator_amount = to_fixed (creator_pool (to_base_units amount_usd));
  platform_amount = to_fixed (platform_fee (to_base_units amount_usd));
})

-- `if (knownTxHash)`: an empty text counts as none.
abbrev pub truthy : Option String → Option String
truthy none = none
truthy (some s) = if s == "" then none else some s

-- A Decimal(18,2) column: the database rounds to the nearest cent, a half away from zero.
abbrev pub stored_amount : ℤ → ℤ
stored_amount (pos n) = pos (to_fixed n * 100000)
stored_amount (negsuc n) = sub_ℕ 0 (to_fixed (suc n) * 100000)

abbrev pub stored_recipient : SettlementRecipient → SettlementRecipient
stored_recipient r = record r { amount = stored_amount r.amount }

abbrev pub add_settlement : Settlement → Db → Db
add_settlement s d = record d {
  settlements = d.settlements ++ record s { recipients = map stored_recipient s.recipients } ∷ [];
}

abbrev pub settled_as : String → Order → Order
settled_as tx_hash o = record o { status = OrderStatus.settled; tx_hash = some tx_hash }

module _ {N : Type 0} where
  -- `recordSettlementSuccess`: `Settlement.orderId` is unique.
  unfoldable pub record_settlement_success :
      String → ℕ → String → List Collaborator → App N (Unit {0})
  record_settlement_success id amount_usd tx_hash collaborators = do
    throw_if (is_some (← gets (find_settlement id))) unique_violation
    modify (add_settlement (settlement_row id amount_usd tx_hash collaborators))
    update_order id (settled_as tx_hash)
    emit (completed_event id amount_usd tx_hash)

  -- `recordRecoveredSettlement`, for an order that was found.
  unfoldable pub record_found : Order → String → App N (Unit {0})
  record_found o tx_hash = do
    collaborators ← gets (active_collaborators o.product_id)
    elim collaborators [
      | [] ↦ update_order o.id (with_status OrderStatus.settlement_failed)
      | c ∷ cs ↦ record_settlement_success o.id o.amount_usd tx_hash (c ∷ cs)
    ]

  -- `recordRecoveredSettlement`; a missing order is logged.
  unfoldable pub record_recovered_settlement : String → String → App N (Unit {0})
  unfolding record_found
  record_recovered_settlement id tx_hash = do
    found ← gets (find_order id)
    elim found [ none ↦ pure tt | some o ↦ record_found o tx_hash ]

  -- `recoverAlreadySettled`, by what the database and the order know of the settlement.
  unfoldable pub recover_by :
      String → ℕ → List Collaborator → Option Settlement → Option String → App N (Unit {0})
  recover_by id amount_usd collaborators (some s) known_tx_hash =
      update_order id (settled_as s.tx_hash)
  recover_by id amount_usd collaborators none (some tx_hash) =
      record_settlement_success id amount_usd tx_hash collaborators
  recover_by id amount_usd collaborators none none = do
    update_order id (with_status OrderStatus.settled)
    record_recovered_settlement id (String.◌++◌ "recovery-" (String.slice id 0 8))

  unfoldable pub recover_already_settled :
      String → ℕ → Option String → List Collaborator → App N (Unit {0})
  recover_already_settled id amount_usd known_tx_hash collaborators = do
    existing ← gets (find_settlement id)
    recover_by id amount_usd collaborators existing (truthy known_tx_hash)
