-- ===== src/Stellar/Split.antt =====
-- The arithmetic of a settlement, in base units (seven decimals): the backend's copy in
-- settlement.service.ts (`recordSettlementSuccess`), and the helpers of the integration scripts
-- that state the same split (integration/helpers/assertion.ts).
pub mod Laws
pub mod Fair
use kreav.Base.{ℕ, ◌+◌, ◌-◌, ◌*◌, ◌/◌, String, List, [], ◌∷◌}
use kreav.Base.Int.{ℤ, pos, sub_ℕ}

-- `RecipientInput` (soroban-rpc.service.ts)
pub record RecipientInput : Type 0 where
  pub address : String
  pub share_bps : ℕ

abbrev pub bps_denominator : ℕ
bps_denominator = 10000

-- `new Decimal(amountUsd).mul(10 ** USDC_DECIMALS)`, from cents.
abbrev pub to_base_units : ℕ → ℕ
to_base_units cents = cents * 100000

abbrev pub platform_fee : ℕ → ℕ
platform_fee total = (total * 500) / 10000

abbrev pub creator_pool : ℕ → ℕ
creator_pool total = total - platform_fee total

-- The `map` with its running total `distributedBase`. A BigInt may become negative.
unfoldable pub amounts_from : ℕ → ℕ → List RecipientInput → List ℤ
amounts_from pool distributed [] = []
amounts_from pool distributed (r ∷ []) = sub_ℕ pool distributed ∷ []
amounts_from pool distributed (r ∷ s ∷ rs) =
    let amount = (pool * r.share_bps) / 10000 in
    pos amount ∷ amounts_from pool (distributed + amount) (s ∷ rs)

unfoldable pub creator_amounts : ℕ → List RecipientInput → List ℤ
unfolding amounts_from
creator_amounts pool recipients = amounts_from pool 0 recipients

-- `platformFeeAmount`, `creatorPoolAmount`, `recipientShareAmount`, `lastRecipientAmount`
abbrev pub platform_fee_bps : ℕ
platform_fee_bps = 500

pub platform_fee_amount : ℕ → ℕ
platform_fee_amount total_amount = (total_amount * platform_fee_bps) / bps_denominator

pub creator_pool_amount : ℕ → ℕ
unfolding platform_fee_amount
creator_pool_amount total_amount = total_amount - platform_fee_amount total_amount

pub recipient_share_amount : ℕ → ℕ → ℕ
recipient_share_amount pool share_bps = (pool * share_bps) / bps_denominator

sum_from : ℕ → List ℕ → ℕ
sum_from sum [] = sum
sum_from sum (a ∷ amounts) = sum_from (sum + a) amounts

pub last_recipient_amount : ℕ → List ℕ → ℤ
unfolding sum_from
last_recipient_amount pool previous_amounts = sub_ℕ pool (sum_from 0 previous_amounts)
