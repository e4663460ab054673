-- ===== src/Contract.antt =====
-- The settlement contract (smartcontract/src/lib.rs). The token's contract is a parameter: a transfer
-- gives its new state, or traps. What fails or traps leaves the ledger as it was, since the host
-- drops all of its writes. The lifetimes of storage entries are left out.
pub mod Validated
pub mod Pays
pub mod Once
use kreav.Base.{
  ℕ, zero, suc, ◌+◌, ◌-◌, ◌*◌, ◌/◌, String, Bool, true, false, Option, none, some, List, [], ◌∷◌,
  ◌++◌, map, length, any, ◌==◌, ltb, nat_eq, is_some, if◌then◌else◌,
}
use kreav.Base.Int.{ℤ, pos, negsuc, sub_ℕ, pos_part, ltb_ℤ}

pub data ContractError : Type 0 where
  already_initialized invalid_configuration not_initialized unauthorized_caller : ContractError
  order_already_settled invalid_total_amount empty_recipients too_many_recipients : ContractError
  invalid_recipient_address duplicate_recipient zero_allocation : ContractError
  invalid_allocation_sum arithmetic_overflow : ContractError

pub data Outcome (A : Type 0) : Type 0 where
  done : A → Outcome A
  failed : ContractError → Outcome A
  trapped : Outcome A

module _ {A : Type 0} where
  infixl 5 ◌>>=◌ ◌>>◌
  abbrev pub ◌>>=◌ : {B : Type 0} → Outcome A → (A → Outcome B) → Outcome B
  ◌>>=◌ m f = elim m [ done a ↦ f a | failed e ↦ failed e | trapped ↦ trapped ]

  abbrev pub ◌>>◌ : {B : Type 0} → Outcome A → Outcome B → Outcome B
  m >> k = m >>= λ _. k

  abbrev pub or_fail : Option A → ContractError → Outcome A
  or_fail none e = failed e
  or_fail (some a) e = done a

  abbrev pub or_trap : Option A → Outcome A
  or_trap none = trapped
  or_trap (some a) = done a

abbrev pub fail_if : Bool → ContractError → Outcome (Unit {0})
fail_if c e = if c then failed e else done tt

abbrev pub trap_if : Bool → Outcome (Unit {0})
trap_if c = if c then trapped else done tt

pub record Recipient : Type 0 where
  pub address : String
  pub share_bps : ℤ

-- The contract's events.
pub record RecipientPaid : Type 0 where
  pub order_ref : String
  pub address : String
  pub amount : ℤ

pub record SettlementExecuted : Type 0 where
  pub order_ref : String
  pub total_amount : ℕ
  pub platform_fee_amount : ℕ
  pub creator_pool_amount : ℕ
  pub recipient_count : ℕ

-- The contract's storage, the state of the token and the events that were published.
pub record Ledger (T : Type 0) : Type 0 where
  pub platform_wallet : Option String
  pub usdc_sac : Option String
  pub settlements : List String
  pub token : T
  pub paid : List RecipientPaid
  pub executed : List SettlementExecuted

-- An i128; the numbers that may overflow here are not negative.
abbrev pub overflows : ℕ → Bool
overflows n = ltb 170141183460469231731687303715884105727 n

abbrev pub positive : ℤ → Option ℕ
positive (pos zero) = none
positive (pos (suc n)) = some (suc n)
positive (negsuc n) = none

abbrev pub max_recipients : ℕ
max_recipients = 10

-- The loop of `validate_recipients`, with the sum so far.
pub validate_from : ℕ → List Recipient → Outcome ℕ
validate_from sum [] =
    fail_if (if nat_eq sum 10000 then false else true) ContractError.invalid_allocation_sum
    >> done sum
validate_from sum (r ∷ rs) =
    or_fail (positive r.share_bps) ContractError.zero_allocation >>= λ share.
    fail_if (overflows (sum + share)) ContractError.arithmetic_overflow
    >> fail_if (any (λ (o : Recipient). r.address == o.address) rs)
        ContractError.duplicate_recipient
    >> validate_from (sum + share) rs

pub validate_recipients : List Recipient → Outcome ℕ
unfolding validate_from
validate_recipients rs =
    fail_if (nat_eq (length rs) 0) ContractError.empty_recipients
    >> fail_if (ltb max_recipients (length rs)) ContractError.too_many_recipients
    >> validate_from 0 rs

-- The loop of `calculate_creator_amounts`; its `expect`s trap.
pub calculate_from : ℕ → ℕ → List Recipient → Outcome (List ℤ)
calculate_from pool distributed [] = done []
calculate_from pool distributed (r ∷ []) = done (sub_ℕ pool distributed ∷ [])
calculate_from pool distributed (r ∷ s ∷ rs) =
    let product = pool * pos_part r.share_bps in
    let computed = product / 10000 in
    trap_if (overflows product)
    >> trap_if (overflows (distributed + computed))
    >> (calculate_from pool (distributed + computed) (s ∷ rs) >>= λ amounts.
        done (pos computed ∷ amounts))

pub calculate_creator_amounts : List Recipient → ℕ → Outcome (List ℤ)
unfolding calculate_from
calculate_creator_amounts recipients pool = calculate_from pool 0 recipients

-- `token.transfer(from, to, amount)`
module _ {T : Type 0} (transfer : String → String → ℤ → T → Option T) where
  abbrev pub pay : String → String → ℤ → T → Option T
  pay from to amount t = if ltb_ℤ (pos 0) amount then transfer from to amount t else some t

  -- The loop over the recipients.
  unfoldable pub pay_all : String → List Recipient → List ℤ → T → Outcome T
  pay_all from (r ∷ rs) (a ∷ amounts) t =
      or_trap (pay from r.address a t) >>= λ u. pay_all from rs amounts u
  pay_all from _ _ t = done t

  abbrev pub paid_events : String → List Recipient → List ℤ → List RecipientPaid
  paid_events ref (r ∷ rs) (a ∷ amounts) =
      record { order_ref = ref; address = r.address; amount = a } ∷ paid_events ref rs amounts
  paid_events ref _ _ = []

  abbrev pub is_settled : String → Ledger T → Bool
  is_settled ref l = any (λ o. o == ref) l.settlements

  pub initialize : (String → Bool) → String → String → Ledger T → Outcome (Ledger T)
  initialize auth platform_wallet usdc_sac l = do
    fail_if (is_some l.platform_wallet) ContractError.already_initialized
    fail_if (platform_wallet == usdc_sac) ContractError.invalid_configuration
    trap_if (if auth platform_wallet then false else true)
    done (record l { platform_wallet = some platform_wallet; usdc_sac = some usdc_sac })

  -- `settle`, where `auth` says who has signed.
  unfoldable pub settle :
      (String → Bool) → String → ℤ → List Recipient → Ledger T → Outcome (Ledger T)
  unfolding validate_recipients calculate_creator_amounts pay_all
  settle auth order_ref total_amount recipients l = do
    platform_wallet ← or_fail l.platform_wallet ContractError.not_initialized
    or_fail l.usdc_sac ContractError.not_initialized
    trap_if (if auth platform_wallet then false else true)
    fail_if (is_settled order_ref l) ContractError.order_already_settled
    total ← or_fail (positive total_amount) ContractError.invalid_total_amount
    validate_recipients recipients
    fail_if (overflows (total * 500)) ContractError.arithmetic_overflow
    amounts ← calculate_creator_amounts recipients (total - (total * 500) / 10000)
    t ← pay_all platform_wallet recipients amounts l.token
    done (record l {
      settlements = order_ref ∷ l.settlements;
      token = t;
      paid = l.paid ++ paid_events order_ref recipients amounts;
      executed =
          l.executed
          ++ record {
            order_ref = order_ref;
            total_amount = total;
            platform_fee_amount = (total * 500) / 10000;
            creator_pool_amount = total - (total * 500) / 10000;
            recipient_count = length recipients;
          }
            ∷ [];
    })
