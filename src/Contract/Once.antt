-- ===== src/Contract/Once.antt =====
-- Settlement markers of the contract (smartcontract/src/lib.rs) over any sequence of its calls.
use kreav.Base.{
  String, Bool, true, false, ◌≡◌, ◌≢◌, sym, ap, ◌∙◌, Option, List, ◌∷◌, any, ◌==◌, eq_refl, arith,
}
use kreav.Base.Int.{ℤ}
use kreav.Contract.{done, Recipient, Ledger, is_settled, settle, initialize}

module _ {T : Type 0} (transfer : String → String → ℤ → T → Option T) where
  settle-marks :
      (auth : String → Bool) (id : String) (total : ℤ) (rs : List Recipient) (l m : Ledger T)
      → settle transfer auth id total rs l ≡ done m
      → (m.settlements ≡ id ∷ l.settlements) × (is_settled transfer id l ≡ false)
  unfolding settle
  settle-marks auth id total rs l m e = ground (arith, e)

  initialize-marks :
      (auth : String → Bool) (platform usdc : String) (l m : Ledger T)
      → initialize transfer auth platform usdc l ≡ done m
      → m.settlements ≡ l.settlements
  unfolding initialize
  initialize-marks auth platform usdc l m e = ground (arith, e)

  -- Calls that succeeded; one that fails leaves the ledger as it was. The token may change by itself.
  pub data Run (l : Ledger T) : Ledger T → Type 0 where
    start : Run l l
    initialized :
        {m n : Ledger T} (auth : String → Bool) (platform usdc : String)
        → Run l m
        → initialize transfer auth platform usdc m ≡ done n
        → Run l n
    settled :
        {m n : Ledger T} (auth : String → Bool) (id : String) (total : ℤ) (rs : List Recipient)
        → Run l m
        → settle transfer auth id total rs m ≡ done n
        → Run l n
    token_changed : {m : Ledger T} (t : T) → Run l m → Run l (record m { token = t })

  stays :
      (id : String) (l m : Ledger T)
      → Run l m
      → is_settled transfer id l ≡ true
      → is_settled transfer id m ≡ true
  stays id l m start h = h
  stays id l m (initialized {m = k} auth p u r e) h =
      ap (λ os. any (λ o. o == id) os) (initialize-marks auth p u k m e) ∙ stays id l k r h
  stays id l m (settled {m = k} auth j total rs r e) h =
      let before : is_settled transfer id k ≡ true = stays id l k r h in
      ap (λ os. any (λ o. o == id) os) (settle-marks auth j total rs k m e).0
      ∙ ground (arith, before)
  stays id l m (token_changed {m = k} t r) h = stays id l k r h

  -- An order is settled once at most: after a settlement no other of the same order ever succeeds,
  -- for any amount and recipients, whatever calls succeeded in between.
  pub settle-once :
      (auth auth' : String → Bool) (id : String) (total total' : ℤ) (rs rs' : List Recipient)
      (l m n o : Ledger T)
      → settle transfer auth id total rs l ≡ done m
      → Run m n
      → settle transfer auth' id total' rs' n ≢ done o
  settle-once auth auth' id total total' rs rs' l m n o e r = λ again.
      let marked : is_settled transfer id m ≡ true =
        ap (λ os. any (λ p. p == id) os) (settle-marks auth id total rs l m e).0
        ∙ ground (arith, eq_refl id) in
      let still : is_settled transfer id n ≡ true = stays id m n r marked in
      let free : is_settled transfer id n ≡ false =
        (settle-marks auth' id total' rs' n o again).1 in
      true_ne_false (sym still ∙ free)
    where
      true_ne_false : true ≡ false → ⊥
      true_ne_false p = cc
