-- ===== src/Stellar/Settlement/Trust.antt =====
-- What the check of the recipients' trustlines has seen (`findRecipientsMissingTrustline`).
use kreav.Base.{
  ◌≡◌, ◌⊎◌, refl, ap, inl, inr, true, false, String, List, [], ◌∷◌, All, arith, Bool-cases,
}
use kreav.App.{World, Result, ok, err}
use kreav.Stellar.Split.{RecipientInput}
use kreav.Stellar.Horizon.{StellarConfig, HorizonServer, WalletBalanceResult, get_usdc_balance}
use kreav.Stellar.Rpc.{RpcServer}
use kreav.Stellar.Settlement.{lacks_trustline, find_recipients_missing_trustline}

abbrev pub Some : (RecipientInput → Type 0) → List RecipientInput → Type 0
Some P [] = ⊥
Some P (r ∷ rs) = P r ⊎ Some P rs

module _ {N : Type 0} (config : StellarConfig) (horizon : HorizonServer N) (rpc : RpcServer N) where
  -- An answer that the recipient has no trustline.
  abbrev pub Denies : RecipientInput → World N → Type 0
  Denies r v =
      (b : WalletBalanceResult) × ((get_usdc_balance config horizon r.address v).0 ≡ ok b)
      × (b.has_usdc_trustline ≡ false)

  -- Horizon has said that the recipient has no trustline; or it was asked, and has not said so.
  abbrev pub Untrusting : RecipientInput → Type 0
  Untrusting r = (v : World N) × Denies r v

  abbrev pub Trusting : RecipientInput → Type 0
  Trusting r = (v : World N) × ¬ Denies r v

  lacks-cases :
      (r : RecipientInput) (w : World N)
      → (((lacks_trustline config horizon rpc r w).0 ≡ ok true) × Untrusting r)
        ⊎ (((lacks_trustline config horizon rpc r w).0 ≡ ok false) × Trusting r)
  unfolding lacks_trustline
  lacks-cases r w = go (get_usdc_balance config horizon r.address w) refl
    where
      go :
          (y : Result WalletBalanceResult × World N)
          → get_usdc_balance config horizon r.address w ≡ y
          → (((lacks_trustline config horizon rpc r w).0 ≡ ok true) × Untrusting r)
            ⊎ (((lacks_trustline config horizon rpc r w).0 ≡ ok false) × Trusting r)
      go (err e, v) q = inr (ground (arith, q), (w, λ (b, s, h). cc (ap (λ t. t.0) q, s)))
      go (ok b, v) q = elim (Bool-cases b.has_usdc_trustline) [
        | inr none_there ↦
            inl (ground (arith, q, none_there), (w, (b, ap (λ t. t.0) q, none_there)))
        | inl there ↦ inr (
          ground (arith, q, there),
          (w, λ (c, s, h). denied b c (cc (ap (λ t. t.0) q, s)) there h),
        )
      ]
        where
          denied :
              (b c : WalletBalanceResult)
              → b ≡ c
              → b.has_usdc_trustline ≡ true
              → c.has_usdc_trustline ≡ false
              → ⊥
          denied b c same yes_ no_ = cc (ap (λ x. x.has_usdc_trustline) same, yes_, no_)

  -- The check answers that nobody lacks one, or names somebody.
  abbrev pub Checked : List RecipientInput → Result (List String) → Type 0
  Checked rs x =
      ((x ≡ ok []) × All Trusting rs)
      ⊎ ((a : String) × (more : List String) × (x ≡ ok (a ∷ more)) × Some Untrusting rs)

  pub find_recipients_missing_trustline-Checked :
      (rs : List RecipientInput) (w : World N)
      → Checked rs (find_recipients_missing_trustline config horizon rpc rs w).0
  unfolding find_recipients_missing_trustline
  find_recipients_missing_trustline-Checked [] w = inl (refl, tt)
  find_recipients_missing_trustline-Checked (r ∷ rs) w = elim (lacks-cases r w) [
    | inl (yes_, h) ↦
        elim (find_recipients_missing_trustline-Checked rs
          (lacks_trustline config horizon rpc r w).1) [
            | inl (e, all) ↦ inr (r.address, [], ground (arith, yes_, e), inl h)
            | inr (a, more, e, s) ↦ inr (r.address, a ∷ more, ground (arith, yes_, e), inl h)
          ]
    | inr (no_, h) ↦
        elim (find_recipients_missing_trustline-Checked rs
          (lacks_trustline config horizon rpc r w).1) [
            | inl (e, all) ↦ inl (ground (arith, no_, e), (h, all))
            | inr (a, more, e, s) ↦ inr (a, more, ground (arith, no_, e), inr s)
          ]
  ]
