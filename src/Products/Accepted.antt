-- ===== src/Products/Accepted.antt =====
-- The lists of collaborators that `resolveCollaborators` accepts.
use kreav.Base.{
  ◌⊎◌, ◌⊎◌, String, Bool, true, false, not, Option, none, some, List, [], ◌∷◌, map, keep, any, ◌==◌,
  ◌≡◌, refl, sym, ap, sum_by, nat_eq, arith, All, All-with, Bool-cases, inl, inr, eq_iff, ◌<◌,
}
use mathlib.Core.Path.{subst}
use kreav.App.{World, Result, ok, err}
use kreav.App.Reads.{Reads, Alike}
use kreav.Store.{Wallet}
use kreav.Stellar.Horizon.{StellarConfig, HorizonServer, WalletBalanceResult}
use kreav.Products.{
  Share, unique, share_address, sole_share, latest_wallet_of, read_trustline, assert_all_eligible,
  resolve_shares, resolve_sole, resolve_collaborators,
}
use kreav.Products.Eligible.{
  HasTrustline, IsEligible, read_trustline-Reads, trustline_of, assert_all_eligible-Reads,
  assert_all_eligible-IsEligible,
}

-- A predicate that holds of the first occurrences holds of all.
All-keep :
    (P : String → Type 0) (a : String) (xs : List String)
    → P a
    → All P (keep (λ b. not (b == a)) xs)
    → All P xs
All-keep P a [] pa h = tt
All-keep P a (x ∷ xs) pa h = go (x == a) refl h (All-keep P a xs pa)
  where
    go :
        (b : Bool)
        → (x == a) ≡ b
        → All P (elim (not b) as (λ _. List String) [
          | true ↦ x ∷ keep (λ b. not (b == a)) xs
          | false ↦ keep (λ b. not (b == a)) xs
        ])
        → (All P (keep (λ b. not (b == a)) xs) → All P xs)
        → All P (x ∷ xs)
    go true e k rest = (subst P (sym ((eq_iff x a).0 e)) pa, rest k)
    go false e k rest = (k.0, rest k.1)

All-unique : (P : String → Type 0) (xs : List String) → All P (unique xs) → All P xs
All-unique P [] h = tt
All-unique P (x ∷ xs) h = (h.0, All-unique P xs (All-keep P x (unique xs) h.0 h.1))

All-map :
    (P : String → Type 0) (shares : List Share)
    → All P (map share_address shares)
    → All (λ s. P (share_address s)) shares
All-map P [] h = tt
All-map P (s ∷ shares) h = (h.0, All-map P shares h.1)

positive_of_nonzero :
    (shares : List Share)
    → any (λ s. nat_eq s.revenue_percentage 0) shares ≡ false
    → All (λ s. 0 < s.revenue_percentage) shares
positive_of_nonzero [] h = tt
positive_of_nonzero (s ∷ shares) h = (ground arith, positive_of_nonzero shares (ground arith))

module _ {N : Type 0} (config : StellarConfig) (horizon : HorizonServer N) where
  -- What a list of shares must satisfy: they make up 100.00%, each is positive, and Horizon has
  -- said of each address that it can receive USDC.
  pub record AreAccepted (shares : List Share) : Type 0 where
    pub whole : sum_by (λ s. s.revenue_percentage) shares ≡ 10000
    pub positive : All (λ s. 0 < s.revenue_percentage) shares
    pub trusted : All (λ s. HasTrustline config horizon (share_address s)) shares

  resolve_shares-AreAccepted :
      (input shares : List Share) (w : World N)
      → (resolve_shares config horizon input w).0 ≡ ok shares
      → AreAccepted shares
  unfolding resolve_shares
  resolve_shares-AreAccepted input shares w h =
      go (assert_all_eligible config horizon (unique (map share_address input)) w) refl
        (Bool-cases (nat_eq (sum_by (λ s. s.revenue_percentage) input) 10000))
        (Bool-cases (any (λ s. nat_eq s.revenue_percentage 0) input))
    where
      go :
          (x : Result (Unit {0}) × World N)
          → assert_all_eligible config horizon (unique (map share_address input)) w ≡ x
          → (nat_eq (sum_by (λ s. s.revenue_percentage) input) 10000 ≡ true)
            ⊎ (nat_eq (sum_by (λ s. s.revenue_percentage) input) 10000 ≡ false)
          → (any (λ s. nat_eq s.revenue_percentage 0) input ≡ true)
            ⊎ (any (λ s. nat_eq s.revenue_percentage 0) input ≡ false)
          → AreAccepted shares
      go x e (inr bad) z = absurd (ground (arith, bad))
      go x e (inl all) (inl zero_share) = absurd (ground (arith, all, zero_share))
      go (err y, v) e (inl all) (inr none_zero) = absurd (ground (arith, all, none_zero, e))
      go (ok t, v) e (inl all) (inr none_zero) =
          let same : input ≡ shares = ground (arith, all, none_zero, e) in
          subst AreAccepted same (record {
            whole = ground (arith, all);
            positive = positive_of_nonzero input none_zero;
            trusted =
                All-with input (λ s a _. a.1)
                  (All-map (IsEligible config horizon w.db) input (
                    All-unique (IsEligible config horizon w.db) (map share_address input) (
                      assert_all_eligible-IsEligible config horizon
                        (unique (map share_address input)) w t (ap (λ x. x.0) e))))
                  (positive_of_nonzero input none_zero);
          })

  resolve_sole-AreAccepted :
      (creator_id : String) (shares : List Share) (w : World N)
      → (resolve_sole config horizon creator_id w).0 ≡ ok shares
      → AreAccepted shares
  unfolding resolve_sole
  resolve_sole-AreAccepted creator_id shares w h =
      by_wallet (latest_wallet_of creator_id w.db.wallets) refl
    where
      by_read :
          (v : Wallet)
          → latest_wallet_of creator_id w.db.wallets ≡ some v
          → (x : Result WalletBalanceResult × World N)
          → read_trustline config horizon v.wallet_address w ≡ x
          → AreAccepted shares
      by_read v found (err y, u) e = absurd (ground (arith, found, e))
      by_read v found (ok state, u) e =
          let same : sole_share v ∷ [] ≡ shares = ground (arith, found, e) in
          subst AreAccepted same (record {
            whole = refl;
            positive = (omega arith, tt);
            trusted = (
              record {
                seen = w;
                state = state;
                answered = trustline_of config horizon v.wallet_address w state (ap (λ x. x.0) e);
                trusted = ground (arith, found, e);
              },
              tt,
            );
          })

      by_wallet :
          (v : Option Wallet) → latest_wallet_of creator_id w.db.wallets ≡ v → AreAccepted shares
      by_wallet none e = absurd (ground (arith, e))
      by_wallet (some v) e = by_read v e (read_trustline config horizon v.wallet_address w) refl

  -- A list of collaborators that is accepted makes up 100.00%, each share is positive, and Horizon
  -- has said of each address that it can receive USDC.
  pub resolve_collaborators-AreAccepted :
      (input : List Share) (creator_id : String) (shares : List Share) (w : World N)
      → (resolve_collaborators config horizon input creator_id w).0 ≡ ok shares
      → AreAccepted shares
  unfolding resolve_collaborators
  resolve_collaborators-AreAccepted [] creator_id shares w h =
      resolve_sole-AreAccepted creator_id shares w h
  resolve_collaborators-AreAccepted (s ∷ input) creator_id shares w h =
      resolve_shares-AreAccepted (s ∷ input) shares w h

  resolve_shares-Reads : (input : List Share) → Reads (resolve_shares config horizon input)
  unfolding resolve_shares
  resolve_shares-Reads input = record {
    alike = λ w. ground (
      arith,
      (assert_all_eligible-Reads config horizon (unique (map share_address input))).alike w,
    );
  }

  resolve_sole-Reads : (creator_id : String) → Reads (resolve_sole config horizon creator_id)
  unfolding resolve_sole
  resolve_sole-Reads creator_id = record {
    alike = λ w. go w (latest_wallet_of creator_id w.db.wallets) refl;
  }
    where
      go :
          (w : World N) (v : Option Wallet)
          → latest_wallet_of creator_id w.db.wallets ≡ v
          → Alike (resolve_sole config horizon creator_id w).1 w
      go w none e = ground (arith, e)
      go w (some v) e =
          ground (arith, e, (read_trustline-Reads config horizon v.wallet_address).alike w)

  pub resolve_collaborators-Reads :
      (input : List Share) (creator_id : String)
      → Reads (resolve_collaborators config horizon input creator_id)
  unfolding resolve_collaborators
  resolve_collaborators-Reads [] creator_id = resolve_sole-Reads creator_id
  resolve_collaborators-Reads (s ∷ input) creator_id = resolve_shares-Reads (s ∷ input)
