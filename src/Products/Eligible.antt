-- ===== src/Products/Eligible.antt =====
-- The eligibility of one collaborator (`assertCollaboratorsEligible`, products.service.ts).
use kreav.Base.{
  ◌⊎◌, ◌⊎◌, String, true, none, some, List, [], ◌∷◌, ◌≡◌, ◌≢◌, refl, sym, ap, ◌∙◌, arith, All,
  Option-cases, inl, inr,
}
use mathlib.Core.Path.{subst}
use kreav.App.{World, Result, ok, err, bad_request, throw, try_catch, ◌>>=◌}
use kreav.App.Reads.{Reads, Reads-throw, Reads-pure, Reads->>=, Reads-try_catch}
use kreav.Store.{Db, Wallet}
use kreav.Store.Query.{find_wallet}
use kreav.Stellar.Horizon.{StellarConfig, HorizonServer, WalletBalanceResult, get_usdc_balance}
use kreav.Stellar.Settlement.Reading.{get_usdc_balance-Reads}
use kreav.Products.{read_trustline, assert_eligible, assert_all_eligible}

module _ {N : Type 0} (config : StellarConfig) (horizon : HorizonServer N) where
  -- Horizon has said that the address holds a USDC trustline.
  pub record HasTrustline (address : String) : Type 0 where
    pub seen : World N
    pub state : WalletBalanceResult
    pub answered : (get_usdc_balance config horizon address seen).0 ≡ ok state
    pub trusted : state.has_usdc_trustline ≡ true

  pub read_trustline-Reads : (a : String) → Reads (read_trustline config horizon a)
  unfolding read_trustline
  read_trustline-Reads a =
      Reads-try_catch (get_usdc_balance config horizon a) (λ e. throw bad_request)
        (get_usdc_balance-Reads config horizon a) (λ e. Reads-throw bad_request)

  pub trustline_of :
      (a : String) (w : World N) (state : WalletBalanceResult)
      → (read_trustline config horizon a w).0 ≡ ok state
      → (get_usdc_balance config horizon a w).0 ≡ ok state
  unfolding read_trustline
  trustline_of a w state = go (get_usdc_balance config horizon a w)
    where
      go :
          (x : Result WalletBalanceResult × World N)
          → (try_catch (λ (_ : World N). x) (λ e. throw bad_request) w).0 ≡ ok state
          → x.0 ≡ ok state
      go (ok s, v) e = e
      go (err y, v) e = cc

  assert_eligible-Reads : (a : String) → Reads (assert_eligible config horizon a)
  unfolding assert_eligible
  assert_eligible-Reads a = record { alike = λ w. ground (arith, (read_trustline-Reads a).alike w) }

  assert_eligible-HasTrustline :
      (a : String) (w : World N) (t : Unit {0})
      → (assert_eligible config horizon a w).0 ≡ ok t
      → (find_wallet a w.db ≢ none) × HasTrustline a
  unfolding assert_eligible
  assert_eligible-HasTrustline a w t h =
      go (read_trustline config horizon a w) refl (Option-cases (find_wallet a w.db))
    where
      go :
          (x : Result WalletBalanceResult × World N)
          → read_trustline config horizon a w ≡ x
          → (find_wallet a w.db ≡ none) ⊎ ((v : Wallet) × (find_wallet a w.db ≡ some v))
          → (find_wallet a w.db ≢ none) × HasTrustline a
      go x e (inl missing) = absurd (ground (arith, missing))
      go (err y, u) e (inr (v, found)) = absurd (ground (arith, e, found))
      go (ok state, u) e (inr (v, found)) = (
        λ none_found. cc (none_found, found),
        record {
          seen = w;
          state = state;
          answered = trustline_of a w state (ap (λ x. x.0) e);
          trusted = ground (arith, e, found);
        },
      )

  pub assert_all_eligible-Reads :
      (addresses : List String) → Reads (assert_all_eligible config horizon addresses)
  unfolding assert_all_eligible
  assert_all_eligible-Reads [] = Reads-pure tt
  assert_all_eligible-Reads (a ∷ more) =
      Reads->>= (assert_eligible config horizon a) (λ _. assert_all_eligible config horizon more)
        (assert_eligible-Reads a) (λ _. assert_all_eligible-Reads more)

  -- An address that is registered and holds a trustline.
  abbrev pub IsEligible : Db → String → Type 0
  IsEligible d a = (find_wallet a d ≢ none) × HasTrustline a

  pub assert_all_eligible-IsEligible :
      (addresses : List String) (w : World N) (t : Unit {0})
      → (assert_all_eligible config horizon addresses w).0 ≡ ok t
      → All (IsEligible w.db) addresses
  unfolding assert_all_eligible
  assert_all_eligible-IsEligible [] w t h = tt
  assert_all_eligible-IsEligible (a ∷ more) w t h =
      go (assert_eligible config horizon a w) refl h (assert_all_eligible-IsEligible more)
    where
      go :
          (x : Result (Unit {0}) × World N)
          → assert_eligible config horizon a w ≡ x
          → (((λ (_ : World N). x) >>= λ _. assert_all_eligible config horizon more) w).0 ≡ ok t
          → ((v : World N) (u : Unit {0})
              → (assert_all_eligible config horizon more v).0 ≡ ok u
              → All (IsEligible v.db) more)
          → All (IsEligible w.db) (a ∷ more)
      go (err y, v) e k later = cc
      go (ok u, v) e k later = (
        assert_eligible-HasTrustline a w u (ap (λ x. x.0) e),
        subst (λ d. All (IsEligible d) more)
            (ap (λ x. x.1.db) (sym e) ∙ ((assert_eligible-Reads a).alike w).same_db) (later v t k),
      )
