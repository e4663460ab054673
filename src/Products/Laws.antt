-- ===== src/Products/Laws.antt =====
-- The collaborators of a product that was created or updated (`create` and `update` of
-- products.service.ts), as a settlement reads them.
use kreav.Base.{
  Option-cases, String, Bool, true, false, not, Option, none, some, List, [], ◌∷◌, ◌++◌, map, keep,
  ◌==◌, ◌≡◌, ◌≢◌, refl, sym, ap, ◌∙◌, sum_by, arith, All, Bool-cases, inl, inr, length, leb, eq_iff,
  eq_refl, sum_by-map, text-cases, length-map, ◌<◌,
}
use mathlib.Core.Path.{subst}
use kreav.App.{World, Result, ok, err, ◌>>=◌, pure, modify}
use kreav.Store.{Db, Product, Collaborator}
use kreav.Store.Query.{find_product, active_collaborators}
use kreav.Stellar.Horizon.{StellarConfig, HorizonServer}
use kreav.Stellar.Settlement.{are_payable, max_recipients}
use kreav.Products.{
  Share, CreateProductDto, UpdateProductDto, row_of, new_product, add_product,
  replace_collaborators, create, update, resolve_collaborators, load_owned_product, replace_shares,
  update_product, patched,
}
use kreav.Products.Eligible.{HasTrustline}
use kreav.Products.Accepted.{
  AreAccepted, resolve_collaborators-AreAccepted, resolve_collaborators-Reads,
}

-- The active collaborators are the rows that were written.
active_of_rows :
    (id : String) (shares : List Share) (d : Db)
    → active_collaborators id (record d { collaborators = map (row_of id) shares })
      ≡ map (row_of id) shares
unfolding active_collaborators
active_of_rows id [] d = refl
active_of_rows id (s ∷ shares) d = ground (arith, eq_refl id, active_of_rows id shares d)

active_of_fresh :
    (id : String) (old rows : List Collaborator) (d : Db)
    → All (λ (c : Collaborator). c.product_id ≢ id) old
    → active_collaborators id (record d { collaborators = old ++ rows })
      ≡ active_collaborators id (record d { collaborators = rows })
unfolding active_collaborators
active_of_fresh id [] rows d fresh = refl
active_of_fresh id (c ∷ old) rows d fresh = elim (text-cases c.product_id id) [
  | inl same ↦ absurd (fresh.0 same)
  | inr other ↦ rw (other.1, keep) (active_of_fresh id old rows d fresh.1)
]

kept_are_fresh :
    (id : String) (old : List Collaborator)
    → All (λ (c : Collaborator). c.product_id ≢ id) (keep (λ c. not (c.product_id == id)) old)
kept_are_fresh id [] = tt
kept_are_fresh id (c ∷ old) =
    go (c.product_id == id) (λ e same. cc (e, (eq_iff c.product_id id).1 same))
      (kept_are_fresh id old)
  where
    Fresh : List Collaborator → Type 0
    Fresh = All (λ (c : Collaborator). c.product_id ≢ id)

    go :
        (b : Bool)
        → (b ≡ false → c.product_id ≢ id)
        → Fresh (keep (λ c. not (c.product_id == id)) old)
        → Fresh (elim (not b) as (λ _. List Collaborator) [
          | true ↦ c ∷ keep (λ c. not (c.product_id == id)) old
          | false ↦ keep (λ c. not (c.product_id == id)) old
        ])
    go true ne rest = rest
    go false ne rest = (ne refl, rest)

-- Accepted shares pass the settlement's guards, but for the limit on their number.
accepted-IsPayable :
    {N : Type 0} (config : StellarConfig) (horizon : HorizonServer N) (id : String)
    (shares : List Share)
    → AreAccepted config horizon shares
    → are_payable (map (row_of id) shares) ≡ leb (length shares) max_recipients
accepted-IsPayable config horizon id shares a =
    let n = length-map (row_of id) shares in
    let total = sum_by-map (λ (c : Collaborator). c.revenue_percentage) (row_of id) shares in
    go shares a.whole n total
  where
    go :
        (xs : List Share)
        → sum_by (λ s. s.revenue_percentage) xs ≡ 10000
        → length (map (row_of id) xs) ≡ length xs
        → sum_by (λ c. c.revenue_percentage) (map (row_of id) xs)
          ≡ sum_by (λ s. s.revenue_percentage) xs
        → are_payable (map (row_of id) xs) ≡ leb (length xs) max_recipients
    go [] whole n total = absurd (ground arith)
    go (x ∷ xs) whole n total = ground (arith, n, total, whole)

All-rows :
    (P : Collaborator → Type 0) (id : String) (shares : List Share)
    → All (λ s. P (row_of id s)) shares
    → All P (map (row_of id) shares)
All-rows P id [] h = tt
All-rows P id (s ∷ shares) h = (h.0, All-rows P id shares h.1)

module _ {N : Type 0} (config : StellarConfig) (horizon : HorizonServer N) where
  -- What the settlement guards look at in the active collaborators of the product: whether their
  -- number and shares pass them is only whether there are at most ten; each share is positive, and
  -- Horizon has said of each address that it has a trustline. One address may occur twice.
  pub record IsSettleable (id : String) (d : Db) : Type 0 where
    pub payable :
        are_payable (active_collaborators id d)
        ≡ leb (length (active_collaborators id d)) max_recipients
    pub positive : All (λ (c : Collaborator). 0 < c.revenue_percentage) (active_collaborators id d)
    pub trusted :
        All
          (λ (c : Collaborator). HasTrustline config horizon c.wallet_address)
          (active_collaborators id d)

  written-IsSettleable :
      (id : String) (shares : List Share) (d : Db)
      → AreAccepted config horizon shares
      → active_collaborators id d ≡ map (row_of id) shares
      → IsSettleable id d
  written-IsSettleable id shares d a e = record {
    payable = rw e (
        accepted-IsPayable config horizon id shares a
        ∙ ap (λ n. leb n max_recipients) (sym (length-map (row_of id) shares)));
    positive = rw e (All-rows (λ c. 0 < c.revenue_percentage) id shares a.positive);
    trusted =
        rw e (All-rows (λ c. HasTrustline config horizon c.wallet_address) id shares a.trusted);
  }

  -- After a product was created, under an id that no collaborator refers to yet, its active
  -- collaborators pass the settlement's test of their number and shares exactly if there are at most
  -- ten; each share is positive, and Horizon has said of each address that it has a trustline.
  pub create-IsSettleable :
      (id : String) (dto : CreateProductDto) (creator_id : String) (p : Product) (w : World N)
      → All (λ (c : Collaborator). c.product_id ≢ id) w.db.collaborators
      → (create config horizon id dto creator_id w).0 ≡ ok p
      → IsSettleable id (create config horizon id dto creator_id w).1.db
  unfolding create active_collaborators
  create-IsSettleable id dto creator_id p w fresh h =
      go (resolve_collaborators config horizon dto.collaborators creator_id w) refl h
    where
      go :
          (x : Result (List Share) × World N)
          → resolve_collaborators config horizon dto.collaborators creator_id w ≡ x
          → let y =
              ((λ (_ : World N). x) >>= λ shares.
              modify (add_product (new_product id dto creator_id) (map (row_of id) shares)) >>= λ _.
              pure (new_product id dto creator_id))
                w in
            y.0 ≡ ok p → IsSettleable id y.1.db
      go (err e, v) r k = absurd (ground arith)
      go (ok shares, v) r k =
          let same =
            ((resolve_collaborators-Reads config horizon dto.collaborators creator_id).alike
              w).same_db in
          let old : v.db ≡ w.db = ap (λ x. x.1.db) (sym r) ∙ same in
          written-IsSettleable id shares
            (add_product (new_product id dto creator_id) (map (row_of id) shares) v.db)
            (resolve_collaborators-AreAccepted config horizon dto.collaborators creator_id shares w
              (ap (λ x. x.0) r))
            (active_of_fresh id v.db.collaborators (map (row_of id) shares) v.db (
                subst (λ (d : Db). All (λ (c : Collaborator). c.product_id ≢ id) d.collaborators)
                  (sym old) fresh)
              ∙ active_of_rows id shares v.db)

  replace_shares-IsSettleable :
      (id : String) (s : Share) (more : List Share) (creator_id : String) (w : World N)
      (t : Unit {0})
      → (replace_shares config horizon id (s ∷ more) creator_id w).0 ≡ ok t
      → IsSettleable id (replace_shares config horizon id (s ∷ more) creator_id w).1.db
  unfolding replace_shares active_collaborators
  replace_shares-IsSettleable id s more creator_id w t h =
      go (resolve_collaborators config horizon (s ∷ more) creator_id w) refl h
    where
      go :
          (x : Result (List Share) × World N)
          → resolve_collaborators config horizon (s ∷ more) creator_id w ≡ x
          → let y =
              ((λ (_ : World N). x) >>= λ shares.
              modify (replace_collaborators id (map (row_of id) shares)))
                w in
            y.0 ≡ ok t → IsSettleable id y.1.db
      go (err e, v) r k = absurd (ground arith)
      go (ok shares, v) r k =
          written-IsSettleable id shares (replace_collaborators id (map (row_of id) shares) v.db)
            (resolve_collaborators-AreAccepted config horizon (s ∷ more) creator_id shares w
              (ap (λ x. x.0) r))
            (active_of_fresh id (keep (λ c. not (c.product_id == id)) v.db.collaborators)
                (map (row_of id) shares) v.db (kept_are_fresh id v.db.collaborators)
              ∙ active_of_rows id shares v.db)

  IsSettleable-same :
      (id : String) (d e : Db)
      → e.collaborators ≡ d.collaborators
      → IsSettleable id d
      → IsSettleable id e
  unfolding active_collaborators
  IsSettleable-same id d e same h = record {
    payable = rw same h.payable;
    positive = rw same h.positive;
    trusted = rw same h.trusted;
  }

  update_product-collaborators :
      (id : String) (f : Product → Product) (w : World N)
      → (update_product id f w).1.db.collaborators ≡ w.db.collaborators
  unfolding update_product
  update_product-collaborators id f w = elim (Option-cases (find_product id w.db)) [
    | inl missing ↦ ground (arith, missing)
    | inr (p, found) ↦ ground (arith, found)
  ]

  -- Only a product's creator can update it; and after an update that gave collaborators, the active
  -- ones pass the settlement's test of their number and shares exactly if there are at most ten.
  pub update-IsSettleable :
      (id : String) (dto : UpdateProductDto) (creator_id : String) (p : Product) (w : World N)
      → (update config horizon id dto creator_id w).0 ≡ ok p
      → ((q : Product) × (find_product id w.db ≡ some q) × (q.creator_id ≡ creator_id))
        × (dto.collaborators ≢ []
            → IsSettleable id (update config horizon id dto creator_id w).1.db)
  unfolding update load_owned_product
  update-IsSettleable id dto creator_id p w h = by_product (find_product id w.db) refl
    where
      after : World N → Result Product × World N
      after v =
          (replace_shares config horizon id dto.collaborators creator_id >>= λ _.
          update_product id (patched dto))
            v

      settled :
          (input : List Share)
          → (x : Result (Unit {0}) × World N)
          → replace_shares config horizon id input creator_id w ≡ x
          → input ≢ []
          → let y = ((λ (_ : World N). x) >>= λ _. update_product id (patched dto)) w in
            y.0 ≡ ok p → IsSettleable id y.1.db
      settled [] x r ne k = absurd (ne refl)
      settled (s ∷ more) (err e, v) r ne k = absurd (ground arith)
      settled (s ∷ more) (ok t, v) r ne k =
          IsSettleable-same id v.db (update_product id (patched dto) v).1.db
            (update_product-collaborators id (patched dto) v)
            (subst (λ x. IsSettleable id x.1.db) r
              (replace_shares-IsSettleable id s more creator_id w t (ap (λ x. x.0) r)))

      by_product :
          (q : Option Product)
          → find_product id w.db ≡ q
          → ((q : Product) × (find_product id w.db ≡ some q) × (q.creator_id ≡ creator_id))
            × (dto.collaborators ≢ []
                → IsSettleable id (update config horizon id dto creator_id w).1.db)
      by_product none e = absurd (ground (arith, e))
      by_product (some q) e = elim (Bool-cases (q.creator_id == creator_id)) [
        | inr other ↦ absurd (ground (arith, e, other))
        | inl own ↦
            let run : update config horizon id dto creator_id w ≡ after w =
              ground (arith, e, own) in
            (
              (q, e, (eq_iff q.creator_id creator_id).0 own),
              λ ne.
                  subst (λ x. IsSettleable id x.1.db) (sym run)
                    (settled dto.collaborators
                      (replace_shares config horizon id dto.collaborators creator_id w) refl ne
                      (ap (λ x. x.0) (sym run) ∙ h)),
            )
      ]
