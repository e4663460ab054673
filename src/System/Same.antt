-- ===== src/System/Same.antt =====
-- Changes of the orders table that keep every row's id and payment reference.
use kreav.Base.{
  Bool-cases, true, false, String, ◌≡◌, ◌≢◌, refl, sym, ap, ◌∙◌, some, List, [], ◌∷◌, arith, All,
  inl, inr, ◌==◌,
}
use kreav.Store.{Order}
use kreav.Store.Table.{find_by, update_by}
use kreav.Store.Query.{order_id}
use kreav.Orders.Payment.Refs.{HasUniqueRefs}
use kreav.Orders.Evolves.{HasUniqueIds}

-- Row by row.
abbrev pub SameKeys : List Order → List Order → Type 0
SameKeys [] [] = Unit {0}
SameKeys (o ∷ os) (p ∷ ps) = (p.id ≡ o.id) × (p.payment_ref ≡ o.payment_ref) × SameKeys os ps
SameKeys _ _ = ⊥

pub SameKeys-refl : (os : List Order) → SameKeys os os
SameKeys-refl [] = tt
SameKeys-refl (o ∷ os) = (refl, refl, SameKeys-refl os)

pub SameKeys-trans : (os ps qs : List Order) → SameKeys os ps → SameKeys ps qs → SameKeys os qs
SameKeys-trans [] [] [] a b = tt
SameKeys-trans (o ∷ os) (p ∷ ps) (q ∷ qs) a b =
    (b.0 ∙ a.0, b.1 ∙ a.1, SameKeys-trans os ps qs a.2 b.2)
SameKeys-trans [] (p ∷ ps) qs a b = absurd a
SameKeys-trans (o ∷ os) [] qs a b = absurd a
SameKeys-trans [] [] (q ∷ qs) a b = absurd b
SameKeys-trans (o ∷ os) (p ∷ ps) [] a b = absurd b

pub SameKeys-update_by :
    (id : String) (f : Order → Order) (os : List Order)
    → ((o : Order) → (f o).id ≡ o.id)
    → ((o : Order) → (f o).payment_ref ≡ o.payment_ref)
    → SameKeys os (update_by order_id id f os)
unfolding update_by
SameKeys-update_by id f [] i r = tt
SameKeys-update_by id f (o ∷ os) i r = elim (Bool-cases (order_id o == id)) [
  | inl at ↦ rw at (i o, r o, SameKeys-update_by id f os i r)
  | inr elsewhere ↦ rw elsewhere (refl, refl, SameKeys-update_by id f os i r)
]

-- A row is found as it was, up to what may change.
pub find_by-SameKeys :
    (os ps : List Order) (j : String) {p : Order}
    → SameKeys os ps
    → find_by order_id j ps ≡ some p
    → (o : Order) × (find_by order_id j os ≡ some o) × (p.payment_ref ≡ o.payment_ref)
unfolding find_by
find_by-SameKeys [] [] j same e = cc
find_by-SameKeys (o ∷ os) (q ∷ qs) j {p} same e = elim (Bool-cases (q.id == j)) [
  | inl at ↦
      let one : q ≡ p = ground (arith, at) in
      let here : (o.id == j) ≡ true = rw (← same.0) at in
      (o, rw here refl, ap (λ (x : Order). x.payment_ref) (sym one) ∙ same.1)
  | inr elsewhere ↦
      let not_here : (o.id == j) ≡ false = rw (← same.0) elsewhere in
      let (x, found, r) = find_by-SameKeys os qs j {p = p} same.2 (ground (arith, elsewhere)) in
      (x, rw not_here found, r)
]
find_by-SameKeys [] (q ∷ qs) j same e = absurd same
find_by-SameKeys (o ∷ os) [] j same e = absurd same

pub SameKeys-HasUniqueRefs :
    (os ps : List Order) → SameKeys os ps → HasUniqueRefs os → HasUniqueRefs ps
SameKeys-HasUniqueRefs os ps same h = record {
  unique = λ j k ref o p ej ek ro rp.
      let (o', fo, eo) = find_by-SameKeys os ps j same ej in
      let (p', fp, ep) = find_by-SameKeys os ps k same ek in
      h.unique j k ref o' p' fo fp (sym eo ∙ ro) (sym ep ∙ rp);
}

others-SameKeys :
    (id : String) (os ps : List Order)
    → SameKeys os ps
    → All (λ (q : Order). id ≢ q.id) os
    → All (λ (q : Order). id ≢ q.id) ps
others-SameKeys id [] [] same a = tt
others-SameKeys id (o ∷ os) (p ∷ ps) same a =
    (λ e. a.0 (e ∙ same.0), others-SameKeys id os ps same.2 a.1)
others-SameKeys id [] (p ∷ ps) same a = absurd same
others-SameKeys id (o ∷ os) [] same a = absurd same

pub SameKeys-HasUniqueIds :
    (os ps : List Order) → SameKeys os ps → HasUniqueIds os → HasUniqueIds ps
SameKeys-HasUniqueIds [] [] same u = tt
SameKeys-HasUniqueIds (o ∷ os) (p ∷ ps) same u =
    (rw same.0 (others-SameKeys o.id os ps same.2 u.0), SameKeys-HasUniqueIds os ps same.2 u.1)
SameKeys-HasUniqueIds [] (p ∷ ps) same u = absurd same
SameKeys-HasUniqueIds (o ∷ os) [] same u = absurd same
