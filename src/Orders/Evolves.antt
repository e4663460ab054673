-- ===== src/Orders/Evolves.antt =====
-- How the orders table changes over the calls of the services (the rows of `Order`).
use kreav.Base.{All, ◌≢◌, String, ◌≡◌, refl, ◌∙◌, some, List, [], ◌∷◌, ◌++◌, inl, inr, text-cases}
use kreav.Orders.Machine.Laws.{Reach, here, Reach-trans}
use kreav.Store.{Order}
use kreav.Store.Table.{
  find_by, update_by, find_by-update_by_self, find_by-update_by_ne, find_by-append,
}
use kreav.Store.Query.{order_id}

-- What an order has become.
pub record Successor (o o' : Order) : Type 0 where
  pub reached : Reach o.status o'.status
  pub same_amount : o'.amount_usd ≡ o.amount_usd
  pub same_product : o'.product_id ≡ o.product_id
  pub same_buyer : o'.buyer_email ≡ o.buyer_email

pub record Evolves (os os' : List Order) : Type 0 where
  pub follow :
      (j : String) (o : Order)
      → find_by order_id j os ≡ some o
      → (o' : Order) × (find_by order_id j os' ≡ some o') × Successor o o'

pub Successor-refl : (o : Order) → Successor o o
Successor-refl o = record {
  reached = here;
  same_amount = refl;
  same_product = refl;
  same_buyer = refl;
}

pub Successor-trans : {o p q : Order} → Successor o p → Successor p q → Successor o q
Successor-trans a b = record {
  reached = Reach-trans a.reached b.reached;
  same_amount = b.same_amount ∙ a.same_amount;
  same_product = b.same_product ∙ a.same_product;
  same_buyer = b.same_buyer ∙ a.same_buyer;
}

pub Evolves-refl : (os : List Order) → Evolves os os
Evolves-refl os = record { follow = λ j o e. (o, e, Successor-refl o) }

pub Evolves-trans : {os ps qs : List Order} → Evolves os ps → Evolves ps qs → Evolves os qs
Evolves-trans a b = record {
  follow = λ j o e.
      let (p, found, s) = a.follow j o e in
      let (q, found', s') = b.follow j p found in (q, found', Successor-trans s s');
}

pub Evolves-append : (os new : List Order) → Evolves os (os ++ new)
Evolves-append os new = record {
  follow = λ j o e. (o, find_by-append order_id j os new e, Successor-refl o);
}

-- An update of one order whose new row succeeds the old one.
pub Evolves-update_by :
    (id : String) (f : Order → Order) (os : List Order)
    → ((o : Order) → (f o).id ≡ o.id)
    → ((o : Order) → find_by order_id id os ≡ some o → Successor o (f o))
    → Evolves os (update_by order_id id f os)
Evolves-update_by id f os keeps step = record {
  follow = λ j o e. elim (text-cases id j) [
    | inl same ↦
        let found : find_by order_id id os ≡ some o = rw same e in
        (f o, rw (← same) (find_by-update_by_self order_id id f keeps os found), step o found)
    | inr other ↦ (o, find_by-update_by_ne order_id id f keeps j os other.0 ∙ e, Successor-refl o)
  ];
}

-- The orders' ids differ: the table's primary key.
abbrev pub HasUniqueIds : List Order → Type 0
HasUniqueIds [] = Unit {0}
HasUniqueIds (o ∷ os) = All (λ (q : Order). o.id ≢ q.id) os × HasUniqueIds os
