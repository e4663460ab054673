-- ===== src/Wallets/Laws.antt =====
-- What connecting a wallet does.
use kreav.Base.{
  some, ℕ, String, ◌≡◌, ◌≢◌, ◌⊎◌, refl, sym, ap, ◌∙◌, none, List, [], ◌∷◌, ◌++◌, map, arith, inl,
  inr, Option-cases,
}
use kreav.App.{World, ok, err, Event, not_found, conflict}
use kreav.Store.{Order, User}
use kreav.Store.Table.{find_by}
use kreav.Store.Query.{user_id, find_wallet}
use kreav.Wallets.{
  waiting_orders, resumed, new_wallet, add_wallet, create_wallet, resume,
  resume_waiting_wallet_orders, connect,
}

append_assoc : (xs ys zs : List Event) → (xs ++ ys) ++ zs ≡ xs ++ (ys ++ zs)
append_assoc [] ys zs = refl
append_assoc (x ∷ xs) ys zs = ap (λ l. x ∷ l) (append_assoc xs ys zs)

append_nil : (xs : List Event) → xs ++ [] ≡ xs
append_nil [] = refl
append_nil (x ∷ xs) = ap (λ l. x ∷ l) (append_nil xs)

abbrev emitted : {N : Type 0} → World N → List Event → World N
emitted w new = record w { events = w.events ++ new }

resume-emits :
    {N : Type 0} (creator_id address : String) (os : List Order) (w : World N)
    → resume creator_id address os w ≡ (ok tt, emitted w (map (resumed creator_id address) os))
unfolding resume
resume-emits creator_id address [] w =
    ap (λ es. (ok tt, record w { events = es })) (sym (append_nil w.events))
resume-emits creator_id address (o ∷ os) w =
    resume-emits creator_id address os (emitted w (resumed creator_id address o ∷ []))
    ∙ ap (λ es. (ok tt, record w { events = es }))
        (append_assoc w.events (resumed creator_id address o ∷ [])
          (map (resumed creator_id address) os))

abbrev pub connected_world : {N : Type 0} → String → String → ℕ → World N → World N
connected_world creator_id address now w = record w {
  db = add_wallet (new_wallet creator_id address now) w.db;
  events = w.events ++ map (resumed creator_id address) (waiting_orders creator_id w.db);
}

-- With the wallet in the table.
abbrev added : {N : Type 0} → String → String → ℕ → World N → World N
added creator_id address now w = record w {
  db = add_wallet (new_wallet creator_id address now) w.db;
}

-- A wallet for an unknown user is answered with not found, an address that is connected already
-- with a conflict, and neither changes anything; any other, of a known user, adds the wallet and
-- announces each order of the creator that waits for one, once, in the order of the table.
pub connect-cases :
    {N : Type 0} (creator_id address : String) (now : ℕ) (w : World N)
    → let x = connect creator_id address now w in
      ((find_by user_id creator_id w.db.users ≡ none) × (x ≡ (err not_found, w)))
      ⊎ ((u : User) × (find_by user_id creator_id w.db.users ≡ some u)
          × (find_wallet address w.db ≢ none)
          × (x ≡ (err conflict, w)))
      ⊎ ((u : User) × (find_by user_id creator_id w.db.users ≡ some u)
          × (find_wallet address w.db ≡ none)
          × (x
              ≡ (ok (new_wallet creator_id address now), connected_world creator_id address now w)))
unfolding connect create_wallet resume_waiting_wallet_orders
connect-cases creator_id address now w =
    elim (Option-cases (find_by user_id creator_id w.db.users)) [
      | inl missing ↦ inl (missing, ground (arith, missing))
      | inr (u, known) ↦ elim (Option-cases (find_wallet address w.db)) [
        | inr (v, taken) ↦ inr (inl (u, known, λ e. cc (e, taken), ground (arith, known, taken)))
        | inl free ↦ inr (
            inr (
              u,
              known,
              free,
              ground (
                arith,
                known,
                free,
                resume-emits creator_id address (waiting_orders creator_id w.db)
                    (added creator_id address now w),
              ),
            ))
      ]
    ]
