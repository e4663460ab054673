-- ===== src/Users/Distinct.antt =====
-- The unique indices of the table of users: no two users share a value of the column `key`.
use kreav.Base.{
  String, ◌≡◌, ◌≢◌, ◌⊎◌, sym, ap, ◌∙◌, Option, none, some, List, [], ◌∷◌, ◌++◌, arith, inl, inr,
  false, text-cases, eq_iff, eq_refl,
}
use kreav.Store.{User}
use kreav.Store.Table.{find_by, update_by, find_by-update_by_self, find_by-update_by_ne}
use kreav.Store.Query.{user_id, user_email}
use kreav.Users.{is_taken}

pub record HasUnique (key : User → Option String) (us : List User) : Type 0 where
  pub unique :
      (j k value : String) (u v : User)
      → find_by user_id j us ≡ some u
      → find_by user_id k us ≡ some v
      → key u ≡ some value
      → key v ≡ some value
      → j ≡ k

abbrev pub email_key : User → Option String
email_key u = some u.email

abbrev pub username_key : User → Option String
username_key u = u.username

-- A user whose value only the user `id` may hold.
abbrev pub IsFree : (User → Option String) → String → User → List User → Type 0
IsFree key id n us =
    (k value : String) (v : User)
    → find_by user_id k us ≡ some v
    → key n ≡ some value
    → key v ≡ some value
    → k ≡ id

module _ (key : User → Option String) where
  updated_row :
      (id : String) (f : User → User) (us : List User) (u : User) (j : String) {v : User}
      → ((x : User) → (f x).id ≡ x.id)
      → find_by user_id id us ≡ some u
      → find_by user_id j (update_by user_id id f us) ≡ some v
      → ((j ≡ id) × (v ≡ f u)) ⊎ (find_by user_id j us ≡ some v)
  updated_row id f us u j {v} keeps found e = elim (text-cases id j) [
    | inr other ↦ inr (sym (find_by-update_by_ne user_id id f keeps j us other.0) ∙ e)
    | inl same ↦ inl (sym same, at_id (rw (← same) at e))
  ]
    where
      at_id : find_by user_id id (update_by user_id id f us) ≡ some v → v ≡ f u
      at_id g = ground (arith, find_by-update_by_self user_id id f keeps us found)

  -- An update of one row to a value that no other row has.
  pub update-HasUnique :
      (id : String) (f : User → User) (us : List User) (u : User)
      → ((x : User) → (f x).id ≡ x.id)
      → find_by user_id id us ≡ some u
      → IsFree key id (f u) us
      → HasUnique key us
      → HasUnique key (update_by user_id id f us)
  update-HasUnique id f us u keeps found free h = record {
    unique = λ j k value v w ej ek rv rw'. elim (updated_row id f us u j keeps found ej) [
      | inl (ji, same) ↦ elim (updated_row id f us u k keeps found ek) [
        | inl (ki, _) ↦ ji ∙ sym ki
        | inr old ↦ ji ∙ sym (free k value w old (sym (ap key same) ∙ rv) rw')
      ]
      | inr old ↦ elim (updated_row id f us u k keeps found ek) [
        | inl (ki, same) ↦ free j value v old (sym (ap key same) ∙ rw') rv ∙ sym ki
        | inr old' ↦ h.unique j k value v w old old' rv rw'
      ]
    ];
  }

  appended_row :
      (us : List User) (n : User) (j : String) {v : User}
      → find_by user_id j (us ++ n ∷ []) ≡ some v
      → ((j ≡ n.id) × (v ≡ n)) ⊎ (find_by user_id j us ≡ some v)
  unfolding find_by
  appended_row [] n j e = ground (arith, eq_iff n.id j)
  appended_row (u ∷ us) n j {v} e = ground (arith, appended_row us n j {v = v})

  -- A new row at the end of the table.
  pub append-HasUnique :
      (us : List User) (n : User)
      → IsFree key n.id n us
      → HasUnique key us
      → HasUnique key (us ++ n ∷ [])
  append-HasUnique us n free h = record {
    unique = λ j k value v w ej ek rv rw'. elim (appended_row us n j ej) [
      | inl (ji, same) ↦ elim (appended_row us n k ek) [
        | inl (ki, _) ↦ ji ∙ sym ki
        | inr old ↦ ji ∙ sym (free k value w old (sym (ap key same) ∙ rv) rw')
      ]
      | inr old ↦ elim (appended_row us n k ek) [
        | inl (ki, same) ↦ free j value v old (sym (ap key same) ∙ rw') rv ∙ sym ki
        | inr old' ↦ h.unique j k value v w old old' rv rw'
      ]
    ];
  }

untaken :
    (id k value : String) (us : List User) {v : User}
    → is_taken id (some value) us ≡ false
    → find_by user_id k us ≡ some v
    → v.username ≡ some value
    → k ≡ id
unfolding find_by
untaken id k value [] free e r = cc
untaken id k value (u ∷ us) {v} free e r =
    ground (arith, eq_iff u.id k, eq_iff u.id id, eq_refl value, untaken id k value us {v = v})

-- The tests of the index and of the services give the premise.
pub IsFree-of_is_taken :
    (id : String) (n : User) (us : List User)
    → is_taken id n.username us ≡ false
    → IsFree username_key id n us
IsFree-of_is_taken id n us free k value v e rn rv =
    untaken id k value us (ap (λ o. is_taken id o us) (sym rn) ∙ free) e rv

unregistered :
    (email k : String) (us : List User) {v : User}
    → find_by user_email email us ≡ none
    → find_by user_id k us ≡ some v
    → v.email ≢ email
unfolding find_by
unregistered email k [] free e = cc
unregistered email k (u ∷ us) {v} free e =
    λ r. ground (arith, eq_iff u.email email, unregistered email k us {v = v})

pub IsFree-of_email :
    (n : User) (us : List User) → find_by user_email n.email us ≡ none → IsFree email_key n.id n us
IsFree-of_email n us free k value v e rn rv =
    absurd (unregistered n.email k us free e (ground arith))
