-- ===== src/Users/Laws.antt =====
-- Profiles that are read and changed (backend/src/users/users.service.ts).
use kreav.Base.{
  String, Bool, ◌≡◌, ◌≢◌, ◌⊎◌, refl, sym, ap, ◌∙◌, Option, none, some, List, [], ◌∷◌, arith, inl,
  inr, true, false, Option-cases, Bool-cases, eq_iff, eq_refl, is_some, ◌==◌, eq_false_of_ne,
}
use kreav.App.{World, ok, err, not_found, conflict}
use kreav.Store.{Db, User}
use kreav.Store.Table.{find_by, update_by, find_by-update_by_self}
use kreav.Store.Query.{user_id, find_user, find_username, has_username}
use kreav.Users.{
  set_users, is_taken, new_name, ProfileDto, patched_profile, new_username, is_used,
  to_profile_response, update_user, get_profile, update_profile,
}
use kreav.Users.Distinct.{
  HasUnique, email_key, username_key, update-HasUnique, IsFree, IsFree-of_is_taken,
}

pub record HasUniqueUsers (us : List User) : Type 0 where
  pub emails : HasUnique email_key us
  pub usernames : HasUnique username_key us

abbrev pub rewritten : {N : Type 0} → String → (User → User) → World N → World N
rewritten id change w = record w { db = set_users (update_by user_id id change) w.db }

-- The name an update gives is free for the row, whether it is new or stays.
new_name-IsFree :
    (id : String) (us : List User) (u n : User)
    → find_by user_id id us ≡ some u
    → is_taken id (new_name n.username u) us ≡ false
    → HasUnique username_key us
    → IsFree username_key id n us
new_name-IsFree id us u n found free h k value v e rn rv =
    elim (Bool-cases (has_username value u)) [
      | inl stays ↦ h.unique k id value v u e found rv (holds u.username stays)
      | inr new ↦
          IsFree-of_is_taken id (record u { username = some value }) us (ground (arith, new)) k
            value v e refl rv
    ]
  where
    holds :
        (o : Option String)
        → (elim o as (λ _. Bool) [ none ↦ false | some n ↦ n == value ]) ≡ true
        → o ≡ some value
    holds none h = cc
    holds (some n) h = ap some ((eq_iff n value).0 h)

-- An update that keeps id and email, to a free name, keeps the indices.
pub rewritten-HasUniqueUsers :
    (id : String) (change : User → User) (us : List User) (u : User)
    → ((u : User) → (change u).id ≡ u.id)
    → ((u : User) → (change u).email ≡ u.email)
    → find_by user_id id us ≡ some u
    → is_taken id (new_name (change u).username u) us ≡ false
    → HasUniqueUsers us
    → HasUniqueUsers (update_by user_id id change us)
rewritten-HasUniqueUsers id change us u same_id same_email found free h = record {
  emails =
      update-HasUnique email_key id change us u same_id found
        (λ k value v e rn rv.
          h.emails.unique k id value v u e found rv (ap some (sym (same_email u)) ∙ rn))
        h.emails;
  usernames =
      update-HasUnique username_key id change us u same_id found
        (new_name-IsFree id us u (change u) found free h.usernames) h.usernames;
}

find_username-taken :
    (id name : String) (us : List User)
    → find_username name us ≡ none
    → is_taken id (some name) us ≡ false
unfolding find_username
find_username-taken id name [] e = refl
find_username-taken id name (u ∷ us) e = ground (arith, find_username-taken id name us)

none_of : (o : Option User) → is_some o ≡ false → o ≡ none
none_of none e = refl
none_of (some u) e = cc

own_name : (u : User) (o : Option String) → u.username ≡ o → new_name o u ≡ none
own_name u none e = refl
own_name u (some n) e = rw (e, eq_refl n) refl

wanted_name :
    (id name : String) (u : User) (d : Db)
    → name ≢ ""
    → is_used (new_name (some name) u) d ≡ false
    → is_taken id (new_name (some name) u) d.users ≡ false
wanted_name id name u d named f = elim (Bool-cases (has_username name u)) [
  | inl same ↦ rw same refl
  | inr new ↦
      rw new
        (find_username-taken id name d.users (none_of (find_username name d.users) (rw new at f)))
]

-- The test of the service is the index's.
profile-free :
    (id : String) (dto : ProfileDto) (u : User) (d : Db)
    → dto.username ≢ some ""
    → is_used (new_username dto u) d ≡ false
    → is_taken id (new_name (patched_profile dto u).username u) d.users ≡ false
profile-free id dto u d named free = elim (Option-cases dto.username) [
  | inl absent ↦ rw (absent, own_name u u.username refl) refl
  | inr (name, given) ↦
      let ne : name ≢ "" = λ e. named (given ∙ ap some e) in
      rw given (wanted_name id name u d ne (rw (given, eq_false_of_ne name "" ne) at free))
]

-- A profile's update of an unknown user is not found and one to another user's name a conflict, and
-- neither changes anything; any other writes the fields that were given, and is what the profile
-- then shows. No update that the service lets pass is refused by the index on usernames.
pub update_profile-cases :
    {N : Type 0} (id : String) (dto : ProfileDto) (w : World N)
    → dto.username ≢ some ""
    → let x = update_profile id dto w in
      ((find_user id w.db ≡ none) × (x ≡ (err not_found, w)))
      ⊎ ((u : User) × (find_user id w.db ≡ some u)
          × (is_used (new_username dto u) w.db ≡ true)
          × (x ≡ (err conflict, w)))
      ⊎ ((u : User) × (find_user id w.db ≡ some u)
          × (is_used (new_username dto u) w.db ≡ false)
          × (x ≡ (
            ok (to_profile_response (patched_profile dto u)),
            rewritten id (patched_profile dto) w,
          ))
          × (get_profile id x.1 ≡ x))
unfolding update_profile update_user get_profile
update_profile-cases id dto w named = elim (Option-cases (find_user id w.db)) [
  | inl missing ↦ inl (missing, ground (arith, missing))
  | inr (u, found) ↦ elim (Bool-cases (is_used (new_username dto u) w.db)) [
    | inl used ↦ inr (inl (u, found, used, ground (arith, found, used)))
    | inr free ↦ inr (
        inr (
          u,
          found,
          free,
          ground (arith, found, free, profile-free id dto u w.db named free),
          ground (
            arith,
            found,
            free,
            profile-free id dto u w.db named free,
            find_by-update_by_self user_id id (patched_profile dto) (λ x. refl) w.db.users found,
          ),
        ))
  ]
]

-- An update of a profile keeps the indices.
pub update_profile-HasUniqueUsers :
    {N : Type 0} (id : String) (dto : ProfileDto) (w : World N)
    → dto.username ≢ some ""
    → HasUniqueUsers w.db.users
    → HasUniqueUsers (update_profile id dto w).1.db.users
update_profile-HasUniqueUsers id dto w named h = elim (update_profile-cases id dto w named) [
  | inl (_, e) ↦ rw e h
  | inr (inl (_, _, _, e)) ↦ rw e h
  | inr (inr (u, found, free, e, _)) ↦ rw e (
      rewritten-HasUniqueUsers id (patched_profile dto) w.db.users u (λ x. refl) (λ x. refl) found
        (profile-free id dto u w.db named free) h)
]
