-- ===== src/Users.antt =====
-- The profile of a user (backend/src/users/users.service.ts), and the writes of the table of users
-- under its unique indices.
pub mod Distinct
pub mod Laws
use kreav.Base.{
  ◌||◌, ℕ, String, Bool, true, false, not, ◌&&◌, Option, none, some, List, [], ◌∷◌, ◌++◌, map, keep,
  any, ◌==◌, is_some, if◌then◌else◌,
}
use kreav.App.{
  App, not_found, conflict, unique_violation, other, pure, gets, modify, throw_if, or_throw, ◌>>=◌,
  ◌>>◌,
}
use kreav.Store.{Db, User, is_active, Product, FeaturedProduct, CustomLink, SocialLink}
use kreav.Store.Table.{update_by}
use kreav.Store.Query.{user_id, find_user, find_username, has_username}

abbrev pub set_users : (List User → List User) → Db → Db
set_users f d = record d { users = f d.users }

-- Whether a row other than `id` has the username.
abbrev pub is_taken : String → Option String → List User → Bool
is_taken id none us = false
is_taken id (some name) us = any (λ u. not (u.id == id) && has_username name u) us

-- The username that an update gives to a row, if it is another one than before.
abbrev pub new_name : Option String → User → Option String
new_name none u = none
new_name (some name) u = if has_username name u then none else some name

-- `UpdateProfileDto`; a field that is absent is not changed.
pub record ProfileDto : Type 0 where
  pub name : Option String
  pub username : Option String
  pub country : Option String
  pub bio : Option String
  pub avatar_emoji : Option String
  pub accent : Option String

-- `dto.f !== undefined && { f: dto.f }`
abbrev given {ℓ} : {A : Type ℓ} → Option A → A → A
given none old = old
given (some new) old = new

abbrev given_some {ℓ} : {A : Type ℓ} → Option A → Option A → Option A
given_some none old = old
given_some (some new) old = some new

abbrev pub patched_profile : ProfileDto → User → User
patched_profile dto u = record u {
  name = given dto.name u.name;
  username = given_some dto.username u.username;
  country = given_some dto.country u.country;
  bio = given_some dto.bio u.bio;
  avatar_emoji = given_some dto.avatar_emoji u.avatar_emoji;
  accent = given_some dto.accent u.accent;
}

-- `dto.username && dto.username !== user.username`
abbrev pub new_username : ProfileDto → User → Option String
new_username dto u = elim dto.username [
  | none ↦ none
  | some name ↦ if name == "" then none else new_name (some name) u
]

-- Whether the wanted name belongs to a row.
abbrev pub is_used : Option String → Db → Bool
is_used none d = false
is_used (some name) d = is_some (find_username name d.users)

pub record ProfileResponse : Type 0 where
  pub id : String
  pub email : String
  pub name : String
  pub username : Option String
  pub country : Option String
  pub bio : Option String
  pub avatar_emoji : Option String
  pub accent : Option String
  pub role : String
  pub created_at : ℕ

abbrev pub to_profile_response : User → ProfileResponse
to_profile_response u = record {
  id = u.id;
  email = u.email;
  name = u.name;
  username = u.username;
  country = u.country;
  bio = u.bio;
  avatar_emoji = u.avatar_emoji;
  accent = u.accent;
  role = u.role;
  created_at = u.created_at;
}

module _ {N : Type 0} where
  -- `user.update({ where: { id }, data })` under the unique index on the username; a missing row is
  -- refused (P2025).
  unfoldable pub update_user : String → (User → User) → App N User
  update_user id change = do
    u ← or_throw (← gets (find_user id)) other
    throw_if (← gets (λ d. is_taken id (new_name (change u).username u) d.users)) unique_violation
    modify (set_users (update_by user_id id change))
    pure (change u)

  pub get_profile : String → App N ProfileResponse
  get_profile id = do u ← or_throw (← gets (find_user id)) not_found; pure (to_profile_response u)

  pub update_profile : String → ProfileDto → App N ProfileResponse
  unfolding update_user
  update_profile id dto = do
    u ← or_throw (← gets (find_user id)) not_found
    throw_if (← gets (is_used (new_username dto u))) conflict
    updated ← update_user id (patched_profile dto)
    pure (to_profile_response updated)

  -- `checkUsername`, whether the name is available.
  unfoldable pub check_username : String → App N Bool
  check_username name = do
    existing ← gets (λ d. find_username name d.users)
    pure (not (is_some existing))
