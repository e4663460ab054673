-- ===== src/Accounts.antt =====
-- The calls that write the table of users, in any order: `register` (backend/src/auth/auth.service.ts),
-- `updateProfile` (backend/src/users/users.service.ts) and `updateSite`
-- (backend/src/site/site.service.ts).
use kreav.Base.{String, ◌≡◌, ◌≢◌, ◌⊎◌, ap, some, none, inl, inr}
use kreav.App.{World, err, conflict, unique_violation}
use kreav.Store.Query.{find_email}
use kreav.Auth.{Memory, AuthTools, RegisterDto, register}
use kreav.Auth.Registration.{register-cases, register-HasUniqueUsers}
use kreav.Users.{ProfileDto, update_profile}
use kreav.Users.Laws.{update_profile-cases, HasUniqueUsers, update_profile-HasUniqueUsers}
use kreav.Site.{SiteDto, update_site}
use kreav.Site.Laws.{update_site-HasUniqueUsers}

-- A profile's username has three characters at least (`UpdateProfileDto`).
pub data Step (tools : AuthTools) (w : World Memory) : World Memory → Type 0 where
  registered : (dto : RegisterDto) (id jti : String) → Step tools w (register tools dto id jti w).1
  profile_updated :
      (id : String) (dto : ProfileDto)
      → dto.username ≢ some ""
      → Step tools w (update_profile id dto w).1
  site_updated : (id : String) (dto : SiteDto) → Step tools w (update_site id dto w).1

pub data Run (tools : AuthTools) (w : World Memory) : World Memory → Type 0 where
  start : Run tools w w
  then_step : {u v : World Memory} → Run tools w u → Step tools u v → Run tools w v

kept :
    (tools : AuthTools) (v w : World Memory)
    → Run tools v w
    → HasUniqueUsers v.db.users
    → HasUniqueUsers w.db.users
kept tools v w start h = h
kept tools v w (then_step {u} r (registered dto id jti)) h =
    register-HasUniqueUsers tools dto id jti u (kept tools v u r h)
kept tools v w (then_step {u} r (profile_updated id dto named)) h =
    update_profile-HasUniqueUsers id dto u named (kept tools v u r h)
kept tools v w (then_step {u} r (site_updated id dto)) h =
    update_site-HasUniqueUsers id dto u (kept tools v u r h)

never_registered :
    (tools : AuthTools) (dto : RegisterDto) (id jti : String) (w : World Memory)
    → (register tools dto id jti w).0 ≢ err unique_violation
never_registered tools dto id jti w e = elim (register-cases tools dto id jti w) [
  | inl (_, _, x) ↦ cc (ap (λ t. t.0) x, e)
  | inr (_, x) ↦ cc (ap (λ t. t.0) x, e)
]

never_updated :
    (id : String) (dto : ProfileDto) (w : World Memory)
    → dto.username ≢ some ""
    → (update_profile id dto w).0 ≢ err unique_violation
never_updated id dto w named e = elim (update_profile-cases id dto w named) [
  | inl (_, x) ↦ cc (ap (λ t. t.0) x, e)
  | inr (inl (_, _, _, x)) ↦ cc (ap (λ t. t.0) x, e)
  | inr (inr (_, _, _, x, _)) ↦ cc (ap (λ t. t.0) x, e)
]

taken_email :
    (tools : AuthTools) (dto : RegisterDto) (id jti : String) (w : World Memory)
    → (find_email dto.email w.db ≡ none) ⊎ (register tools dto id jti w ≡ (err conflict, w))
taken_email tools dto id jti w = elim (register-cases tools dto id jti w) [
  | inl (_, _, x) ↦ inr x
  | inr (free, _) ↦ inl free
]

-- However registrations and updates of profiles and pages follow each other, no two users ever share
-- an email or a username, where none did before. No registration that follows, and no update of a
-- profile to a username that is not empty, runs into the table's index; a registration of an email
-- that is taken is a conflict and changes nothing.
pub Run-HasUniqueUsers :
    (tools : AuthTools) (v w : World Memory) (dto : RegisterDto) (id jti : String)
    (profile : ProfileDto)
    → Run tools v w
    → HasUniqueUsers v.db.users
    → profile.username ≢ some ""
    → HasUniqueUsers w.db.users
      × ((register tools dto id jti w).0 ≢ err unique_violation)
      × ((update_profile id profile w).0 ≢ err unique_violation)
      × ((find_email dto.email w.db ≡ none) ⊎ (register tools dto id jti w ≡ (err conflict, w)))
Run-HasUniqueUsers tools v w dto id jti profile run h named = (
  kept tools v w run h,
  never_registered tools dto id jti w,
  never_updated id profile w named,
  taken_email tools dto id jti w,
)
