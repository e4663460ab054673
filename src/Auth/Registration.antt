-- ===== src/Auth/Registration.antt =====
-- Registration (`register`, backend/src/auth/auth.service.ts).
use kreav.Base.{String, ◌≡◌, ◌⊎◌, none, some, [], ◌∷◌, ◌++◌, inl, inr, arith, Option-cases}
use kreav.App.{World, ok, err, conflict}
use kreav.Store.{User}
use kreav.Store.Query.{find_email}
use kreav.Users.{set_users}
use kreav.Users.Distinct.{email_key, username_key, append-HasUnique, IsFree-of_email}
use kreav.Users.Laws.{HasUniqueUsers}
use kreav.Auth.{Memory, AuthTools, RegisterDto, new_user, auth_token, create_user, register}

abbrev pub with_user : User → World Memory → World Memory
with_user u w = record w { db = set_users (λ us. us ++ u ∷ []) w.db }

pub register-cases :
    (tools : AuthTools) (dto : RegisterDto) (id jti : String) (w : World Memory)
    → let x = register tools dto id jti w in
      let u = new_user dto id w.net.clock in
      ((v : User) × (find_email dto.email w.db ≡ some v) × (x ≡ (err conflict, w)))
      ⊎ ((find_email dto.email w.db ≡ none) × (x ≡ (ok (auth_token tools u jti), with_user u w)))
unfolding register create_user
register-cases tools dto id jti w = elim (Option-cases (find_email dto.email w.db)) [
  | inl free ↦ inr (free, ground (arith, free))
  | inr (v, taken) ↦ inl (v, taken, ground (arith, taken))
]

-- A registration keeps the unique indices of the table of users.
pub register-HasUniqueUsers :
    (tools : AuthTools) (dto : RegisterDto) (id jti : String) (w : World Memory)
    → HasUniqueUsers w.db.users
    → HasUniqueUsers (register tools dto id jti w).1.db.users
register-HasUniqueUsers tools dto id jti w h = elim (register-cases tools dto id jti w) [
  | inl (_, _, e) ↦ rw e h
  | inr (free, e) ↦
      let u = new_user dto id w.net.clock in
      rw e (record {
        emails =
            append-HasUnique email_key w.db.users u (IsFree-of_email u w.db.users free) h.emails;
        usernames =
            append-HasUnique username_key w.db.users u (λ k value v found rn rv. cc (rn))
              h.usernames;
      })
]
