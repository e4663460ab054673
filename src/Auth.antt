-- ===== src/Auth.antt =====
-- Registration, the login with a wallet, and sessions (backend/src/auth/auth.service.ts,
-- auth.controller.ts and jwt-auth.guard.ts). The process's memory, with its clock in milliseconds,
-- stands where other services have the network. The Stellar SDK's WebAuth, the digest and the JWT
-- library are parameters.
pub mod Steps
pub mod Laws
pub mod Replay
pub mod Revoked
pub mod Registration
use kreav.Base.{
  ℕ, ◌+◌, ◌*◌, String, Bool, true, false, not, ◌&&◌, Option, none, some, List, [], ◌∷◌, ◌++◌, keep,
  any, ◌==◌, is_some, if◌then◌else◌,
}
use kreav.App.{
  App, Result, ok, err, not_found, conflict, unauthorized, unique_violation, other, pure, throw,
  gets, call, modify, throw_if, or_throw, ◌>>=◌, ◌>>◌,
}
use kreav.Store.{Db, User}
use kreav.Store.Query.{find_user, find_email, find_wallet}
use kreav.Users.{set_users}
use Prim.Native.String

-- An entry of `usedChallenges`: the nonce, and when its timer is due.
pub record Used : Type 0 where
  pub nonce : String
  pub due : ℕ

pub record Memory : Type 0 where
  pub clock : ℕ
  pub used_challenges : List Used
  pub revoked_tokens : List String

pub record JwtPayload : Type 0 where
  pub sub : String
  pub role : String
  pub email : Option String
  pub jti : Option String

-- What the service calls. `read_challenge_tx` gives the client's account, or throws; both checks of
-- a challenge depend on the time.
pub record AuthTools : Type 0 where
  pub digest : String → String
  pub read_challenge_tx : ℕ → String → Option String
  pub verify_challenge_tx_signers : ℕ → String → String → Bool
  pub sign : JwtPayload → String
  pub verify : ℕ → String → Option JwtPayload

-- `RegisterDto`, and the row's id and time.
pub record RegisterDto : Type 0 where
  pub email : String
  pub name : String
  pub role : String

pub record RegisterResponse : Type 0 where
  pub id : String
  pub email : String
  pub name : String
  pub role : String
  pub created_at : ℕ

pub record AuthToken : Type 0 where
  pub token : String
  pub user : RegisterResponse

abbrev pub to_profile : User → RegisterResponse
to_profile u = record {
  id = u.id;
  email = u.email;
  name = u.name;
  role = u.role;
  created_at = u.created_at;
}

abbrev pub challenge_timeout_s : ℕ
challenge_timeout_s = 300

-- `usedChallenges`, read as a map
unfoldable pub due_of : String → List Used → Option ℕ
due_of nonce [] = none
due_of nonce (u ∷ us) = if u.nonce == nonce then some u.due else due_of nonce us

abbrev pub with_used : (List Used → List Used) → Memory → Memory
with_used f m = record m { used_challenges = f m.used_challenges }

-- A nonce that is there is refused, and another is recorded with its timer.
unfoldable pub claim_nonce : String → Memory → Result (Unit {0}) × Memory
unfolding due_of
claim_nonce nonce m = if is_some (due_of nonce m.used_challenges) then (err unauthorized, m) else (
  ok tt,
  with_used (λ us. record { nonce = nonce; due = m.clock + challenge_timeout_s * 1000 } ∷ us) m,
)

-- The timer of a nonce.
abbrev pub delete_nonce : String → Memory → Memory
delete_nonce nonce m = with_used (keep (λ u. not (u.nonce == nonce))) m

abbrev pub clock_of : Memory → Result ℕ × Memory
clock_of m = (ok m.clock, m)

-- The two calls in the `try` block.
abbrev pub read_signed : AuthTools → ℕ → String → Option String
read_signed tools now xdr = elim (tools.read_challenge_tx now xdr) [
  | none ↦ none
  | some account ↦ if tools.verify_challenge_tx_signers now xdr account then some account else none
]

abbrev pub sign_token : AuthTools → User → String → String
sign_token tools u jti =
    tools.sign (record { sub = u.id; role = u.role; email = some u.email; jti = some jti })

abbrev pub auth_token : AuthTools → User → String → AuthToken
auth_token tools u jti = record { token = sign_token tools u jti; user = to_profile u }

abbrev pub new_user : RegisterDto → String → ℕ → User
new_user dto id now = record {
  id = id;
  email = dto.email;
  name = dto.name;
  role = dto.role;
  username = none;
  country = none;
  bio = none;
  avatar_emoji = none;
  accent = none;
  created_at = now;
}

-- `user.create` under the unique index on the email.
pub create_user : User → App Memory (Unit {0})
create_user u = do
  throw_if (is_some (← gets (find_email u.email))) unique_violation
  modify (set_users (λ us. us ++ u ∷ []))

-- `register`, where the new row gets `id` and the token `jti`.
pub register : AuthTools → RegisterDto → String → String → App Memory AuthToken
unfolding create_user
register tools dto id jti = do
  throw_if (is_some (← gets (find_email dto.email))) conflict
  now ← call clock_of
  create_user (new_user dto id now)
  pure (auth_token tools (new_user dto id now) jti)

unfoldable pub wallet_status : String → App Memory Bool
wallet_status address = gets (λ d. is_some (find_wallet address d))

-- `verifyChallenge`: the nonce is recorded before the challenge is checked.
unfoldable pub verify_challenge : AuthTools → String → String → App Memory AuthToken
unfolding claim_nonce
verify_challenge tools xdr jti = do
  call (claim_nonce (tools.digest xdr))
  now ← call clock_of
  account ← or_throw (read_signed tools now xdr) unauthorized
  wallet ← or_throw (← gets (find_wallet account)) unauthorized
  user ← or_throw (← gets (find_user wallet.creator_id)) other
  pure (auth_token tools user jti)

-- `revokeToken`, `isTokenRevoked`
abbrev pub revoke_token : String → Memory → Result (Unit {0}) × Memory
revoke_token jti m = (ok tt, record m { revoked_tokens = jti ∷ m.revoked_tokens })

abbrev pub is_token_revoked : String → Memory → Result Bool × Memory
is_token_revoked jti m = (ok (any (λ j. j == jti) m.revoked_tokens), m)

-- A text that is not empty, as a condition reads it.
abbrev pub truthy : Option String → Option String
truthy none = none
truthy (some s) = if s == "" then none else some s

-- `header?.startsWith('Bearer ') ? header.slice('Bearer '.length) : undefined`
abbrev pub bearer_token : Option String → Option String
bearer_token none = none
bearer_token (some header) =
    if String.slice header 0 7 == "Bearer "
    then truthy (some (String.slice header 7 (String.len header)))
    else none

-- `JwtAuthGuard.canActivate`; the payload is what `req.user` becomes.
unfoldable pub refuse_revoked : Option String → App Memory (Unit {0})
refuse_revoked none = pure tt
refuse_revoked (some jti) = do revoked ← call (is_token_revoked jti); throw_if revoked unauthorized

unfoldable pub can_activate : AuthTools → Option String → App Memory JwtPayload
unfolding refuse_revoked
can_activate tools header = do
  token ← or_throw (bearer_token header) unauthorized
  now ← call clock_of
  payload ← or_throw (tools.verify now token) unauthorized
  refuse_revoked (truthy payload.jti)
  pure payload

-- `logout` behind the guard.
unfoldable pub revoke : Option String → App Memory (Unit {0})
revoke none = pure tt
revoke (some jti) = call (revoke_token jti)

unfoldable pub logout : AuthTools → Option String → App Memory (Unit {0})
unfolding can_activate revoke
logout tools header = do user ← can_activate tools header; revoke (truthy user.jti)
