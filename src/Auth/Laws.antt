-- ===== src/Auth/Laws.antt =====
-- How a login, a registration and the guard can end (backend/src/auth).
use kreav.Base.{
  ◌==◌, String, Bool, true, false, ◌≡◌, ◌⊎◌, refl, ap, Option, none, some, inl, inr, arith, any,
  Option-cases, Bool-cases, if◌then◌else◌, is_some,
}
use kreav.App.{World, Result, ok, err, unauthorized, other}
use kreav.Store.{User, Wallet}
use kreav.Store.Query.{find_user, find_wallet}
use kreav.Auth.{
  Memory, AuthTools, AuthToken, JwtPayload, auth_token, read_signed, due_of, claim_nonce,
  verify_challenge, can_activate, truthy, bearer_token, refuse_revoked,
}
use kreav.Auth.Steps.{with_net}

-- The world with the nonce of the challenge recorded.
abbrev pub claimed : AuthTools → String → World Memory → World Memory
claimed tools xdr w = with_net w (claim_nonce (tools.digest xdr) w.net).1

-- How the verification of a challenge ends.
pub data Verified (tools : AuthTools) (xdr jti : String) (w : World Memory)
    (x : Result AuthToken × World Memory) : Type 0 where
  replayed :
      is_some (due_of (tools.digest xdr) w.net.used_challenges) ≡ true
      → x ≡ (err unauthorized, w)
      → Verified tools xdr jti w x
  unverified :
      read_signed tools w.net.clock xdr ≡ none
      → x ≡ (err unauthorized, claimed tools xdr w)
      → Verified tools xdr jti w x
  unconnected :
      (account : String)
      → read_signed tools w.net.clock xdr ≡ some account
      → find_wallet account w.db ≡ none
      → x ≡ (err unauthorized, claimed tools xdr w)
      → Verified tools xdr jti w x
  ownerless :
      (account : String) (wallet : Wallet)
      → find_wallet account w.db ≡ some wallet
      → find_user wallet.creator_id w.db ≡ none
      → x ≡ (err other, claimed tools xdr w)
      → Verified tools xdr jti w x
  accepted :
      (account : String) (wallet : Wallet) (user : User)
      → is_some (due_of (tools.digest xdr) w.net.used_challenges) ≡ false
      → read_signed tools w.net.clock xdr ≡ some account
      → find_wallet account w.db ≡ some wallet
      → find_user wallet.creator_id w.db ≡ some user
      → x ≡ (ok (auth_token tools user jti), claimed tools xdr w)
      → Verified tools xdr jti w x

-- Every way in which the verification of a signed challenge can end: it was used before and nothing
-- changes; or its nonce is recorded, whatever comes of it, and there is a token only if the challenge
-- was read, signed by the account that it names, and that account is the wallet of a user, who the
-- token is for.
pub verify_challenge-Verified :
    (tools : AuthTools) (xdr jti : String) (w : World Memory)
    → Verified tools xdr jti w (verify_challenge tools xdr jti w)
unfolding verify_challenge claim_nonce
verify_challenge-Verified tools xdr jti w =
    elim (Bool-cases (is_some (due_of (tools.digest xdr) w.net.used_challenges))) [
      | inl used ↦ replayed used (ground (arith, used))
      | inr fresh ↦ elim (Option-cases (read_signed tools w.net.clock xdr)) [
        | inl unread ↦ unverified unread (ground (arith, fresh, unread))
        | inr (account, read) ↦ elim (Option-cases (find_wallet account w.db)) [
          | inl unknown ↦ unconnected account read unknown (ground (arith, fresh, read, unknown))
          | inr (wallet, known) ↦ elim (Option-cases (find_user wallet.creator_id w.db)) [
            | inl missing ↦
                ownerless account wallet known missing (ground (arith, fresh, read, known, missing))
            | inr (user, owner) ↦
                accepted account wallet user fresh read known owner
                  (ground (arith, fresh, read, known, owner))
          ]
        ]
      ]
    ]

-- Whether a token's id is among those that were revoked.
abbrev pub is_revoked : Option String → Memory → Bool
is_revoked none m = false
is_revoked (some jti) m = any (λ j. j == jti) m.revoked_tokens

refuse_revoked-eq :
    (o : Option String) (w : World Memory)
    → refuse_revoked o w ≡ (if is_revoked o w.net then err unauthorized else ok tt, w)
unfolding refuse_revoked
refuse_revoked-eq none w = refl
refuse_revoked-eq (some jti) w = ground arith

abbrev guarded_by : JwtPayload → World Memory → Result JwtPayload × World Memory
guarded_by payload w =
    (if is_revoked (truthy payload.jti) w.net then err unauthorized else ok payload, w)

pub can_activate-cases :
    (tools : AuthTools) (header : Option String) (w : World Memory)
    → let x = can_activate tools header w in
      (((token : String) → bearer_token header ≡ some token → tools.verify w.net.clock token ≡ none)
        × (x ≡ (err unauthorized, w)))
      ⊎ ((token : String) × (payload : JwtPayload) × (bearer_token header ≡ some token)
          × (tools.verify w.net.clock token ≡ some payload)
          × (x ≡ guarded_by payload w))
unfolding can_activate
can_activate-cases tools header w = elim (Option-cases (bearer_token header)) [
  | inl missing ↦ inl (λ t e. cc (e, missing), ground (arith, missing))
  | inr (token, given) ↦ elim (Option-cases (tools.verify w.net.clock token)) [
    | inl invalid ↦ inl (λ t e. ground (arith, e, given, invalid), ground (arith, given, invalid))
    | inr (payload, valid) ↦ inr (
      token,
      payload,
      given,
      valid,
      ground (arith, given, valid, refuse_revoked-eq (truthy payload.jti) w),
    )
  ]
]

pub can_activate-world :
    (tools : AuthTools) (header : Option String) (w : World Memory)
    → (can_activate tools header w).1 ≡ w
can_activate-world tools header w = elim (can_activate-cases tools header w) [
  | inl (_, e) ↦ ap (λ y. y.1) e
  | inr (_, _, _, _, e) ↦ ap (λ y. y.1) e
]
