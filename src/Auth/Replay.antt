-- ===== src/Auth/Replay.antt =====
-- What the authentication service remembers: the challenges that were used (`usedChallenges`) and
-- the tokens that were revoked (`revokedTokens`).
use kreav.Base.{
  ℕ, ◌+◌, ◌*◌, ◌≤◌, ◌<◌, String, true, false, not, ◌≡◌, ◌≢◌, refl, ap, ◌∙◌, Option, none, some,
  List, [], ◌∷◌, inl, inr, arith, any, keep, ◌==◌, Bool-cases, is_some, eq_refl, eq_iff, text-cases,
}
use kreav.App.{World, Result, ok, err, unauthorized}
use kreav.Auth.{
  Used, Memory, AuthTools, AuthToken, JwtPayload, RegisterDto, due_of, claim_nonce, delete_nonce,
  challenge_timeout_s, create_user, register, verify_challenge, can_activate, logout, truthy,
  revoke,
}
use kreav.Auth.Steps.{
  Step, Run, start, then_step, registered, verified, guarded, logged_out, timed_out, waited,
}
use kreav.App.Laws.{>>=-of_ok, >>=-of_err}
use kreav.Auth.Laws.{
  can_activate-cases, can_activate-world, is_revoked, claimed, Verified, replayed, unverified,
  unconnected, ownerless, accepted, verify_challenge-Verified,
}

-- How the memory changes over a call.
pub record Remembers (m n : Memory) : Type 0 where
  pub later : m.clock ≤ n.clock
  pub held :
      (nonce : String) (due : ℕ)
      → due_of nonce m.used_challenges ≡ some due
      → n.clock < due
      → due_of nonce n.used_challenges ≡ some due
  pub revoked :
      (jti : String)
      → any (λ j. j == jti) m.revoked_tokens ≡ true
      → any (λ j. j == jti) n.revoked_tokens ≡ true

pub Remembers-refl : (m : Memory) → Remembers m m
Remembers-refl m = record { later = omega arith; held = λ k d e l. e; revoked = λ j e. e }

pub Remembers-trans : {l m n : Memory} → Remembers l m → Remembers m n → Remembers l n
Remembers-trans a b = record {
  later = omega (arith, a.later, b.later);
  held = λ k d e l. b.held k d (a.held k d e (omega (arith, b.later, l))) l;
  revoked = λ j e. b.revoked j (a.revoked j e);
}

claim_nonce-Remembers : (nonce : String) (m : Memory) → Remembers m (claim_nonce nonce m).1
unfolding claim_nonce
claim_nonce-Remembers nonce m = elim (Bool-cases (is_some (due_of nonce m.used_challenges))) [
  | inl used ↦ rw used (Remembers-refl m)
  | inr fresh ↦ rw fresh (record {
    later = omega arith;
    held = λ k d e l. ground (arith, fresh, eq_iff nonce k);
    revoked = λ j e. e;
  })
]

due_of-keep :
    (nonce other : String) (us : List Used)
    → nonce ≢ other
    → due_of other (keep (λ u. not (u.nonce == nonce)) us) ≡ due_of other us
unfolding due_of
due_of-keep nonce other [] ne = refl
due_of-keep nonce other (u ∷ us) ne =
    ground (arith, eq_iff u.nonce nonce, eq_iff u.nonce other, due_of-keep nonce other us ne)

delete_nonce-Remembers :
    (nonce : String) (due : ℕ) (m : Memory)
    → due_of nonce m.used_challenges ≡ some due
    → due ≤ m.clock
    → Remembers m (delete_nonce nonce m)
delete_nonce-Remembers nonce due m there late = record {
  later = omega arith;
  held = λ k d e l. elim (text-cases nonce k) [
    | inl same ↦ absurd (ground (arith, same))
    | inr other ↦ due_of-keep nonce k m.used_challenges other.0 ∙ e
  ];
  revoked = λ j e. e;
}

revoke-Remembers : (o : Option String) (w : World Memory) → Remembers w.net (revoke o w).1.net
unfolding revoke
revoke-Remembers none w = Remembers-refl w.net
revoke-Remembers (some jti) w = record {
  later = omega arith;
  held = λ k d e l. e;
  revoked = λ j e. ground (arith, e);
}

-- The same, between worlds.
abbrev pub RemembersAll : World Memory → World Memory → Type 0
RemembersAll v w = Remembers v.net w.net

of_same_net : (v w : World Memory) → w.net ≡ v.net → RemembersAll v w
of_same_net v w e = rw e (Remembers-refl v.net)

register-net :
    (tools : AuthTools) (dto : RegisterDto) (id jti : String) (w : World Memory)
    → (register tools dto id jti w).1.net ≡ w.net
unfolding register create_user
register-net tools dto id jti w = ground arith

-- `logout` with a token that the guard lets pass revokes it.
pub logout-of_valid :
    (tools : AuthTools) (header : Option String) (w : World Memory) (payload : JwtPayload)
    → can_activate tools header w ≡ (ok payload, w)
    → logout tools header w ≡ revoke (truthy payload.jti) w
unfolding logout
logout-of_valid tools header w payload e =
    >>=-of_ok (can_activate tools header) (λ user. revoke (truthy user.jti)) w e

pub logout-of_invalid :
    (tools : AuthTools) (header : Option String) (w : World Memory)
    → can_activate tools header w ≡ (err unauthorized, w)
    → logout tools header w ≡ (err unauthorized, w)
unfolding logout
logout-of_invalid tools header w e =
    >>=-of_err (can_activate tools header) (λ user. revoke (truthy user.jti)) w e

logout-Remembers :
    (tools : AuthTools) (header : Option String) (w : World Memory)
    → RemembersAll w (logout tools header w).1
logout-Remembers tools header w = elim (can_activate-cases tools header w) [
  | inl (_, e) ↦ rw (logout-of_invalid tools header w e) (Remembers-refl w.net)
  | inr (_, payload, _, _, e) ↦ elim (Bool-cases (is_revoked (truthy payload.jti) w.net)) [
    | inl gone ↦ rw (logout-of_invalid tools header w (rw gone at e)) (Remembers-refl w.net)
    | inr live ↦
        rw (logout-of_valid tools header w payload (rw live at e))
          (revoke-Remembers (truthy payload.jti) w)
  ]
]

-- Over any run: a challenge that was used is remembered until it is due, and a revoked token for
-- good.
step-Remembers : (tools : AuthTools) (v w : World Memory) → Step tools v w → RemembersAll v w
step-Remembers tools v w (registered dto id jti) = of_same_net v w (register-net tools dto id jti v)
step-Remembers tools v w (verified xdr jti) =
    claimed_or_same (verify_challenge-Verified tools xdr jti v)
  where
    x : Result AuthToken × World Memory
    x = verify_challenge tools xdr jti v

    by : x.1 ≡ claimed tools xdr v → RemembersAll v x.1
    by e = rw e (claim_nonce-Remembers (tools.digest xdr) v.net)

    claimed_or_same : Verified tools xdr jti v x → RemembersAll v x.1
    claimed_or_same (replayed _ e) = of_same_net v x.1 (ap (λ y. y.1.net) e)
    claimed_or_same (unverified _ e) = by (ap (λ y. y.1) e)
    claimed_or_same (unconnected _ _ _ e) = by (ap (λ y. y.1) e)
    claimed_or_same (ownerless _ _ _ _ e) = by (ap (λ y. y.1) e)
    claimed_or_same (accepted _ _ _ _ _ _ _ e) = by (ap (λ y. y.1) e)
step-Remembers tools v w (guarded header) =
    of_same_net v w (ap (λ y. y.net) (can_activate-world tools header v))
step-Remembers tools v w (logged_out header) = logout-Remembers tools header v
step-Remembers tools v w (timed_out nonce due there late) =
    delete_nonce-Remembers nonce due v.net there late
step-Remembers tools v w (waited later more) = record {
  later = more;
  held = λ k d e l. e;
  revoked = λ j e. e;
}

pub Run-Remembers : (tools : AuthTools) (v w : World Memory) → Run tools v w → RemembersAll v w
Run-Remembers tools v w start = Remembers-refl v.net
Run-Remembers tools v w (then_step {u} r last) =
    Remembers-trans (Run-Remembers tools v u r) (step-Remembers tools u w last)

claimed-due :
    (tools : AuthTools) (xdr : String) (v : World Memory)
    → is_some (due_of (tools.digest xdr) v.net.used_challenges) ≡ false
    → due_of (tools.digest xdr) (claimed tools xdr v).net.used_challenges
      ≡ some (v.net.clock + challenge_timeout_s * 1000)
unfolding claim_nonce due_of
claimed-due tools xdr v fresh = ground (arith, fresh, eq_refl (tools.digest xdr))

verify_challenge-world :
    (tools : AuthTools) (xdr jti : String) (v : World Memory)
    → is_some (due_of (tools.digest xdr) v.net.used_challenges) ≡ false
    → (verify_challenge tools xdr jti v).1 ≡ claimed tools xdr v
verify_challenge-world tools xdr jti v fresh = go (verify_challenge-Verified tools xdr jti v)
  where
    go :
        Verified tools xdr jti v (verify_challenge tools xdr jti v)
        → (verify_challenge tools xdr jti v).1 ≡ claimed tools xdr v
    go (replayed used _) = cc
    go (unverified _ e) = ap (λ y. y.1) e
    go (unconnected _ _ _ e) = ap (λ y. y.1) e
    go (ownerless _ _ _ _ e) = ap (λ y. y.1) e
    go (accepted _ _ _ _ _ _ _ e) = ap (λ y. y.1) e

verify_challenge-of_used :
    (tools : AuthTools) (xdr jti : String) (w : World Memory) {due : ℕ}
    → due_of (tools.digest xdr) w.net.used_challenges ≡ some due
    → verify_challenge tools xdr jti w ≡ (err unauthorized, w)
unfolding verify_challenge claim_nonce
verify_challenge-of_used tools xdr jti w e = ground (arith, e)

-- A signed challenge that was handed in once, whether it was accepted or not, is refused as used for
-- the next 300 seconds, whatever else is called in between and whenever the timers run.
pub verify_challenge-once :
    (tools : AuthTools) (xdr jti again : String) (v w : World Memory)
    → is_some (due_of (tools.digest xdr) v.net.used_challenges) ≡ false
    → Run tools (verify_challenge tools xdr jti v).1 w
    → w.net.clock < v.net.clock + challenge_timeout_s * 1000
    → verify_challenge tools xdr again w ≡ (err unauthorized, w)
verify_challenge-once tools xdr jti again v w fresh r soon =
    let after = verify_challenge-world tools xdr jti v fresh in
    let held = (Run-Remembers tools (verify_challenge tools xdr jti v).1 w r).held in
    verify_challenge-of_used tools xdr again w (
      held (tools.digest xdr) (v.net.clock + challenge_timeout_s * 1000)
        (ap (λ y. due_of (tools.digest xdr) y.net.used_challenges) after
          ∙ claimed-due tools xdr v fresh)
        soon)
