-- ===== src/Auth/Revoked.antt =====
-- A token after its logout (`logout` of auth.controller.ts, jwt-auth.guard.ts).
use kreav.Base.{
  String, true, ◌≡◌, sym, ap, ◌∙◌, Option, some, inl, inr, arith, Bool-cases, if◌then◌else◌,
  eq_refl,
}
use kreav.App.{World, ok, err, unauthorized}
use kreav.Auth.{Memory, AuthTools, JwtPayload, can_activate, logout, truthy, bearer_token, revoke}
use kreav.Auth.Steps.{Run}
use kreav.Auth.Laws.{can_activate-cases, is_revoked}
use kreav.Auth.Replay.{Run-Remembers, logout-of_valid, logout-of_invalid}

can_activate-of_token :
    (tools : AuthTools) (header : Option String) (w : World Memory) (token : String)
    (payload : JwtPayload)
    → bearer_token header ≡ some token
    → tools.verify w.net.clock token ≡ some payload
    → can_activate tools header w
      ≡ (if is_revoked (truthy payload.jti) w.net then err unauthorized else ok payload, w)
can_activate-of_token tools header w token payload given valid =
    elim (can_activate-cases tools header w) [
      | inl (none_valid, e) ↦ absurd (ground (arith, none_valid token given, valid))
      | inr (t, p, gt, vp, e) ↦ ground (arith, e, gt, vp, given, valid)
    ]

logout-revokes :
    (tools : AuthTools) (header : Option String) (v : World Memory) (payload : JwtPayload)
    (jti : String)
    → can_activate tools header v
      ≡ (if is_revoked (truthy payload.jti) v.net then err unauthorized else ok payload, v)
    → truthy payload.jti ≡ some jti
    → is_revoked (some jti) (logout tools header v).1.net ≡ true
unfolding revoke
logout-revokes tools header v payload jti e named =
    elim (Bool-cases (is_revoked (truthy payload.jti) v.net)) [
      | inl gone ↦
          ap (λ y. is_revoked (some jti) y.1.net) (logout-of_invalid tools header v (rw gone at e))
          ∙ ap (λ o. is_revoked o v.net) (sym named)
          ∙ gone
      | inr live ↦
          ap (λ y. is_revoked (some jti) y.1.net)
            (logout-of_valid tools header v payload (rw live at e))
          ∙ ap (λ o. is_revoked (some jti) (revoke o v).1.net) named
          ∙ ground (arith, eq_refl jti)
    ]

-- After a logout with a valid token that has an id, every request with a token of that id is
-- unauthorized and changes nothing, whatever was called in between.
pub can_activate-after_logout :
    (tools : AuthTools) (v w : World Memory) (header later : Option String)
    (token token' jti : String) (payload payload' : JwtPayload)
    → bearer_token header ≡ some token
    → tools.verify v.net.clock token ≡ some payload
    → truthy payload.jti ≡ some jti
    → Run tools (logout tools header v).1 w
    → bearer_token later ≡ some token'
    → tools.verify w.net.clock token' ≡ some payload'
    → truthy payload'.jti ≡ some jti
    → can_activate tools later w ≡ (err unauthorized, w)
can_activate-after_logout tools v w header later token token' jti payload payload' given valid named
      r given' valid' named' =
    let revoked : is_revoked (some jti) (logout tools header v).1.net ≡ true =
      logout-revokes tools header v payload jti
        (can_activate-of_token tools header v token payload given valid) named in
    let still : is_revoked (some jti) w.net ≡ true =
      (Run-Remembers tools (logout tools header v).1 w r).revoked jti revoked in
    can_activate-of_token tools later w token' payload' given' valid'
    ∙ ap (λ o. (if is_revoked o w.net then err unauthorized else ok payload', w)) named'
    ∙ ap (λ b. (if b then err unauthorized else ok payload', w)) still
