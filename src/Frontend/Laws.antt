-- ===== src/Frontend/Laws.antt =====
-- How requests end (frontend/src/lib/api: client.ts, session.ts).
use kreav.Base.{
  ℕ, String, false, ◌≡◌, ◌≢◌, ◌⊎◌, refl, ap, none, List, [], ◌∷◌, nat_eq, arith, Bool-cases, inl,
  inr,
}
use kreav.Frontend.Session.{
  Item, Tab, get_item, remove_item, get_token, is_signed_in, clear_session, token_key, user_id_key,
  wallet_key, username_key,
}
use kreav.Frontend.Client.{
  BackendError, Response, answered, failed, no_response, Settled, resolved, rejected, Browser,
  Endpoint, authorization, session_expired, api_error, on_response, request,
}

get_item-remove : (key : String) (is : List Item) → get_item key (remove_item key is) ≡ none
unfolding get_item
get_item-remove key [] = refl
get_item-remove key (i ∷ is) = ground (arith, get_item-remove key is)

get_item-remove_other :
    (key j : String) (is : List Item)
    → get_item key is ≡ none
    → get_item key (remove_item j is) ≡ none
unfolding get_item
get_item-remove_other key j [] e = refl
get_item-remove_other key j (i ∷ is) e = ground (arith, get_item-remove_other key j is)

-- A session that is cleared has no token.
pub get_token-clear_session : (t : Tab) → get_token (clear_session t) ≡ none
get_token-clear_session t = elim (Bool-cases t.has_window) [
  | inr server ↦ rw server refl
  | inl browser ↦
      let is : List Item = t.local_storage in
      rw browser (
        get_item-remove_other token_key username_key _ (
          get_item-remove_other token_key wallet_key _
            (get_item-remove_other token_key user_id_key _ (get_item-remove token_key is))))
]

signed_out : (t : Tab) → get_token t ≡ none → (is_signed_in t ≡ false) × (authorization t ≡ none)
signed_out t e = (ground (arith, e), ground (arith, e))

module _ {N A : Type 0} where
  -- How a request of the page `p` ends, given the server's answer.
  abbrev pub End : Browser N → Response A × N → Settled A × Browser N → Type 0
  End p y x =
      ((a : A) × (y.0 ≡ answered a) × (x ≡ (resolved a, record { tab = p.tab; net = y.1 })))
      ⊎ ((body : BackendError) × (y.0 ≡ failed 401 body)
          × (x ≡ (rejected session_expired, record { tab = clear_session p.tab; net = y.1 }))
          × (is_signed_in x.1.tab ≡ false)
          × (authorization x.1.tab ≡ none))
      ⊎ ((status : ℕ) × (body : BackendError) × (y.0 ≡ failed status body)
          × (status ≢ 401)
          × (x ≡ (rejected (api_error status body), record { tab = p.tab; net = y.1 })))
      ⊎ ((y.0 ≡ no_response)
          × (x ≡ (
            rejected (record { code = "NETWORK_ERROR"; status_code = 0 }),
            record { tab = p.tab; net = y.1 },
          )))

  abbrev ended : Browser N → Response A × N → Settled A × Browser N
  ended p y = let (s, t) = on_response y.0 p.tab in (s, record { tab = t; net = y.1 })

  ended-End : (p : Browser N) (y : Response A × N) → End p y (ended p y)
  unfolding on_response
  ended-End p (answered a, n) = inl (a, refl, refl)
  ended-End p (no_response, n) = inr (inr (inr (refl, refl)))
  ended-End p (failed status body, n) = elim (Bool-cases (nat_eq status 401)) [
    | inr other ↦
        inr (inr (inl (status, body, refl, (λ e. ground (arith, e, other)), rw other refl)))
    | inl out ↦
        let same : status ≡ 401 = ground (arith, out) in
        let gone = signed_out (clear_session p.tab) (get_token-clear_session p.tab) in
        inr
          (inl (body, ap (λ k. failed k body) same, rw out refl, rw out (gone.0), rw out (gone.1)))
  ]

  -- Every way in which a request ends: with the answer; signed out, when the server says
  -- unauthorized, so that the next request carries no token; or with an error that keeps the session
  -- and is the server's own where it names one.
  pub request-Ends :
      (serve : Endpoint N A) (p : Browser N)
      → End p (serve (authorization p.tab) p.net) (request serve p)
  unfolding request
  request-Ends serve p = ended-End p (serve (authorization p.tab) p.net)
