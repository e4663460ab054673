-- ===== src/Frontend/Client.antt =====
-- Requests to the backend and what they throw (frontend/src/lib/api/client.ts). The server is a
-- parameter that sees the Authorization header. Messages and timestamps are left out.
use kreav.Base.{ℕ, String, Option, none, some, ◌==◌, nat_eq, if◌then◌else◌}
use kreav.Frontend.Session.{Tab, get_token, clear_session}
use Prim.Native.String.{◌++◌ as text_append}

-- The body of an error that the backend sends; any field may be absent.
pub record BackendError : Type 0 where
  pub code : Option String
  pub status_code : Option ℕ

pub record ApiError : Type 0 where
  pub code : String
  pub status_code : ℕ

-- What axios makes of a request.
pub data Response (A : Type 0) : Type 0 where
  answered : A → Response A
  failed : ℕ → BackendError → Response A
  no_response : Response A

-- What a call resolves or rejects with; `plain` is an error that is no `ApiError`.
pub data Settled (A : Type 0) : Type 0 where
  resolved : A → Settled A
  rejected : ApiError → Settled A
  plain : Settled A

-- The browser's tab, and the network with the backend behind it.
pub record Browser (N : Type 0) : Type 0 where
  pub tab : Tab
  pub net : N

abbrev pub Call : Type 0 → Type 0 → Type 0
Call N A = Browser N → Settled A × Browser N

-- A request by its Authorization header.
abbrev pub Endpoint : Type 0 → Type 0 → Type 0
Endpoint N A = Option String → N → Response A × N

-- The request's interceptor; an empty token is not sent.
abbrev pub authorization : Tab → Option String
authorization t = elim (get_token t) [
  | none ↦ none
  | some token ↦ if token == "" then none else some (text_append "Bearer " token)
]

abbrev or_else {ℓ} : {A : Type ℓ} → Option A → A → A
or_else none a = a
or_else (some b) a = b

abbrev pub session_expired : ApiError
session_expired = record { code = "UNAUTHORIZED"; status_code = 401 }

abbrev pub api_error : ℕ → BackendError → ApiError
api_error status body = record {
  code = or_else body.code "HTTP_ERROR";
  status_code = or_else body.status_code status;
}

-- The response's interceptor
unfoldable pub on_response : {A : Type 0} → Response A → Tab → Settled A × Tab
on_response (answered a) t = (resolved a, t)
on_response (failed status body) t =
    if nat_eq status 401
    then (rejected session_expired, clear_session t)
    else (rejected (api_error status body), t)
on_response no_response t = (rejected (record { code = "NETWORK_ERROR"; status_code = 0 }), t)

module _ {N : Type 0} where
  module _ {A : Type 0} where
    unfoldable pub request : Endpoint N A → Call N A
    unfolding on_response
    request serve p =
        let (r, n) = serve (authorization p.tab) p.net in
        let (s, t) = on_response r p.tab in (s, record { tab = t; net = n })

    abbrev pub resolve : A → Call N A
    resolve a p = (resolved a, p)

  infixl 5 ◌>>=◌
  abbrev pub ◌>>=◌ : {A B : Type 0} → Call N A → (A → Call N B) → Call N B
  ◌>>=◌ m f p =
      let (s, q) = m p in
      elim s [ resolved a ↦ f a q | rejected e ↦ (rejected e, q) | plain ↦ (plain, q) ]
