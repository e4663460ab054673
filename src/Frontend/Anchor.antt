-- ===== src/Frontend/Anchor.antt =====
-- Withdrawals through an anchor, as the browser makes them (frontend/src/lib/api/sep24.ts). The
-- backend's endpoints and the wallet's `signTransaction` are parameters.
use kreav.Base.{ℕ, String, Bool, ◌||◌, Option, ◌==◌, nat_eq, if◌then◌else◌}
use kreav.Store.{WithdrawalStatus}
use kreav.Frontend.Client.{
  ApiError, Settled, resolved, rejected, plain, Call, Endpoint, request, ◌>>=◌,
}

pub record ChallengeRes : Type 0 where
  pub transaction : String
  pub network_passphrase : String

pub record InteractiveRes : Type 0 where
  pub url : String
  pub id : String
  pub withdrawal_id : String

pub record AnchorTxStatus : Type 0 where
  pub status : String
  pub mapped_status : WithdrawalStatus
  pub withdraw_anchor_account : Option String
  pub withdraw_memo : Option String
  pub withdraw_memo_type : Option String
  pub amount_in : Option ℕ
  pub more_info_url : Option String

pub record BuildPaymentRes : Type 0 where
  pub xdr : String
  pub network_passphrase : String

-- What the wallet answers: an error, or a signed transaction, which may be empty.
pub record Signed : Type 0 where
  pub has_error : Bool
  pub signed_tx_xdr : String

abbrev pub auth_expired : ApiError
auth_expired = record { code = "ANCHOR_AUTH_EXPIRED"; status_code = 401 }

abbrev pub is_auth_error : ApiError → Bool
is_auth_error e =
    nat_eq e.status_code 401
    || nat_eq e.status_code 403
    || e.code == "TOKEN_EXPIRED"
    || e.code == "ANCHOR_AUTH_ERROR"

abbrev pub friendly : ApiError → ApiError
friendly e = if is_auth_error e then auth_expired else e

-- The requests to `/withdrawals/anchor/...`
pub record AnchorApi (N : Type 0) : Type 0 where
  pub challenge : Endpoint N ChallengeRes
  pub verify : String → Endpoint N String
  pub interactive : ℕ → String → Endpoint N InteractiveRes
  pub transaction : String → String → Endpoint N AnchorTxStatus
  pub build_payment : String → String → Endpoint N BuildPaymentRes
  pub submit_payment : String → String → Endpoint N String

module _ {N : Type 0} where
  -- `anchorCall`
  unfoldable pub anchor_call : {A : Type 0} → Call N A → Call N A
  anchor_call fn p =
      let (s, q) = fn p in
      elim s [
        | resolved a ↦ (resolved a, q)
        | rejected e ↦ (rejected (friendly e), q)
        | plain ↦ (plain, q)
      ]

  module _ (freighter : String → String → String → N → Signed × N) (api : AnchorApi N) where
    abbrev signed : Signed → Settled String
    signed s =
        if s.has_error
        then plain
        else if s.signed_tx_xdr == ""
        then plain
        else resolved s.signed_tx_xdr

    -- `signXdr`
    unfoldable pub sign_xdr : String → String → String → Call N String
    sign_xdr xdr network_passphrase address p =
        let (s, n) = freighter xdr network_passphrase address p.net in
        (signed s, record p { net = n })

    unfoldable pub authenticate_anchor : String → Call N String
    unfolding anchor_call sign_xdr request
    authenticate_anchor address = anchor_call (
        request api.challenge >>= λ challenge.
        sign_xdr challenge.transaction challenge.network_passphrase address >>= λ signed_xdr.
        request (api.verify signed_xdr))

    unfoldable pub start_anchor_withdrawal : String → ℕ → Call N InteractiveRes
    unfolding anchor_call request
    start_anchor_withdrawal token amount = anchor_call (request (api.interactive amount token))

    unfoldable pub poll_anchor_tx : String → String → Call N AnchorTxStatus
    unfolding anchor_call request
    poll_anchor_tx id token = anchor_call (request (api.transaction id token))

    unfoldable pub send_usdc_to_anchor : String → String → String → Call N String
    unfolding anchor_call sign_xdr request
    send_usdc_to_anchor address id token = anchor_call (
        request (api.build_payment id token) >>= λ built.
        sign_xdr built.xdr built.network_passphrase address >>= λ signed_xdr.
        request (api.submit_payment signed_xdr id))
