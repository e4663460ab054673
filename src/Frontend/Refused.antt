-- ===== src/Frontend/Refused.antt =====
-- What the browser makes of a withdrawal that the backend or the anchor refuses
-- (frontend/src/lib/api/sep24.ts).
use kreav.Base.{ℕ, String, true, false, ◌≡◌, Option, some, leb, ltb, ◌==◌, arith, ◌&&◌}
use kreav.Base.Int.{pos, ltb_ℤ}
use kreav.App.{App, ok, err, forbidden, bad_request, World}
use kreav.App.Filter.{catch}
use kreav.Store.{Wallet}
use kreav.Products.{latest_wallet_of}
use kreav.Withdrawals.{withdrawable_balance}
use kreav.Anchor.{
  AnchorConfig, AnchorServer, AnchorInteractive, replied, as_result, interactive,
  get_address_for_creator,
}
use kreav.Frontend.Client.{ApiError, rejected, Browser, authorization, on_response, request}
use kreav.Frontend.Anchor.{AnchorApi, Signed, auth_expired, anchor_call, start_anchor_withdrawal}
use kreav.Frontend.Backend.{served, post_interactive}

module _ {N : Type 0} (freighter : String → String → String → World N → Signed × World N)
    (api : AnchorApi (World N)) (guard : Option String → App N String) (config : AnchorConfig)
    (anchor : AnchorServer N) (id reference : String) (now : ℕ) where
  -- The API whose `interactive` is the backend's.
  abbrev pub backed : AnchorApi (World N)
  backed = record api {
    interactive =
        λ amount token. served guard (post_interactive config anchor id reference now amount token);
  }

  -- A refusal with 403 or with 400.
  start-forbidden :
      (amount : ℕ) (token user : String) (p : Browser (World N)) (w v : World N)
      → guard (authorization p.tab) p.net ≡ (ok user, w)
      → interactive config anchor user (some token) amount id reference now w ≡ (err forbidden, v)
      → start_anchor_withdrawal freighter backed token amount p
        ≡ (rejected auth_expired, record { tab = p.tab; net = v })
  unfolding start_anchor_withdrawal anchor_call request on_response catch
  start-forbidden amount token user p w v passed e = ground (arith, passed, e)

  start-bad_request :
      (amount : ℕ) (token user : String) (p : Browser (World N)) (w v : World N)
      → guard (authorization p.tab) p.net ≡ (ok user, w)
      → interactive config anchor user (some token) amount id reference now w ≡ (err bad_request, v)
      → start_anchor_withdrawal freighter backed token amount p ≡ (
        rejected (record { code = "REQUEST_ERROR"; status_code = 400 }),
        record { tab = p.tab; net = v },
      )
  unfolding start_anchor_withdrawal anchor_call request on_response catch
  start-bad_request amount token user p w v passed e = ground (arith, passed, e)

  module _ (amount : ℕ) (token user : String) (p : Browser (World N)) (w : World N)
      (wallet : Wallet) (on : config.anchor_enabled ≡ true) (given : (token == "") ≡ false)
      (found : latest_wallet_of user w.db.wallets ≡ some wallet) where
    over_balance :
        ltb_ℤ (withdrawable_balance wallet.wallet_address w.db) (pos amount) ≡ true
        → interactive config anchor user (some token) amount id reference now w ≡ (err forbidden, w)
    unfolding interactive get_address_for_creator
    over_balance short = ground (arith, on, given, found, short)

    turned_down :
        (status : ℕ) (body : Option AnchorInteractive) (n : N)
        → ltb_ℤ (withdrawable_balance wallet.wallet_address w.db) (pos amount) ≡ false
        → anchor.interactive token wallet.wallet_address amount w.net ≡ (replied status body, n)
        → leb 400 status ≡ true
        → ltb status 500 ≡ true
        → interactive config anchor user (some token) amount id reference now w
          ≡ (err bad_request, record w { net = n })
    unfolding interactive get_address_for_creator as_result
    turned_down status body n enough asked low high =
        let late : (leb 200 status && ltb status 300) ≡ false = ground (arith, low) in
        ground (arith, on, given, found, enough, asked, low, high, late)

    -- Why a withdrawal of the amount is refused, with the error that the browser shows and the
    -- backend's world then: it is over the withdrawable balance, and the anchor is not asked; or the
    -- anchor refuses it, with any 4xx.
    pub data Refusal : ApiError → World N → Type 0 where
      over :
          ltb_ℤ (withdrawable_balance wallet.wallet_address w.db) (pos amount) ≡ true
          → Refusal auth_expired w
      by_anchor :
          (status : ℕ) (body : Option AnchorInteractive) (n : N)
          → ltb_ℤ (withdrawable_balance wallet.wallet_address w.db) (pos amount) ≡ false
          → anchor.interactive token wallet.wallet_address amount w.net ≡ (replied status body, n)
          → leb 400 status ≡ true
          → ltb status 500 ≡ true
          → Refusal (record { code = "REQUEST_ERROR"; status_code = 400 }) (record w { net = n })

    -- To a creator who is signed in, the refusal of an amount over the withdrawable balance is shown as
    -- an expired session with the anchor; and what the anchor itself refuses with any 4xx, which
    -- includes an expired session with it, is shown as a failed request. The session is kept.
    pub start_anchor_withdrawal-refused :
        (e : ApiError) (v : World N)
        → guard (authorization p.tab) p.net ≡ (ok user, w)
        → Refusal e v
        → start_anchor_withdrawal freighter backed token amount p
          ≡ (rejected e, record { tab = p.tab; net = v })
    start_anchor_withdrawal-refused e v passed (over short) =
        start-forbidden amount token user p w w passed (over_balance short)
    start_anchor_withdrawal-refused e v passed (by_anchor status body n enough asked low high) =
        start-bad_request amount token user p w (record w { net = n }) passed
          (turned_down status body n enough asked low high)
