-- ===== src/Tests/Frontend.antt =====
-- Ana's browser: her session, and a withdrawal through the anchor.
use kreav.Base.{ℕ, true, false, none, some, [], ◌∷◌, ◌≡◌, refl, String, Option}
use kreav.Base.Int.{◌-ℤ◌}
use kreav.App.{App, World, pure}
use kreav.Orders.Machine.{OrderStatus}
use kreav.Store.{Wallet}
use kreav.Store.Table.{find_by}
use kreav.Products.{latest_wallet_of}
use kreav.Anchor.{AnchorServer, Reply}
use kreav.Withdrawals.{total_withdrawn, paid_in, total_settled, withdrawable_balance}
use kreav.Frontend.Session.{Tab, get_item}
use kreav.Frontend.Client.{
  answered, failed, no_response, Settled, rejected, resolved, Browser, Endpoint, authorization,
  request, on_response,
}
use kreav.Frontend.Laws.{End, request-Ends}
use kreav.Frontend.Anchor.{
  AnchorApi, Signed, auth_expired, anchor_call, sign_xdr, authenticate_anchor, send_usdc_to_anchor,
  poll_anchor_tx, start_anchor_withdrawal,
}
use kreav.Frontend.Refused.{backed, over, by_anchor, start_anchor_withdrawal-refused}
use kreav.Tests.Anchor.{anchors}
use kreav.Tests.Data.{world_in}

abbrev shop : World ℕ
shop = world_in OrderStatus.settled

abbrev tab : Tab
tab = record {
  has_window = true;
  local_storage =
      record { key = "kreav.token"; value = "jwt" }
      ∷ record { key = "kreav.userId"; value = "c1" }
      ∷ [];
  session_events = 0;
}

abbrev page : Browser (World ℕ)
page = record { tab = tab; net = shop }

-- A server that knows nobody.
abbrev closed : Endpoint (World ℕ) String
closed header w = (failed 401 (record { code = none; status_code = none }), w)

request-Ends_example : End page (closed (authorization tab) shop) (request closed page)
request-Ends_example = request-Ends closed page

signed_out : (request closed page).1.tab.local_storage ≡ []
unfolding request on_response
signed_out = refl

carries_token : authorization tab ≡ some "Bearer jwt"
unfolding get_item
carries_token = refl

abbrev freighter : String → String → String → World ℕ → Signed × World ℕ
freighter xdr network address w = (record { has_error = false; signed_tx_xdr = "signed" }, w)

abbrev cancelled : String → String → String → World ℕ → Signed × World ℕ
cancelled xdr network address w = (record { has_error = true; signed_tx_xdr = "" }, w)

abbrev api : AnchorApi (World ℕ)
api = record {
  challenge = λ h w. (answered (record { transaction = "tx"; network_passphrase = "Test" }), w);
  verify = λ x h w. (answered x, w);
  interactive = λ a t h w. (no_response, w);
  transaction = λ i t h w. (failed 401 (record { code = none; status_code = none }), w);
  build_payment = λ i t h w. (answered (record { xdr = "pay"; network_passphrase = "Test" }), w);
  submit_payment = λ x i h w. (answered x, w);
}

authenticated : authenticate_anchor freighter api "GA" page ≡ (resolved "signed", page)
unfolding authenticate_anchor anchor_call sign_xdr request on_response
authenticated = refl

paid : send_usdc_to_anchor freighter api "GA" "a1" "t1" page ≡ (resolved "signed", page)
unfolding send_usdc_to_anchor anchor_call sign_xdr request on_response
paid = refl

not_signed : send_usdc_to_anchor cancelled api "GA" "a1" "t1" page ≡ (Settled.plain, page)
unfolding send_usdc_to_anchor anchor_call sign_xdr request on_response
not_signed = refl

polled : (poll_anchor_tx freighter api "a1" "t1" page).0 ≡ rejected auth_expired
unfolding poll_anchor_tx anchor_call request on_response
polled = refl

abbrev guard : Option String → App ℕ String
guard header = pure "c1"

-- The anchor does not know the token any more.
abbrev anchor : AnchorServer ℕ
anchor = record {
  challenge = λ a n. (Reply.unreachable, n);
  verify = λ x n. (Reply.unreachable, n);
  interactive = λ t a m n. (Reply.replied 403 none, n);
  transaction = λ t i n. (Reply.unreachable, n);
}

abbrev wallet : Wallet
wallet = record { creator_id = "c1"; wallet_address = "GA"; connected_at = 1 }

abbrev backed_api : AnchorApi (World ℕ)
backed_api = backed freighter api guard anchors anchor "w1" "R1" 3

-- Ana has no balance.
start_anchor_withdrawal-refused_example :
    start_anchor_withdrawal freighter backed_api "t1" 5 page ≡ (rejected auth_expired, page)
unfolding latest_wallet_of withdrawable_balance total_settled paid_in total_withdrawn find_by ◌-ℤ◌
start_anchor_withdrawal-refused_example =
    start_anchor_withdrawal-refused freighter api guard anchors anchor "w1" "R1" 3 5 "t1" "c1" page
      shop wallet refl refl refl auth_expired shop refl (over refl)

turned_down :
    start_anchor_withdrawal freighter backed_api "t1" 0 page
    ≡ (rejected (record { code = "REQUEST_ERROR"; status_code = 400 }), page)
unfolding latest_wallet_of withdrawable_balance total_settled paid_in total_withdrawn find_by ◌-ℤ◌
turned_down =
    start_anchor_withdrawal-refused freighter api guard anchors anchor "w1" "R1" 3 0 "t1" "c1" page
      shop wallet refl refl refl (record { code = "REQUEST_ERROR"; status_code = 400 }) shop refl
      (by_anchor 403 none 0 refl refl refl refl)
