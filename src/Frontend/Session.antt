-- ===== src/Frontend/Session.antt =====
-- The session that a browser keeps (frontend/src/lib/api/session.ts).
use kreav.Base.{
  ℕ, suc, String, Bool, not, Option, none, some, List, [], ◌∷◌, keep, ◌==◌, is_some, if◌then◌else◌,
}

pub record Item : Type 0 where
  pub key : String
  pub value : String

-- A tab's `window` with its storage and the session events that it was sent; on the server there is
-- none.
pub record Tab : Type 0 where
  pub has_window : Bool
  pub local_storage : List Item
  pub session_events : ℕ

abbrev pub token_key : String
token_key = "kreav.token"

abbrev pub user_id_key : String
user_id_key = "kreav.userId"

abbrev pub wallet_key : String
wallet_key = "kreav.walletAddress"

abbrev pub username_key : String
username_key = "kreav.username"

-- `localStorage.getItem`, `removeItem`, `setItem`
unfoldable pub get_item : String → List Item → Option String
get_item key [] = none
get_item key (i ∷ is) = if i.key == key then some i.value else get_item key is

abbrev pub remove_item : String → List Item → List Item
remove_item key = keep (λ i. not (i.key == key))

abbrev pub set_item : String → String → List Item → List Item
set_item key value is = record { key = key; value = value } ∷ remove_item key is

abbrev pub read : String → Tab → Option String
read key t = if t.has_window then get_item key t.local_storage else none

abbrev written : String → Option String → List Item → List Item
written key none = remove_item key
written key (some value) = set_item key value

abbrev pub write : String → Option String → Tab → Tab
write key value t =
    if t.has_window
    then record t {
      local_storage = written key value t.local_storage;
      session_events = suc t.session_events;
    }
    else t

abbrev pub get_token : Tab → Option String
get_token = read token_key

abbrev pub is_signed_in : Tab → Bool
is_signed_in t = is_some (get_token t)

abbrev pub clear_session : Tab → Tab
clear_session t =
    write username_key none
      (write wallet_key none (write user_id_key none (write token_key none t)))
