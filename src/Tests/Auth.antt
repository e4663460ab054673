-- ===== src/Tests/Auth.antt =====
-- Ana registers, logs in with her wallet, and logs out.
use kreav.Base.{String, true, none, some, [], ◌∷◌, ◌≡◌, ◌≢◌, ◌⊎◌, refl, sym, ◌∙◌, eq_iff, arith}
use kreav.App.{World, ok, err, unauthorized, conflict, unique_violation}
use kreav.Orders.Machine.{OrderStatus}
use kreav.Auth.{
  Memory, AuthTools, RegisterDto, wallet_status, verify_challenge, logout, can_activate, register,
  claim_nonce, due_of, refuse_revoked, revoke,
}
use kreav.Auth.Steps.{Run, start, then_step, waited}
use kreav.Auth.Laws.{Verified, verify_challenge-Verified}
use kreav.Auth.Replay.{verify_challenge-once}
use kreav.Auth.Revoked.{can_activate-after_logout}
use kreav.Store.{User}
use kreav.Store.Query.{user_id, find_email}
use kreav.Store.Table.{find_by}
use kreav.Users.{ProfileDto, update_profile}
use kreav.Users.Laws.{HasUniqueUsers}
use kreav.Accounts.{registered, profile_updated, Run-HasUniqueUsers}
use kreav.Accounts.{start as at_first, then_step as and_then}
use kreav.Tests.Data.{db_with, order_in, ana}

abbrev memory : Memory
memory = record { clock = 5; used_challenges = []; revoked_tokens = [] }

abbrev pub accounts : World Memory
accounts = record { db = db_with (order_in OrderStatus.created ∷ []) []; events = []; net = memory }

-- The challenge names the account of its text; a token is its id.
abbrev pub tools : AuthTools
tools = record {
  digest = λ s. s;
  read_challenge_tx = λ now s. some s;
  verify_challenge_tx_signers = λ now s account. true;
  sign = λ p. p.sub;
  verify = λ now t. some (record { sub = "c1"; role = "CREATOR"; email = none; jti = some t });
}

verify_challenge-Verified_example :
    Verified tools "GA" "j1" accounts (verify_challenge tools "GA" "j1" accounts)
verify_challenge-Verified_example = verify_challenge-Verified tools "GA" "j1" accounts

abbrev logged_in : World Memory
logged_in = (verify_challenge tools "GA" "j1" accounts).1

abbrev soon : World Memory
soon = record logged_in { net = record logged_in.net { clock = 299999 } }

waited_soon : Run tools logged_in soon
unfolding verify_challenge claim_nonce find_by
waited_soon = then_step start (waited 299999 (omega arith))

verify_challenge-once_example : verify_challenge tools "GA" "j2" soon ≡ (err unauthorized, soon)
unfolding due_of
verify_challenge-once_example =
    verify_challenge-once tools "GA" "j1" "j2" accounts soon refl waited_soon (omega arith)

can_activate-after_logout_example :
    can_activate tools (some "Bearer j1") (logout tools (some "Bearer j1") accounts).1
    ≡ (err unauthorized, (logout tools (some "Bearer j1") accounts).1)
unfolding can_activate logout refuse_revoked revoke
can_activate-after_logout_example =
    can_activate-after_logout tools accounts (logout tools (some "Bearer j1") accounts).1
      (some "Bearer j1") (some "Bearer j1") "j1" "j1" "j1"
      (record { sub = "c1"; role = "CREATOR"; email = none; jti = some "j1" })
      (record { sub = "c1"; role = "CREATOR"; email = none; jti = some "j1" }) refl refl refl start
      refl refl refl

abbrev bea : RegisterDto
bea = record { email = "bea@x.io"; name = "Bea"; role = "CREATOR" }

abbrev with_bea : World Memory
with_bea = (register tools bea "c2" "j1" accounts).1

abbrev named : ProfileDto
named = record {
  name = none;
  username = some "bea";
  country = none;
  bio = none;
  avatar_emoji = none;
  accent = none;
}

only_ana : (j : String) (u : User) → find_by user_id j (ana ∷ []) ≡ some u → j ≡ "c1"
unfolding find_by
only_ana j u e = ground (arith, eq_iff "c1" j)

accounts_unique : HasUniqueUsers accounts.db.users
accounts_unique = record {
  emails = record { unique = λ j k value u v ej ek ru rv. only_ana j u ej ∙ sym (only_ana k v ek) };
  usernames = record {
    unique = λ j k value u v ej ek ru rv. only_ana j u ej ∙ sym (only_ana k v ek);
  };
}

abbrev after_update : World Memory
after_update = (update_profile "c2" named with_bea).1

Run-HasUniqueUsers_example :
    HasUniqueUsers after_update.db.users
    × ((register tools bea "c2" "j3" after_update).0 ≢ err unique_violation)
    × ((update_profile "c2" named after_update).0 ≢ err unique_violation)
    × ((find_email bea.email after_update.db ≡ none)
        ⊎ (register tools bea "c2" "j3" after_update ≡ (err conflict, after_update)))
Run-HasUniqueUsers_example =
    Run-HasUniqueUsers tools accounts after_update bea "c2" "j3" named
      (and_then (and_then at_first (registered bea "c2" "j1"))
        (profile_updated "c2" named (λ e. ground (arith, e, eq_iff "bea" ""))))
      accounts_unique (λ e. ground (arith, e, eq_iff "bea" ""))

wallet_status_known : wallet_status "GA" accounts ≡ (ok true, accounts)
unfolding wallet_status find_by
wallet_status_known = refl
