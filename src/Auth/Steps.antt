-- ===== src/Auth/Steps.antt =====
-- The calls of the authentication service in any order, while time passes and timers run.
use kreav.Base.{ℕ, ◌≤◌, ◌≡◌, String, Option, some}
use kreav.App.{World}
use kreav.Auth.{
  Memory, AuthTools, RegisterDto, due_of, delete_nonce, register, verify_challenge, can_activate,
  logout,
}

abbrev pub with_net : World Memory → Memory → World Memory
with_net w m = record w { net = m }

-- A timer runs when it is due, or later; the clock only moves forward.
pub data Step (tools : AuthTools) (w : World Memory) : World Memory → Type 0 where
  registered : (dto : RegisterDto) (id jti : String) → Step tools w (register tools dto id jti w).1
  verified : (xdr jti : String) → Step tools w (verify_challenge tools xdr jti w).1
  guarded : (header : Option String) → Step tools w (can_activate tools header w).1
  logged_out : (header : Option String) → Step tools w (logout tools header w).1
  timed_out :
      (nonce : String) (due : ℕ)
      → due_of nonce w.net.used_challenges ≡ some due
      → due ≤ w.net.clock
      → Step tools w (with_net w (delete_nonce nonce w.net))
  waited :
      (later : ℕ) → w.net.clock ≤ later → Step tools w (with_net w (record w.net { clock = later }))

pub data Run (tools : AuthTools) (w : World Memory) : World Memory → Type 0 where
  start : Run tools w w
  then_step : {u v : World Memory} → Run tools w u → Step tools u v → Run tools w v
