-- ===== src/Frontend/Backend.antt =====
-- The backend behind the frontend's requests: the guard, the service and the filter of what is thrown
-- (backend/src/withdrawals/anchor/withdrawals-anchor.controller.ts,
-- backend/src/common/exceptions/domain-exception.filter.ts).
use kreav.Base.{ℕ, String, Option, some}
use kreav.App.{App, Result, ok, err, World, pure, ◌>>=◌}
use kreav.App.Filter.{catch}
use kreav.Anchor.{AnchorConfig, AnchorServer, interactive}
use kreav.Frontend.Client.{Response, answered, failed, Endpoint}
use kreav.Frontend.Anchor.{InteractiveRes}

-- `response.status(...).json(...)`
abbrev pub respond : {A : Type 0} → Result A → Response A
respond (ok a) = answered a
respond (err e) =
    failed (catch e).status_code
      (record { code = some (catch e).code; status_code = some (catch e).status_code })

module _ {N : Type 0} where
  -- A handler behind a guard that gives the user's id.
  abbrev pub served :
      {A : Type 0} → (Option String → App N String) → (String → App N A) → Endpoint (World N) A
  served guard handler header w = let (r, v) = (guard header >>= handler) w in (respond r, v)

  -- `POST /withdrawals/anchor/interactive`; the new row gets `id`, `reference` and the time `now`.
  abbrev pub post_interactive :
      AnchorConfig
      → AnchorServer N
      → String
      → String
      → ℕ
      → ℕ
      → String
      → String
      → App N InteractiveRes
  post_interactive config anchor id reference now amount token user =
      interactive config anchor user (some token) amount id reference now >>= λ started.
      pure (record { url = started.url; id = started.id; withdrawal_id = id })
