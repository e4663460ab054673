-- ===== src/Anchor/Laws.antt =====
-- The rows of anchored withdrawals over the calls of the controller
-- (backend/src/withdrawals/anchor/withdrawals-anchor.controller.ts).
use kreav.Base.{
  ℕ, ◌+◌, ◌/◌, any, leb, ltb, ◌&&◌, eq_iff, String, true, false, ◌≡◌, ◌≢◌, ◌⊎◌, refl, sym, ap, ◌∙◌,
  none, some, List, [], ◌∷◌, map, ◌==◌, if◌then◌else◌, Option-cases, Bool-cases, inl, inr, arith,
  eq_false_of_ne,
}
use kreav.Base.Int.{pos, ltb_ℤ}
use mathlib.Core.Path.{subst}
use kreav.App.{
  App, call, modify, pure, ◌>>=◌, ◌>>◌, World, Result, ok, err, Exn, bad_gateway, bad_request,
  forbidden, not_found,
}
use kreav.Store.{Db, Wallet, Withdrawal, WithdrawalStatus}
use kreav.Products.{latest_wallet_of}
use kreav.Withdrawals.{withdrawable_balance}
use kreav.Anchor.{
  Option, Reply, AnchorTransaction, AnchorInteractive, AnchorServer, AnchorConfig, as_result,
  map_status, is_anchored, update_anchored, mirrored, done_at, ask, anchor_row, add_withdrawal,
  interactive, transaction, get_address_for_creator, is_failure, given_cents, replied, unreachable,
}

module _ {N : Type 0} (config : AnchorConfig) (anchor : AnchorServer N) where
  -- What the anchor's answer leaves of a start: nothing, or one new row.
  abbrev pub started_world :
      String
      → ℕ
      → String
      → String
      → ℕ
      → Reply AnchorInteractive × N
      → World N
      → Result AnchorInteractive × World N
  started_world creator amount id reference now y w =
      elim (as_result y.0) as (λ _. Result AnchorInteractive × World N) [
        | err e ↦ (err e, record w { net = y.1 })
        | ok started ↦ (
          ok started,
          record w {
            db = add_withdrawal (anchor_row config id creator started.id reference amount now) w.db;
            net = y.1;
          },
        )
      ]

  abbrev start_row : String → ℕ → String → String → ℕ → AnchorInteractive → App N AnchorInteractive
  start_row creator amount id reference now started = do
    modify (add_withdrawal (anchor_row config id creator started.id reference amount now))
    pure started

  finish :
      (creator token id reference : String) (amount now : ℕ) (w : World N) (wallet : Wallet)
      → (ask config anchor (anchor.interactive token wallet.wallet_address amount)
            >>= start_row creator amount id reference now)
          w
        ≡ started_world creator amount id reference now
            (anchor.interactive token wallet.wallet_address amount w.net)
            w
  finish creator token id reference amount now w wallet =
      go (anchor.interactive token wallet.wallet_address amount w.net)
    where
      go :
          (y : Reply AnchorInteractive × N)
          → (ask config anchor (λ _. y) >>= start_row creator amount id reference now) w
            ≡ started_world creator amount id reference now y w
      go (reply, n) = by (as_result reply)
        where
          by :
              (r : Result AnchorInteractive)
              → (call (λ _. (r, n)) >>= start_row creator amount id reference now) w
                ≡ elim r as (λ _. Result AnchorInteractive × World N) [
                  | err e ↦ (err e, record w { net = n })
                  | ok started ↦ (
                    ok started,
                    record w {
                      db =
                          add_withdrawal
                            (anchor_row config id creator started.id reference amount now)
                            w.db;
                      net = n;
                    },
                  )
                ]
          by (ok a) = refl
          by (err e) = refl

  before :
      (creator token id reference : String) (amount now : ℕ) (w : World N) (wallet : Wallet)
      → config.anchor_enabled ≡ true
      → (token == "") ≡ false
      → latest_wallet_of creator w.db.wallets ≡ some wallet
      → ltb_ℤ (withdrawable_balance wallet.wallet_address w.db) (pos amount) ≡ false
      → interactive config anchor creator (some token) amount id reference now w
        ≡ (ask config anchor (anchor.interactive token wallet.wallet_address amount)
              >>= start_row creator amount id reference now)
            w
  unfolding interactive get_address_for_creator
  before creator token id reference amount now w wallet on given found enough =
      ground (arith, on, given, found, enough)

  -- A withdrawal starts only where anchors are enabled, with a token, for a creator with a wallet, and
  -- for an amount within the wallet's withdrawable balance; otherwise nothing changes and the anchor
  -- is not asked. If it is, its failure is the answer and changes no row, and its start adds one
  -- row, in PROCESSING, with the anchor's id.
  pub interactive-cases :
      (creator token id reference : String) (amount now : ℕ) (w : World N)
      → token ≢ ""
      → let x = interactive config anchor creator (some token) amount id reference now w in
        ((e : Exn) × (x ≡ (err e, w)))
        ⊎ ((wallet : Wallet) × (config.anchor_enabled ≡ true)
            × (latest_wallet_of creator w.db.wallets ≡ some wallet)
            × (ltb_ℤ (withdrawable_balance wallet.wallet_address w.db) (pos amount) ≡ false)
            × (x
                ≡ started_world creator amount id reference now
                    (anchor.interactive token wallet.wallet_address amount w.net)
                    w))
  unfolding interactive get_address_for_creator
  interactive-cases creator token id reference amount now w given =
      elim (Bool-cases config.anchor_enabled) [
        | inr off ↦ inl (forbidden, ground (arith, off))
        | inl on ↦ elim (Option-cases (latest_wallet_of creator w.db.wallets)) [
          | inl missing ↦
              inl (not_found, ground (arith, on, eq_false_of_ne token "" given, missing))
          | inr (wallet, found) ↦
              elim (Bool-cases
                (ltb_ℤ (withdrawable_balance wallet.wallet_address w.db) (pos amount))) [
                  | inl short ↦
                      inl
                        (forbidden, ground (arith, on, eq_false_of_ne token "" given, found, short))
                  | inr enough ↦ inr (
                    wallet,
                    on,
                    found,
                    enough,
                    before creator token id reference amount now w wallet on
                          (eq_false_of_ne token "" given) found enough
                        ∙ finish creator token id reference amount now w wallet,
                  )
                ]
        ]
      ]

  -- A withdrawal of the creator that belongs to the anchor's transaction.
  abbrev pub IsOf : String → String → Withdrawal → Type 0
  IsOf id creator v = (v.anchor_transaction_id ≡ some id) × (v.creator_id ≡ creator)

  abbrev pub failures : List String
  failures = "error" ∷ "refunded" ∷ "no_market" ∷ "too_small" ∷ "too_large" ∷ "expired" ∷ []

  -- What a status of the anchor stands for, and when a withdrawal with it was completed.
  abbrev pub Means : String → ℕ → WithdrawalStatus → Option ℕ → Type 0
  Means s now status completed =
      ((s ≡ "completed") × (status ≡ WithdrawalStatus.done) × (completed ≡ some now))
      ⊎ ((any (λ f. s == f) failures ≡ true)
          × (status ≡ WithdrawalStatus.rejected)
          × (completed ≡ none))
      ⊎ ((s ≢ "completed")
          × (any (λ f. s == f) failures ≡ false)
          × (status ≡ WithdrawalStatus.processing)
          × (completed ≡ none))

  -- The amount in cents that the anchor names, if it does.
  abbrev pub amount_after : Option ℕ → ℕ → ℕ
  amount_after none old = old
  amount_after (some n) old = (n + 50000) / 100000

  -- A row before and after a poll.
  abbrev pub Mirrors : String → String → AnchorTransaction → ℕ → Withdrawal → Withdrawal → Type 0
  Mirrors id creator tx now v u =
      (¬ IsOf id creator v × (u ≡ v))
      ⊎ (IsOf id creator v
          × (status : WithdrawalStatus) × (completed : Option ℕ) × Means tx.status now status
              completed
          × (u ≡ record v {
            status = status;
            completed_at = completed;
            amount = amount_after tx.amount_in v.amount;
          }))

  -- Row by row, none added and none missing.
  abbrev pub MirrorAll :
      String → String → AnchorTransaction → ℕ → List Withdrawal → List Withdrawal → Type 0
  MirrorAll id creator tx now [] [] = Unit {0}
  MirrorAll id creator tx now (v ∷ vs) (u ∷ us) =
      Mirrors id creator tx now v u × MirrorAll id creator tx now vs us
  MirrorAll id creator tx now _ _ = ⊥

  map_status-Means :
      (s : String) (now : ℕ) → Means s now (map_status s) (done_at (map_status s) now)
  unfolding map_status
  map_status-Means s now = elim (Bool-cases (s == "completed")) [
    | inl done ↦
        let is : s ≡ "completed" = (eq_iff s "completed").0 done in
        inl (is, rw done refl, rw done refl)
    | inr more ↦ elim (Bool-cases (any (λ f. s == f) failures)) [
      | inl failed ↦
          let same : is_failure s ≡ true = ground (arith, failed) in
          inr (inl (failed, rw (more, same) refl, rw (more, same) refl))
      | inr open_yet ↦
          let same : is_failure s ≡ false = ground (arith, open_yet) in
          inr (
            inr (
              λ e. cc ((eq_iff s "completed").1 e, more),
              open_yet,
              rw (more, same) refl,
              rw (more, same) refl,
            ))
    ]
  ]

  is_anchored-IsOf :
      (id creator : String) (v : Withdrawal)
      → ((is_anchored id creator v ≡ true) × IsOf id creator v)
        ⊎ ((is_anchored id creator v ≡ false) × ¬ IsOf id creator v)
  is_anchored-IsOf id creator v = elim (Option-cases v.anchor_transaction_id) [
    | inl missing ↦ inr (ground (arith, missing), λ h. cc (h.0, missing))
    | inr (i, given) ↦ elim (Bool-cases (i == id)) [
      | inr other ↦
          inr (ground (arith, given, other), λ h. ground (arith, h.0, given, other, eq_iff i id))
      | inl same ↦ elim (Bool-cases (v.creator_id == creator)) [
        | inr foreign ↦ inr (
          ground (arith, given, same, foreign),
          λ h. cc ((eq_iff v.creator_id creator).1 (h.1), foreign),
        )
        | inl own ↦ inl (
          ground (arith, given, same, own),
          (given ∙ ap some ((eq_iff i id).0 same), (eq_iff v.creator_id creator).0 own),
        )
      ]
    ]
  ]

  given_cents-after : (o : Option ℕ) (old : ℕ) → given_cents o old ≡ amount_after o old
  given_cents-after none old = refl
  given_cents-after (some n) old = refl

  polled :
      (id creator : String) (tx : AnchorTransaction) (now : ℕ) (ws : List Withdrawal)
      → MirrorAll id creator tx now ws
          (map (λ v. if is_anchored id creator v then mirrored tx now v else v) ws)
  polled id creator tx now [] = tt
  polled id creator tx now (v ∷ ws) =
      (one (is_anchored-IsOf id creator v), polled id creator tx now ws)
    where
      one :
          ((is_anchored id creator v ≡ true) × IsOf id creator v)
            ⊎ ((is_anchored id creator v ≡ false) × ¬ IsOf id creator v)
          → Mirrors id creator tx now v (if is_anchored id creator v then mirrored tx now v else v)
      one (inl (e, h)) = rw e (
          inr (
            h,
            map_status tx.status,
            done_at (map_status tx.status) now,
            map_status-Means tx.status now,
            ap
                (λ n. record v {
                  status = map_status tx.status;
                  completed_at = done_at (map_status tx.status) now;
                  amount = n;
                })
                (given_cents-after tx.amount_in v.amount),
          ))
      one (inr (e, h)) = rw e (inl (h, refl))

  -- The answer is a transaction, with a status of success.
  abbrev pub Answers : Reply AnchorTransaction → AnchorTransaction → Type 0
  Answers y tx =
      (status : ℕ) × (y ≡ replied status (some tx))
      × (leb 200 status ≡ true)
      × (ltb status 300 ≡ true)

  turned_away :
      (status : ℕ) (body : Option AnchorTransaction)
      → (leb 200 status && ltb status 300) ≡ false
      → (e : Exn) × (as_result (replied status body) ≡ err e)
  unfolding as_result
  turned_away status body bad = elim (Bool-cases (leb 400 status && ltb status 500)) [
    | inl rejected ↦ (bad_request, rw (bad, rejected) refl)
    | inr broken ↦ (bad_gateway, rw (bad, broken) refl)
  ]

  as_result-Answers :
      (y : Reply AnchorTransaction)
      → ((tx : AnchorTransaction) × Answers y tx × (as_result y ≡ ok tx))
        ⊎ (¬ ((tx : AnchorTransaction) × Answers y tx) × ((e : Exn) × (as_result y ≡ err e)))
  unfolding as_result
  as_result-Answers unreachable = inr (λ (tx, (s, q, low, high)). cc q, (bad_gateway, refl))
  as_result-Answers (replied status none) =
      inr (λ (tx, (s, q, low, high)). cc q, failing (Bool-cases (leb 200 status && ltb status 300)))
    where
      failing :
          ((leb 200 status && ltb status 300) ≡ true) ⊎ ((leb 200 status && ltb status 300) ≡ false)
          → (e : Exn) × (as_result {A = AnchorTransaction} (replied status none) ≡ err e)
      failing (inl good) = (bad_gateway, rw good refl)
      failing (inr bad) = turned_away status none bad
  as_result-Answers (replied status (some tx)) =
      elim (Bool-cases (leb 200 status && ltb status 300)) [
        | inr bad ↦ inr (
          λ (t, (s, q, low, high)). clash s (cc q) low high bad,
          turned_away status (some tx) bad,
        )
        | inl good ↦
            inl (tx, (status, refl, ground (arith, good), ground (arith, good)), rw good refl)
      ]
    where
      clash :
          (s : ℕ)
          → status ≡ s
          → leb 200 s ≡ true
          → ltb s 300 ≡ true
          → (leb 200 status && ltb status 300) ≡ false
          → ⊥
      clash s same low high bad = ground (arith, same, low, high, bad)

  -- What the answer to a poll leaves.
  abbrev polled_world :
      String
      → String
      → ℕ
      → N
      → World N
      → Result AnchorTransaction
      → Result AnchorTransaction × World N
  polled_world id creator now n w r = elim r as (λ _. Result AnchorTransaction × World N) [
    | err e ↦ (err e, record w { net = n })
    | ok tx ↦ (ok tx, record w { db = update_anchored id creator (mirrored tx now) w.db; net = n })
  ]

  transaction-polled :
      (creator id token : String) (now : ℕ) (w : World N)
      → config.anchor_enabled ≡ true
      → (token == "") ≡ false
      → let y = anchor.transaction token id w.net in
        transaction config anchor creator id (some token) now w
        ≡ polled_world id creator now y.1 w (as_result y.0)
  unfolding transaction
  transaction-polled creator id token now w on given = ground (arith, on, given)

  -- A poll of an anchor's transaction is forbidden where anchors are disabled, and changes nothing then.
  -- If the anchor does not answer with a transaction, no row changes. If it does, each withdrawal of
  -- the creator that belongs to the transaction has the status that the anchor's stands for, a time of
  -- completion exactly if it is completed, and the amount that the anchor names; every other
  -- withdrawal, also another creator's, is as it was.
  pub transaction-cases :
      (creator id token : String) (now : ℕ) (w : World N)
      → token ≢ ""
      → let x = transaction config anchor creator id (some token) now w in
        let y = anchor.transaction token id w.net in
        ((config.anchor_enabled ≡ false) × (x ≡ (err forbidden, w)))
        ⊎ ((config.anchor_enabled ≡ true)
            × ¬ ((tx : AnchorTransaction) × Answers y.0 tx)
            × ((e : Exn) × (x.0 ≡ err e))
            × (x.1.db ≡ w.db))
        ⊎ ((config.anchor_enabled ≡ true)
            × (tx : AnchorTransaction) × Answers y.0 tx
            × (x.0 ≡ ok tx)
            × MirrorAll id creator tx now w.db.withdrawals x.1.db.withdrawals)
  unfolding transaction
  transaction-cases creator id token now w given = elim (Bool-cases config.anchor_enabled) [
    | inr off ↦ inl (off, ground (arith, off))
    | inl on ↦ elim (as_result-Answers (anchor.transaction token id w.net).0) [
      | inr (never, (e, a)) ↦
          let ends = transaction-polled creator id token now w on ne ∙ ap after a in
          inr (inl (on, never, (e, ap (λ t. t.0) ends), ap (λ t. t.1.db) ends))
      | inl (tx, answers, a) ↦
          let ends = transaction-polled creator id token now w on ne ∙ ap after a in
          inr (
            inr (
              on,
              tx,
              answers,
              ap (λ t. t.0) ends,
              subst (λ (d : Db). MirrorAll id creator tx now w.db.withdrawals d.withdrawals)
                  (sym (ap (λ t. t.1.db) ends)) (polled id creator tx now w.db.withdrawals),
            ))
    ]
  ]
    where
      ne : (token == "") ≡ false
      ne = eq_false_of_ne token "" given

      after : Result AnchorTransaction → Result AnchorTransaction × World N
      after = polled_world id creator now (anchor.transaction token id w.net).1 w
