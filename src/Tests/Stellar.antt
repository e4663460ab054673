-- ===== src/Tests/Stellar.antt =====
-- Runs of the settlement.
use kreav.Base.{eq_iff, map, ◌+◌, ℕ, String, ◌≡◌, ◌≢◌, refl, some, [], ◌∷◌, true, false, arith}
use kreav.App.{err, simulation_error, network_error, try_catch, World, ok}
use kreav.Orders.Machine.{OrderStatus}
use kreav.Store.{Order}
use kreav.Store.Query.{find_order}
use kreav.Stellar.Settlement.{
  handle_payment_received, settle_on_chain, settle_found, settle_pending, settle_payable,
  settle_trusted, find_recipients_missing_trustline, lacks_trustline, already_settled, settle_anew,
  has_float, check_float, settle_attempts, attempt, record_result, fail_order,
  handle_settlement_error,
}
use kreav.Store.Table.{find_by, update_by}
use kreav.Store.Query.{update_order, active_collaborators}
use kreav.Orders.Machine.{can_transition}
use kreav.Stellar.Horizon.{get_usdc_balance}
use kreav.Stellar.Rpc.{
  is_settled, load_source, invoke_settle, do_invoke_settle, submit_settle, poll_transaction,
}
use kreav.Stellar.Recording.{record_settlement_success}
use kreav.Base.Int.{pos, sum_ℤ}
use kreav.Stellar.Recording.{to_recipient}
use kreav.Stellar.Split.Laws.{creator_amounts-sum}
use kreav.Stellar.Split.Fair.{AreFair, creator_amounts-AreFair}
use kreav.Stellar.Rpc.Laws.{PollEnds, poll_transaction-PollEnds}
use kreav.Stellar.Split.{creator_amounts, to_base_units, creator_pool, platform_fee}
use kreav.Stellar.Settlement.Outcome.{Outcome, handle_payment_received-Outcome}
use kreav.Stellar.Settlement.Paid.{handle_payment_received-Paid}
use kreav.Stellar.Settlement.Verdict.{PaidOut}
use kreav.Stellar.Settlement.Reinvoked.{settle_attempts-reinvokes}
use kreav.Tests.Data.{
  author, editor, rpc_unread, order_in, world_in, payload, config, horizon, rpc_with,
}

paid_order :
    (o : Order)
    → find_order "o1" (world_in OrderStatus.payment_received).db ≡ some o
    → o.amount_usd ≡ 1001
unfolding find_by
paid_order o e = ground arith

abbrev pending_payment : World ℕ
pending_payment = world_in OrderStatus.payment_received

abbrev settled_order : Order
settled_order = record (order_in OrderStatus.settled) { tx_hash = some "T1" }

settled_run :
    find_order "o1"
      (handle_payment_received config horizon (rpc_with false) payload pending_payment).1.db
    ≡ some settled_order
unfolding handle_payment_received find_by can_transition update_order active_collaborators
    get_usdc_balance settle_on_chain settle_found settle_pending settle_payable settle_trusted
    find_recipients_missing_trustline lacks_trustline already_settled settle_anew has_float
    check_float settle_attempts attempt record_result fail_order handle_settlement_error is_settled
    load_source invoke_settle do_invoke_settle submit_settle poll_transaction
    record_settlement_success update_by creator_amounts
settled_run = refl

found_order : find_order "o1" pending_payment.db ≡ some (order_in OrderStatus.payment_received)
unfolding find_by
found_order = refl

handle_payment_received-Outcome_example :
    Outcome config horizon
      (rpc_with false)
      payload
      pending_payment
      (handle_payment_received config horizon (rpc_with false) payload pending_payment)
handle_payment_received-Outcome_example =
    handle_payment_received-Outcome config horizon (rpc_with false) payload pending_payment
      paid_order

handle_payment_received-Paid_example :
    PaidOut config (rpc_with false) "o1" 1001 (active_collaborators "p1" pending_payment.db)
handle_payment_received-Paid_example =
    handle_payment_received-Paid config horizon (rpc_with false) payload pending_payment paid_order
      (order_in OrderStatus.payment_received) settled_order found_order (λ e. cc) settled_run refl

false_ne : false ≢ true
false_ne e = cc

other_order : ◌≢◌ {A = String} "o1" "o2"
other_order e = false_ne ((eq_iff "o1" "o2").1 e)

abbrev once_sent : World ℕ
once_sent = record (world_in OrderStatus.settlement_pending) { net = 1 }

submitted :
    submit_settle config rpc_unread "o1"
      (to_base_units 1001)
      (map to_recipient (author ∷ editor ∷ []))
      (world_in OrderStatus.settlement_pending)
    ≡ (ok "T1", once_sent)
unfolding submit_settle load_source
submitted = refl

submitted_again :
    submit_settle config rpc_unread "o1"
      (to_base_units 1001)
      (map to_recipient (author ∷ editor ∷ []))
      once_sent
    ≡ (err simulation_error, once_sent)
unfolding submit_settle load_source
submitted_again = refl

settle_attempts-reinvokes_example :
    try_catch
      (settle_attempts config horizon rpc_unread "o1" 1001 (author ∷ editor ∷ []) 3)
      (handle_settlement_error "o1")
      (world_in OrderStatus.settlement_pending)
    ≡ fail_order "o1" once_sent
settle_attempts-reinvokes_example =
    settle_attempts-reinvokes config horizon rpc_unread "o1" 1001 (author ∷ editor ∷ []) 1 "T1"
      (world_in OrderStatus.settlement_pending) once_sent once_sent 1 submitted refl submitted_again

-- Ten dollars and one cent between two authors.
abbrev total : ℕ
total = to_base_units 1001

creator_amounts-sum_example :
    (sum_ℤ (creator_amounts (creator_pool total) (to_recipient author ∷ to_recipient editor ∷ []))
      ≡ pos 95095000)
    × (platform_fee total + creator_pool total ≡ 100100000)
creator_amounts-sum_example =
    creator_amounts-sum total (to_recipient author) (to_recipient editor ∷ [])

creator_amounts-AreFair_example :
    AreFair 95095000 1
      (to_recipient author ∷ to_recipient editor ∷ [])
      (creator_amounts 95095000 (to_recipient author ∷ to_recipient editor ∷ []))
creator_amounts-AreFair_example =
    creator_amounts-AreFair 95095000 (to_recipient author) (to_recipient editor ∷ []) refl

poll_transaction-PollEnds_example :
    PollEnds config
      (rpc_with false)
      "T1"
      30
      pending_payment
      (poll_transaction config (rpc_with false) 30 "T1" pending_payment)
poll_transaction-PollEnds_example =
    poll_transaction-PollEnds config (rpc_with false) "T1" 30 pending_payment

unread_status : (invoke_settle config rpc_unread "o1" 5 [] pending_payment).0 ≡ err network_error
unfolding invoke_settle do_invoke_settle submit_settle load_source poll_transaction
unread_status = refl
