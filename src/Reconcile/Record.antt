-- ===== src/Reconcile/Record.antt =====
-- The reconciliation of one open record with the broker's report of its order.
use kis_trader_back.Common.{
  ℕ, ◌-◌, String, Bool, true, false, ◌&&◌, ◌||◌, not, Option, none, some, if◌then◌else◌, ltb, leb,
  ◌==◌, is_none, get_or, or_else, opt_eq,
}
use kis_trader_back.Model.{
  TradeRecord, BrokerOrder, OrderStatus, filled, partial, cancelled, failed, status_eq,
  CancellationStatus, resolved, cancellation_eq, cancellation_reconciled,
}
use kis_trader_back.Db.{Update, update, M, ◌>>=◌, ◌>>◌, pure, emit, audit, alert_failure}
use kis_trader_back.Reconcile.Strategy.{
  Links, apply_reconciled_strategy_fill, apply_reconciled_strategy_failure, log_reconciled_order,
  notify_trade_fill,
}
use kis_trader_back.Reconcile.Fill.{
  get_broker_order_status, total_executed, resolve_executed_price, quantity_before_fill,
  extend_reason, build_broker_order_reason,
}

-- What is known of a record when its turn comes: the matching report, with the text of its details for
-- each status, whether the order is still listed as unfilled, the shares held, the clock, and what other
-- tables hold.
pub record Report : Type 0 where
  pub order : Option BrokerOrder
  pub details : OrderStatus → Option String
  pub still_open : Bool
  pub held : ℕ
  pub now : ℕ
  pub links : Links

abbrev pub opt_ℕ_eq : Option ℕ → Option ℕ → Bool
opt_ℕ_eq none none = true
opt_ℕ_eq (some a) (some b) = a == b
opt_ℕ_eq _ _ = false

-- The record is still as it was read: state, order number and cancellation.
abbrev pub is_unchanged : TradeRecord → TradeRecord → Bool
is_unchanged seen r =
    status_eq r.status seen.status
    && opt_eq r.order_no seen.order_no
    && cancellation_eq r.cancellation_status seen.cancellation_status

-- The compare-and-set of a report. `executedQty` is part of it, so that of two runs with one report only
-- the first applies the fill.
abbrev pub report_update : TradeRecord → BrokerOrder → Report → OrderStatus → Update
report_update seen o p next =
    let previous = get_or seen.executed_qty 0 in
    let total = total_executed seen o in
    record {
      guard = λ r. is_unchanged seen r && opt_ℕ_eq r.executed_qty seen.executed_qty;
      change = λ r. record r {
        status = next;
        order_no = if status_eq next partial && o.remaining_quantity == 0 then none else r.order_no;
        executed_qty = some total;
        executed_price = some (resolve_executed_price seen o previous);
        executed_at = if ltb 0 (total - previous) then some p.now else r.executed_at;
        reason = or_else (build_broker_order_reason seen.reason (p.details next)) r.reason;
      };
    }

-- What follows a report that was written to the record.
unfoldable pub apply_report : TradeRecord → Report → OrderStatus → ℕ → ℕ → M Bool
unfolding apply_reconciled_strategy_fill apply_reconciled_strategy_failure log_reconciled_order
apply_report seen p next total filled_now = do
  if ltb 0 filled_now
      then apply_reconciled_strategy_fill p.links next (quantity_before_fill seen p.held filled_now)
          filled_now
      else if (status_eq next failed || status_eq next cancelled) && total == 0
      then apply_reconciled_strategy_failure p.links
      else pure tt
  log_reconciled_order p.links next
  if status_eq next failed && total == 0 then emit alert_failure else pure tt
  notify_trade_fill p.links next filled_now
  pure (ltb 0 filled_now)

-- The report says something that the record does not have yet.
abbrev pub is_news : TradeRecord → BrokerOrder → OrderStatus → Bool
is_news seen o next =
    let previous = get_or seen.executed_qty 0 in
    ltb 0 (total_executed seen o - previous)
    || (status_eq next partial && o.remaining_quantity == 0)
    || not (status_eq next seen.status)
    || not (get_or seen.executed_price 0 == resolve_executed_price seen o previous)

-- The branch of a record whose order the broker reports; the result is `hasNewFill`.
unfoldable pub reconcile_reported : TradeRecord → BrokerOrder → Report → M Bool
reconcile_reported seen o p =
    let total = total_executed seen o in
    let next = get_broker_order_status seen.quantity total o in
    if not (is_news seen o next) then pure false else do
      count ← update (report_update seen o p next)
      if count == 0
          then pure false
          else apply_report seen p next total (total - get_or seen.executed_qty 0)

-- The status of an order whose cancellation the broker accepted and which is listed no more.
unfoldable pub closed_status : ℕ → ℕ → OrderStatus
closed_status quantity total =
    if leb quantity total then filled else if ltb 0 total then partial else cancelled

closed_reason : OrderStatus → String
closed_reason filled = "취소 요청 중 전량 체결 확인"
closed_reason partial = "잔량 미체결 종료"
closed_reason _ = "미체결 종료"

closed_message : OrderStatus → String
closed_message filled = "취소 접수 후 전량 체결 확인"
closed_message partial = "취소 접수 후 일부 체결 및 잔량 종료 확인"
closed_message _ = "취소 접수 후 미체결 종료 확인"

unfoldable pub closure_update : TradeRecord → BrokerOrder → Report → OrderStatus → Update
unfolding closed_reason closed_message
closure_update seen o p next =
    let previous = get_or seen.executed_qty 0 in
    let total = total_executed seen o in
    record {
      guard = λ r.
          status_eq r.status seen.status
          && cancellation_eq r.cancellation_status (some CancellationStatus.accepted)
          && opt_eq r.order_no seen.order_no;
      change = λ r. record r {
        status = next;
        order_no = if status_eq next partial then none else r.order_no;
        executed_qty = some total;
        executed_price = some (resolve_executed_price seen o previous);
        executed_at = if ltb 0 (total - previous) then some p.now else r.executed_at;
        cancellation_status = some resolved;
        cancellation_resolved_at = some p.now;
        cancellation_resolved_by = some "system:reconciliation";
        cancellation_message = some (closed_message next);
        reason = some (extend_reason seen.reason (closed_reason next));
      };
    }

unfoldable pub apply_closure : TradeRecord → Report → OrderStatus → ℕ → M Bool
unfolding apply_reconciled_strategy_fill apply_reconciled_strategy_failure log_reconciled_order
apply_closure seen p next filled_now = do
  emit (audit cancellation_reconciled "system:reconciliation" (some seen.status) (some next))
  if ltb 0 filled_now
      then apply_reconciled_strategy_fill p.links next (quantity_before_fill seen p.held filled_now)
          filled_now
      else if status_eq next cancelled
      then apply_reconciled_strategy_failure p.links
      else pure tt
  log_reconciled_order p.links next
  notify_trade_fill p.links next filled_now
  pure (ltb 0 filled_now)

-- `reconcileAcceptedCancellation`.
unfoldable pub reconcile_accepted_cancellation : TradeRecord → Option BrokerOrder → Report → M Bool
reconcile_accepted_cancellation seen none p = pure false
reconcile_accepted_cancellation seen (some o) p =
    let total = total_executed seen o in
    let next = closed_status seen.quantity total in
    if p.still_open || is_none seen.order_no then pure false else do
      count ← update (closure_update seen o p next)
      if count == 0
          then pure false
          else apply_closure seen p next (total - get_or seen.executed_qty 0)
