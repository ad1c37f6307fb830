-- ===== src/Reconcile/Orders.antt =====
-- `reconcileOpenOrders`: the loop over the open records of one broker, market and account.
use kis_trader_back.Common.{
  ℕ, ◌-◌, ◌*◌, String, Bool, false, ◌&&◌, ◌||◌, Option, none, some, if◌then◌else◌, ltb, ◌==◌,
  is_some, opt_eq, List, [], ◌∷◌,
}
use kis_trader_back.Model.{
  TradeRecord, BrokerOrder, UnfilledOrder, OrderStatus, pending, partial, cancelled, status_eq,
  CancellationStatus, attempting, cancellation_eq, broker_eq, market_eq, environment_is, Market,
  BrokerContext,
}
use kis_trader_back.Db.{World, Update, update, M, ◌>>=◌, ◌>>◌, pure}
use kis_trader_back.Reconcile.Matching.{
  find_matching_broker_order, is_still_open, Position, position_quantity,
}
use kis_trader_back.Reconcile.Fill.{extend_reason}
use kis_trader_back.Reconcile.Strategy.{
  Links, log_reconciled_order, apply_reconciled_strategy_failure,
}
use kis_trader_back.Reconcile.Record.{
  Report, is_unchanged, reconcile_reported, reconcile_accepted_cancellation,
}

-- The order is no longer listed and the broker reports no execution: a PARTIAL record gives up its
-- order number, a PENDING one is CANCELLED.
abbrev pub close_remainder_update : TradeRecord → Update
close_remainder_update seen = record {
  guard = is_unchanged seen;
  change = λ r. record r { order_no = none; reason = some (extend_reason seen.reason "잔량 미체결 종료") };
}

abbrev pub close_unfilled_update : TradeRecord → Update
close_unfilled_update seen = record {
  guard = is_unchanged seen;
  change = λ r. record r { status = cancelled; reason = some (extend_reason seen.reason "미체결 종료") };
}

unfoldable pub close_vanished : Links → TradeRecord → OrderStatus → M Bool
unfolding log_reconciled_order apply_reconciled_strategy_failure
close_vanished l seen partial = do
  count ← update (close_remainder_update seen)
  if count == 0 then pure false else (log_reconciled_order l cancelled >> pure false)
close_vanished l seen pending = do
  count ← update (close_unfilled_update seen)
  if count == 0
      then pure false
      else (apply_reconciled_strategy_failure l >> log_reconciled_order l cancelled >> pure false)
close_vanished l seen _ = pure false

-- Two minutes in which a fresh order may not be listed yet.
abbrev pub cancel_grace_ms : ℕ
cancel_grace_ms = 2 * 60 * 1000

unfoldable pub reconcile_unreported : TradeRecord → Report → M Bool
reconcile_unreported seen p =
    if p.still_open
    then pure false
    else if ltb (p.now - seen.created_at) cancel_grace_ms
    then pure false
    else close_vanished p.links seen seen.status

unfoldable pub reconcile_plain : TradeRecord → Option BrokerOrder → Report → M Bool
reconcile_plain seen none p = reconcile_unreported seen p
reconcile_plain seen (some o) p = reconcile_reported seen o p

-- One record: an unfinished cancellation is left alone, an accepted one is followed up.
unfoldable pub reconcile_record : TradeRecord → Report → M Bool
reconcile_record seen p =
    if cancellation_eq seen.cancellation_status (some attempting)
      || cancellation_eq seen.cancellation_status (some CancellationStatus.unknown)
    then pure false
    else if cancellation_eq seen.cancellation_status (some CancellationStatus.accepted)
    then reconcile_accepted_cancellation seen p.order p
    else reconcile_plain seen p.order p

-- What one run of the reconciliation works with.
pub record Sync : Type 0 where
  pub context : BrokerContext
  pub market : Market
  pub positions : List Position
  pub unfilled : List UnfilledOrder
  pub orders : List BrokerOrder
  pub details : BrokerOrder → OrderStatus → Option String
  pub now : ℕ
  pub links : TradeRecord → Links

-- The `where` of the open records.
unfoldable pub is_open_record : Sync → TradeRecord → Bool
is_open_record s r =
    broker_eq r.broker s.context.broker
    && market_eq r.market s.market
    && (status_eq r.status pending || status_eq r.status partial)
    && is_some r.order_no
    && environment_is r.broker_environment s.context.environment
    && opt_eq r.broker_account_hash (some s.context.account_hash)

abbrev details_of : Sync → Option BrokerOrder → OrderStatus → Option String
details_of s none next = none
details_of s (some o) next = s.details o next

unfoldable pub report_of : Sync → TradeRecord → Report
unfolding find_matching_broker_order is_still_open position_quantity
report_of s r =
    let found = find_matching_broker_order r s.orders s.market in
    record {
      order = found;
      details = details_of s found;
      still_open = is_still_open s.market r s.unfilled;
      held = position_quantity r s.positions 0;
      now = s.now;
      links = s.links r;
    }

-- One round of the loop; the row is met as it was read.
unfoldable pub reconcile_turn : Sync → M Bool
reconcile_turn s w =
    if is_open_record s w.row then reconcile_record w.row (report_of s w.row) w else (false, w)

unfoldable pub reconcile_open_orders : Sync → List World → Bool × List World
reconcile_open_orders s [] = (false, [])
reconcile_open_orders s (w ∷ ws) =
    let (later, ws') = reconcile_open_orders s ws in
    let (fresh, w') = reconcile_turn s w in (fresh || later, w' ∷ ws')
