-- ===== src/Reconcile/Strategy.antt =====
-- What the reconciliation passes on of a change to a record: to its strategy, to the log of the watched
-- stock, to Slack. The record is read again by its id each time.
use kis_trader_back.Common.{
  ℕ, String, Bool, false, ◌&&◌, ◌||◌, not, Option, none, some, if◌then◌else◌, ltb, is_some,
  is_empty, str_eq,
}
use kis_trader_back.Model.{
  TradeRecord, Signal, OrderStatus, filled, partial, cancelled, failed, status_eq, is_buy,
  order_filled, order_failed, order_cancelled,
}
use kis_trader_back.Db.{M, pure, emit, log, strategy_fill, strategy_failure, notify_fill}

-- What other tables hold of a record: whether its stock is watched, and the signal that
-- `getSubmittedSignal` finds in the logs or in the approval. `slack_on` is the service's `isEnabled`.
pub record Links : Type 0 where
  pub watched : Bool
  pub signal : Option Signal
  pub slack_on : Bool

abbrev pub has_strategy : TradeRecord → Bool
has_strategy r = elim r.strategy_name [ none ↦ false | some name ↦ not (is_empty name) ]

-- The quantity of the signal that the strategy gets, if it gets one: of a buy what was filled now, of a
-- sell the whole signal, once it is FILLED.
unfoldable pub shares_told : TradeRecord → Option Signal → OrderStatus → ℕ → Option ℕ
shares_told r none status filled_now = none
shares_told r (some signal) status filled_now =
    if is_buy r.side && ltb 0 filled_now
    then some filled_now
    else if not (is_buy r.side) && status_eq status filled
    then some signal.quantity
    else none

abbrev tell_fill : ℕ → Option ℕ → M (Unit {0})
tell_fill before none = pure tt
tell_fill before (some n) = emit (strategy_fill before n)

-- `applyReconciledStrategyFill`.
unfoldable pub apply_reconciled_strategy_fill : Links → OrderStatus → ℕ → ℕ → M (Unit {0})
unfolding shares_told
apply_reconciled_strategy_fill l status before filled_now w =
    tell_fill before
      (if has_strategy w.row && l.watched
        then shares_told w.row l.signal status filled_now
        else none)
      w

restores_quota : Option String → Bool
restores_quota none = false
restores_quota (some name) = str_eq name "infinite-buy" || str_eq name "daily-dca"

-- `applyReconciledStrategyFailure` up to the watched stock, whose quota it may then restore.
unfoldable pub apply_reconciled_strategy_failure : Links → M (Unit {0})
unfolding restores_quota
apply_reconciled_strategy_failure l w =
    if is_buy w.row.side && restores_quota w.row.strategy_name && l.watched
    then emit strategy_failure w
    else pure tt w

log_event : OrderStatus → M (Unit {0})
log_event failed = emit (log order_failed)
log_event cancelled = emit (log order_cancelled)
log_event _ = emit (log order_filled)

-- `logReconciledOrder`.
unfoldable pub log_reconciled_order : Links → OrderStatus → M (Unit {0})
unfolding log_event
log_reconciled_order l status = if l.watched then log_event status else pure tt

-- `notifyTradeFill`.
abbrev pub notify_trade_fill : Links → OrderStatus → ℕ → M (Unit {0})
notify_trade_fill l status filled_now =
    if l.slack_on
      && ltb 0 filled_now
      && (status_eq status filled || status_eq status partial)
      && is_some l.signal
    then emit (notify_fill filled_now)
    else pure tt
