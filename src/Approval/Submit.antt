-- ===== src/Approval/Submit.antt =====
-- What follows the submission claim of an approved sell: the order goes out once, and the broker's answer
-- is written to the trade record.
use kis_trader_back.Common.{
  ℕ, zero, suc, ◌+◌, String, Bool, true, false, ◌&&◌, none, some, if◌then◌else◌, ◌==◌,
}
use kis_trader_back.Model.{
  TradeRecord, Signal, OrderResult, Outcome, outcome_eq, sell, submitting, cancelled, failed,
  pending, submission_unknown,
}
use kis_trader_back.Db.{emit, warn_persistence}
use kis_trader_back.Env.{Reply, answered, thrown, update_at, post}
use kis_trader_back.Recovery.{mark_submission_unknown}
use kis_trader_back.Execution.{
  has_complete_order_identity, accept_submission_update, reject_submission_update,
  cancel_claimed_update, cancel_pre_submit_update,
}
use kis_trader_back.Approval.Defs.{
  Approval, Office, Reason, broker_rejected, broker_unknown, state_changed,
  accepted_persistence_pending, Result, D, ◌>>=◌, ◌>>◌, pure, on_record, await,
}

-- `resolveStateChangedResult`: the record's state is reported as it is now.
unfoldable pub resolve_state_changed : Office → ℕ → Result → Bool → D Result
resolve_state_changed o k current submitted d =
    let seen = await o k d in
    (
      record current {
        trade_status = some seen.world.row.status;
        submitted = submitted;
        reason = some state_changed;
      },
      seen,
    )

-- The cancellation before the claim, with the reason to report; 1 is the only count that is success.
unfoldable pub cancel_for : Office → ℕ → Result → String → Reason → D Result
unfolding resolve_state_changed update_at
cancel_for o k current message reason = do
  count ← on_record (update_at o.env k (cancel_pre_submit_update message))
  if count == 1
      then pure (record current {
        trade_status = some cancelled;
        submitted = false;
        reason = some reason;
      })
      else resolve_state_changed o (k + 1) current false

-- The cancellation after the claim: it gives the claim up only if this task still holds it.
unfoldable pub cancel_claimed_before_post : Office → ℕ → Result → ℕ → String → Reason → D Result
unfolding resolve_state_changed update_at
cancel_claimed_before_post o k current started message reason = do
  count ← on_record (update_at o.env k (cancel_claimed_update started message))
  if count == 1
      then pure (record current {
        trade_status = some cancelled;
        submitted = false;
        reason = some reason;
      })
      else resolve_state_changed o (k + 1) current false

-- Up to three attempts: a failed database call and a missed compare-and-set are both tried again.
unfoldable pub persist_accepted : Office → ℕ → ℕ → OrderResult → D Bool
unfolding update_at
persist_accepted o zero k result d = (false, d)
persist_accepted o (suc left) k result d =
    let (count, d') = on_record (update_at o.env k (accept_submission_update result)) d in
    let after_throw = persist_accepted o left (k + 1) result d in
    let after_miss = persist_accepted o left (k + 1) result d' in
    if o.env.throws k then after_throw else if count == 1 then (true, d') else after_miss

unfoldable pub report_accepted : Office → Result → OrderResult → D Result
report_accepted o current result = do
  persisted ← persist_accepted o 3 61 result
  if persisted then pure tt else on_record (emit warn_persistence)
  pure (record current {
    trade_status = some (if persisted then pending else submitting);
    submitted = true;
    reason = if persisted then none else some accepted_persistence_pending;
  })

unfoldable pub report_rejected : Office → Result → String → D Result
unfolding update_at resolve_state_changed
report_rejected o current message = do
  count ← on_record (update_at o.env 65 (reject_submission_update message))
  if count == 1
      then pure (record current {
        trade_status = some failed;
        submitted = true;
        reason = some broker_rejected;
      })
      else resolve_state_changed o 66 current true

unfoldable pub report_unknown : Office → Result → String → D Result
unfolding resolve_state_changed
report_unknown o current message = do
  marked ← on_record (mark_submission_unknown message true)
  if marked
      then pure (record current {
        trade_status = some submission_unknown;
        submitted = true;
        reason = some broker_unknown;
      })
      else resolve_state_changed o 67 current true

unfoldable pub report_reply : Office → Result → Reply → D Result
report_reply o current (thrown message) = report_unknown o current message
report_reply o current (answered result) =
    if outcome_eq result.outcome Outcome.accepted && has_complete_order_identity result
    then report_accepted o current result
    else if outcome_eq result.outcome Outcome.rejected
    then report_rejected o current result.message
    else report_unknown o current (
        if outcome_eq result.outcome Outcome.accepted
        then "Accepted broker response missing required order identity"
        else result.message)

-- The order that is sent: the record's identity, price and side, and the clamped quantity.
abbrev pub order_of : Approval → TradeRecord → ℕ → Signal
order_of a r quantity = record (a.signal) {
  broker = some r.broker;
  market = a.market;
  exchange_code = a.exchange_code;
  stock_code = a.stock_code;
  side = sell;
  quantity = quantity;
  price = some r.price;
}

unfoldable pub submit_order : Office → Result → Signal → D Result
submit_order o current order = do reply ← on_record (post o.env order); report_reply o current reply
