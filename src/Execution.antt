-- ===== src/Execution.antt =====
-- src/trading/trading-order-execution.service.ts: an automatic order from its admitted record to the
-- broker's answer. Each step returns whether the order was accepted, as `execute` does.
pub mod Posting
pub mod Settling
use kis_trader_back.Common.{
  ℕ, zero, suc, ◌+◌, String, Bool, true, false, ◌&&◌, not, Option, none, some, is_some, is_none,
  if◌then◌else◌, ◌==◌, str_eq, is_blank, get_or,
}
use kis_trader_back.Model.{
  Signal, OrderResult, BrokerContext, OrderType, market_order, limit_order, loc_order, Outcome,
  submitting, cancelled, failed, pending, status_eq, EventType, order_submitted, order_failed,
  order_submission_unknown,
}
use kis_trader_back.Db.{
  Update, M, ◌>>=◌, ◌>>◌, pure, emit, log, alert_failure, warn_persistence, mark_second_target,
}
use kis_trader_back.Env.{Env, Reply, answered, thrown, is_current_broker_context, update_at, post}
use kis_trader_back.Recovery.{mark_submission_unknown, positive}

unfoldable pub get_order_type : Signal → OrderType
get_order_type signal =
    if str_eq (get_or signal.order_division "") "34"
    then loc_order
    else if get_or signal.price 0 == 0
    then market_order
    else limit_order

unfoldable pub has_complete_order_identity : OrderResult → Bool
unfolding is_blank
has_complete_order_identity r =
    not (is_blank r.order_no) && not (is_blank r.broker_order_date) && not (is_blank r.order_time)

abbrev pub cancel_pre_submit_update : String → Update
cancel_pre_submit_update message = record {
  guard = λ r. status_eq r.status submitting && is_none r.submission_started_at;
  change = λ r. record r { status = cancelled; broker_message = some message };
}

abbrev pub claim_submission_update : ℕ → Update
claim_submission_update now = record {
  guard = λ r. status_eq r.status submitting && is_none r.submission_started_at;
  change = λ r. record r { submission_started_at = some now };
}

abbrev pub started_is : Option ℕ → ℕ → Bool
started_is none t = false
started_is (some s) t = s == t

abbrev pub cancel_claimed_update : ℕ → String → Update
cancel_claimed_update started message = record {
  guard = λ r. status_eq r.status submitting && started_is r.submission_started_at started;
  change = λ r. record r {
    status = cancelled;
    submission_started_at = none;
    broker_message = some message;
  };
}

abbrev pub reject_submission_update : String → Update
reject_submission_update message = record {
  guard = λ r. status_eq r.status submitting && is_some r.submission_started_at;
  change = λ r. record r { status = failed; broker_message = some message };
}

abbrev pub accept_submission_update : OrderResult → Update
accept_submission_update result = record {
  guard = λ r. status_eq r.status submitting && is_some r.submission_started_at;
  change = λ r. record r {
    status = pending;
    order_no = result.order_no;
    broker_order_date = result.broker_order_date;
    broker_order_time = result.order_time;
    broker_message = some result.message;
  };
}

-- What the caller hands over beside the signal: is there a watched stock, and does its row hold a
-- second exit plan.
pub record Request : Type 0 where
  pub signal : Signal
  pub strategy_name : String
  pub context : BrokerContext
  pub has_watch_stock : Bool
  pub has_exit_plan : Bool

-- The execution log is only written for a watched stock.
abbrev log_if : Bool → EventType → M (Unit {0})
log_if watched event = if watched then emit (log event) else pure tt

outcome_event : Outcome → EventType
outcome_event Outcome.accepted = order_submitted
outcome_event Outcome.rejected = order_failed
outcome_event Outcome.unknown = order_submission_unknown

unfoldable pub log_order_outcome : Request → Outcome → M (Unit {0})
unfolding outcome_event
log_order_outcome q outcome = log_if q.has_watch_stock (outcome_event outcome)

-- Whether `markInfiniteBuySecondTargetAttempted` gets as far as the database.
abbrev wants_second_target : Request → Bool
wants_second_target q =
    str_eq q.strategy_name "infinite-buy"
    && str_eq (get_or q.signal.phase "") "take-profit-2"
    && q.has_watch_stock

-- Up to three attempts; only a failed database call is tried again.
unfoldable pub persist_accepted : Env → ℕ → ℕ → OrderResult → M Bool
unfolding update_at
persist_accepted env zero k result w = (false, w)
persist_accepted env (suc left) k result w =
    let retry = persist_accepted env left (k + 1) result w in
    let written = update_at env k (accept_submission_update result) w in
    if env.throws k then retry else (positive written.0, written.1)

abbrev unknown_outcome : Env → Request → String → M Bool
unknown_outcome env q message = do
  mark_submission_unknown message true
  log_order_outcome q Outcome.unknown
  pure false

abbrev rejected_outcome : Env → Request → String → M Bool
rejected_outcome env q message = do
  count ← update_at env 20 (reject_submission_update message)
  log_order_outcome q Outcome.rejected
  if positive count then emit alert_failure else pure tt
  pure false

abbrev accepted_outcome : Env → Request → OrderResult → M Bool
accepted_outcome env q result = do
  persisted ← persist_accepted env 3 21 result
  if persisted then pure tt else emit warn_persistence
  log_order_outcome q Outcome.accepted
  pure true

-- What follows from the broker's answer.
unfoldable pub settle_outcome : Env → Request → OrderResult → Outcome → M Bool
unfolding update_at
settle_outcome env q result Outcome.accepted =
    if has_complete_order_identity result
    then accepted_outcome env q result
    else unknown_outcome env q "Accepted broker response missing required order identity"
settle_outcome env q result Outcome.rejected = rejected_outcome env q result.message
settle_outcome env q result Outcome.unknown = unknown_outcome env q result.message

unfoldable pub settle_reply : Env → Request → Reply → M Bool
settle_reply env q (answered result) = settle_outcome env q result result.outcome
settle_reply env q (thrown message) = unknown_outcome env q message

-- The order goes out, and the answer is written down.
unfoldable pub submit_claimed : Env → Request → M Bool
unfolding settle_reply
submit_claimed env q = do reply ← post env q.signal; settle_reply env q reply

abbrev cancel_claimed : Env → ℕ → ℕ → String → M Bool
cancel_claimed env k started message = do
  update_at env k (cancel_claimed_update started message)
  pure false

-- The row is claimed; every condition is looked at once more before the order goes out.
unfoldable pub execute_claimed : Env → Request → ℕ → M Bool
unfolding update_at
execute_claimed env q started =
    if not (is_current_broker_context env 2 q.context)
    then cancel_claimed env 11 started "브로커 컨텍스트 변경으로 주문 취소"
    else if not (env.live 2)
    then cancel_claimed env 12 started "실거래 비활성화로 주문 취소"
    else if not (env.active 2)
    then cancel_claimed env 13 started "브로커 비활성화로 주문 취소"
    else submit_claimed env q

-- The compare-and-set that gives this task alone the right to send.
unfoldable pub claim_and_execute : Env → Request → M Bool
unfolding update_at
claim_and_execute env q = do
  count ← update_at env 10 (claim_submission_update (env.now 1))
  if count == 0 then pure false else execute_claimed env q (env.now 1)

abbrev cancel_pre_submit : Env → ℕ → String → M Bool
cancel_pre_submit env k message = do update_at env k (cancel_pre_submit_update message); pure false

-- The conditions before the claim; the position refresh may fail.
unfoldable pub execute_refreshed : Env → Request → M Bool
unfolding update_at
execute_refreshed env q =
    if is_none env.holdings
    then cancel_pre_submit env 6 "포지션 동기화 실패로 주문 취소"
    else if not (is_current_broker_context env 1 q.context)
    then cancel_pre_submit env 7 "브로커 컨텍스트 변경으로 주문 취소"
    else if not (env.live 1)
    then cancel_pre_submit env 8 "실거래 비활성화로 주문 취소"
    else if not (env.active 1)
    then cancel_pre_submit env 9 "브로커 비활성화로 주문 취소"
    else claim_and_execute env q

abbrev mark_and_go_on : Env → Request → M Bool
mark_and_go_on env q =
    if env.throws 5
    then cancel_pre_submit env 5 "2차 익절 시도 상태 저장 실패로 주문 취소"
    else if q.has_exit_plan
    then (emit mark_second_target >> execute_refreshed env q)
    else execute_refreshed env q

-- `execute` from the admitted record on.
unfoldable pub execute_admitted : Env → Request → M Bool
unfolding update_at
execute_admitted env q = do
  log_if q.has_watch_stock order_submitted
  if wants_second_target q then mark_and_go_on env q else execute_refreshed env q
