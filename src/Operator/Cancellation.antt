-- ===== src/Operator/Cancellation.antt =====
-- src/trading/trading-broker-cancellation-recovery.service.ts: `inspectCancellation` and
-- `confirmCancellationNotAccepted`.
pub mod Reading
pub mod Resolving
use Prim.Native.String
use kis_trader_back.Common.{
  ℕ, ◌+◌, String, Bool, true, false, ◌&&◌, ◌||◌, not, Option, none, some, List, [], ◌∷◌,
  if◌then◌else◌, str_eq, opt_eq, is_empty, is_blank, is_some, is_none, trim, normalize, keep, any,
  every, get_or, or_else, leb, ltb, ◌==◌, min, max,
}
use kis_trader_back.Model.{
  TradeRecord, Broker, broker_eq, broker_name, Market, domestic, overseas, Side, side_eq,
  BrokerOrder, UnfilledOrder, opt_environment_eq, OrderStatus, pending, partial, filled, cancelled,
  status_eq, CancellationStatus, resolved, cancellation_eq, RejectionState, is_rejected,
  not_rejected, unclear, cancellation_reconciled, cancellation_not_accepted,
}
use kis_trader_back.Db.{World, Update, audit}
use kis_trader_back.Dates.{is_valid_broker_order_date}
use kis_trader_back.Recovery.TakeOver.{Table}
use kis_trader_back.Matcher.{
  Answer, failed, done, invalid_identity, not_unresolved, context_mismatch, history_failed,
  identity_incomplete, ambiguous_execution, unproven, quantities_regressed, not_open, check_context,
}
use kis_trader_back.Operator.Claim.{Recall, transact, require_actor}
use kis_trader_back.Operator.Submission.{at_table, with_unknown}

-- `loadUnknownCancellation`.
abbrev pub is_unknown_cancellation : TradeRecord → Bool
is_unknown_cancellation r =
    (status_eq r.status pending || status_eq r.status partial)
    && is_some r.order_no
    && cancellation_eq r.cancellation_status (some CancellationStatus.unknown)

unfoldable pub find_unknown_cancellation : String → Table → Option World
find_unknown_cancellation id [] = none
find_unknown_cancellation id (w ∷ ws) =
    if str_eq w.row.id id && is_unknown_cancellation w.row
    then some w
    else find_unknown_cancellation id ws

-- `assertStoredIdentity`.
unfoldable pub has_stored_identity : TradeRecord → Bool
unfolding is_blank is_valid_broker_order_date
has_stored_identity r =
    not (is_blank r.order_no)
    && is_some r.broker_environment
    && not (is_blank r.broker_account_hash)
    && is_valid_broker_order_date r.broker_order_date

abbrev normalize_exchange : Market → String → String
normalize_exchange domestic code = "KRX"
normalize_exchange overseas code = normalize code

-- `matchesOrderTuple` of this service.
unfoldable pub is_order_tuple : TradeRecord → String → Option String → String → Side → Bool
unfolding trim normalize
is_order_tuple r order_no exchange_code stock_code side =
    elim (r.order_no) [ none ↦ false | some n ↦ str_eq (trim order_no) (trim n) ]
    && str_eq (normalize_exchange r.market (get_or exchange_code ""))
        (normalize_exchange r.market r.exchange_code)
    && str_eq (normalize stock_code) (normalize r.stock_code)
    && side_eq side r.side

-- `matchingExecutions` keeps these.
unfoldable pub is_execution_of : TradeRecord → BrokerOrder → Bool
unfolding trim is_order_tuple
is_execution_of r o =
    elim (o.order_date) [ none ↦ false | some d ↦ opt_eq (some (trim d)) r.broker_order_date ]
    && is_order_tuple r o.order_no o.exchange_code o.stock_code o.side
    && o.order_quantity == r.quantity

-- `findOpenOrder` looks for one of these.
unfoldable pub is_open_order : TradeRecord → UnfilledOrder → Bool
unfolding is_order_tuple
is_open_order r o =
    is_order_tuple r o.order_no o.exchange_code o.stock_code o.side
    && ltb 0 o.quantity
    && leb o.quantity r.quantity

abbrev is_not_rejected : Option RejectionState → Bool
is_not_rejected (some not_rejected) = true
is_not_rejected _ = false

-- An execution that `aggregateExecutions` accepts.
abbrev pub is_plain : TradeRecord → BrokerOrder → Bool
is_plain r o =
    is_not_rejected o.rejection_state
    && not o.rejected
    && leb o.filled_quantity r.quantity
    && leb o.remaining_quantity r.quantity
    && leb (o.filled_quantity + o.remaining_quantity) r.quantity

-- The largest fill, the smallest remainder, the last price and time.
unfoldable pub aggregate : BrokerOrder → List BrokerOrder → BrokerOrder
aggregate a [] = a
aggregate a (o ∷ os) =
    aggregate
      (record a {
        filled_quantity = max a.filled_quantity o.filled_quantity;
        remaining_quantity = min a.remaining_quantity o.remaining_quantity;
        filled_price = or_else o.filled_price a.filled_price;
        order_time = or_else o.order_time a.order_time;
      })
      os

-- `cancellationCasWhere`.
abbrev pub is_still_open : TradeRecord → TradeRecord → Bool
is_still_open seen r =
    broker_eq r.broker seen.broker
    && status_eq r.status seen.status
    && opt_eq r.order_no seen.order_no
    && cancellation_eq r.cancellation_status (some CancellationStatus.unknown)
    && opt_environment_eq r.broker_environment seen.broker_environment
    && opt_eq r.broker_account_hash seen.broker_account_hash
    && opt_eq r.broker_order_date seen.broker_order_date

unfoldable pub status_after : ℕ → ℕ → OrderStatus
status_after quantity executed =
    if leb quantity executed then filled else if ltb 0 executed then partial else cancelled

abbrev closing_message : Broker → String
closing_message b =
    String.◌++◌ "Cancellation closure confirmed from complete "
      (String.◌++◌ (broker_name b) " reads")

abbrev pub close_update : TradeRecord → BrokerOrder → ℕ → ℕ → String → Update
close_update seen o executed now actor = record {
  guard = is_still_open seen;
  change = λ r. record r {
    status = status_after seen.quantity executed;
    order_no = if status_eq (status_after seen.quantity executed) partial then none else r.order_no;
    executed_qty = some executed;
    executed_price = some (get_or (or_else o.filled_price seen.executed_price) seen.price);
    executed_at = if ltb (get_or seen.executed_qty 0) executed then some now else r.executed_at;
    cancellation_status = some resolved;
    cancellation_resolved_at = some now;
    cancellation_resolved_by = some actor;
    cancellation_message = some (closing_message seen.broker);
  };
}

abbrev pub not_accepted_update : TradeRecord → ℕ → String → Update
not_accepted_update seen now actor = record {
  guard = is_still_open seen;
  change = λ r. record r {
    cancellation_status = some CancellationStatus.rejected;
    cancellation_resolved_at = some now;
    cancellation_resolved_by = some actor;
    cancellation_message = some (
        String.◌++◌ "Operator confirmed cancellation was not accepted after complete "
          (String.◌++◌ (broker_name seen.broker) " reads"));
  };
}

unfoldable pub write_closure :
    Recall → TradeRecord → String → BrokerOrder → ℕ → Table → Answer World × Table
unfolding transact
write_closure e seen actor o executed t =
    transact seen.id (close_update seen o executed e.now actor)
      (audit cancellation_reconciled actor (some seen.status)
        (some (status_after seen.quantity executed)))
      (e.meddle 87 t)

-- The order is listed no more: what it executed is taken over, if that is no less than was known.
unfoldable pub close_order :
    Recall → TradeRecord → String → List BrokerOrder → Table → Answer World × Table
unfolding write_closure aggregate
close_order e seen actor [] t = (failed unproven, t)
close_order e seen actor (o ∷ os) t =
    if not (every (is_plain seen) (o ∷ os))
    then (failed ambiguous_execution, t)
    else if ltb (min seen.quantity (aggregate o os).filled_quantity) (get_or seen.executed_qty 0)
    then (failed quantities_regressed, t)
    else write_closure e seen actor (aggregate o os)
        (min seen.quantity (aggregate o os).filled_quantity) t

unfoldable pub inspect_reads :
    Recall → World → String → List BrokerOrder → List UnfilledOrder → Table → Answer World × Table
unfolding close_order is_execution_of is_open_order
inspect_reads e w actor orders unfilled t =
    if any (is_open_order w.row) unfilled
    then (if every (is_plain w.row) (keep (is_execution_of w.row) orders)
        then (done w, t)
        else (failed ambiguous_execution, t))
    else close_order e w.row actor (keep (is_execution_of w.row) orders) t

unfoldable pub refuse_reads :
    Recall → World → String → List BrokerOrder → List UnfilledOrder → Table → Answer World × Table
unfolding transact is_execution_of is_open_order
refuse_reads e w actor orders unfilled t =
    if not (every (is_plain w.row) (keep (is_execution_of w.row) orders))
    then (failed ambiguous_execution, t)
    else if not (any (is_open_order w.row) unfilled)
    then (failed not_open, t)
    else transact w.row.id (not_accepted_update w.row e.now actor)
        (audit cancellation_not_accepted actor (some w.row.status) (some w.row.status))
        (e.meddle 87 t)

-- `readCompleteBrokerState`: both reads, or an exception.
unfoldable pub with_reads :
    Option (List BrokerOrder)
    → Option (List UnfilledOrder)
    → Table
    → (List BrokerOrder → List UnfilledOrder → Answer World × Table)
    → Answer World × Table
with_reads (some orders) (some unfilled) t f = f orders unfilled
with_reads _ _ t f = (failed history_failed, t)

abbrev pub with_cancellation :
    Option World → Table → (World → Answer World × Table) → Answer World × Table
with_cancellation none t f = (failed not_unresolved, t)
with_cancellation (some w) t f = f w

-- What both operations do before and after the reads; the context is compared before and after.
unfoldable pub with_broker_state :
    Recall
    → String
    → String
    → Table
    → (World → String → List BrokerOrder → List UnfilledOrder → Table → Answer World × Table)
    → Answer World × Table
unfolding trim require_actor find_unknown_cancellation has_stored_identity with_reads
with_broker_state e id actor t f =
    if is_empty (trim id)
    then (failed invalid_identity, t)
    else at_table (require_actor actor) t λ who.
      let met = e.meddle 84 t in
      with_cancellation (find_unknown_cancellation (trim id) met) met λ w.
        if not (has_stored_identity w.row)
        then (failed identity_incomplete, met)
        else at_table
            (check_context context_mismatch w.row.broker w.row.broker_environment
              w.row.broker_account_hash (e.context 84 w.row.broker))
            met
            λ _. with_reads e.history e.unfilled met λ orders unfilled.
              at_table
                (check_context context_mismatch w.row.broker w.row.broker_environment
                  w.row.broker_account_hash (e.context 85 w.row.broker))
                met λ _. f w who orders unfilled met

unfoldable pub inspect_cancellation : Recall → String → String → Table → Answer World × Table
unfolding with_broker_state inspect_reads
inspect_cancellation e id actor t = with_broker_state e id actor t (inspect_reads e)

unfoldable pub confirm_cancellation_not_accepted :
    Recall → String → String → Table → Answer World × Table
unfolding with_broker_state refuse_reads
confirm_cancellation_not_accepted e id actor t = with_broker_state e id actor t (refuse_reads e)
