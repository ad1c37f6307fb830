-- ===== src/Operator/Assignment.antt =====
-- `assignCurrentContext` of src/trading/trading-broker-order-recovery.service.ts: an old record
-- without a broker context gets the one that the operator saw in a preview. `bind` is
-- `createContextBindingToken`, a keyed hash of the context.
pub mod Assigned
use kis_trader_back.Common.{
  String, Bool, true, false, ◌&&◌, ◌||◌, not, Option, none, some, if◌then◌else◌, str_eq, is_empty,
  trim, is_none,
}
use kis_trader_back.Model.{
  TradeRecord, Broker, broker_eq, BrokerContext, submission_unknown, status_eq, CancellationStatus,
  cancellation_eq, legacy_context_assigned,
}
use kis_trader_back.Db.{World, Update, audit}
use kis_trader_back.Recovery.TakeOver.{Table}
use kis_trader_back.Matcher.{
  Answer, failed, done, record_missing, preview_changed, context_unreadable, state_changed,
}
use kis_trader_back.Operator.Claim.{Recall, find_row, transact, require_actor}
use kis_trader_back.Operator.Submission.{at_table}

-- `matchesContextBindingToken`.
unfoldable pub matches_token : (BrokerContext → String) → BrokerContext → String → Bool
unfolding trim
matches_token bind c token = not (is_empty (trim token)) && str_eq (trim token) (bind c)

abbrev pub assign_update : Broker → BrokerContext → Update
assign_update b c = record {
  guard = λ r.
      broker_eq r.broker b
      && is_none r.broker_environment
      && is_none r.broker_account_hash
      && (status_eq r.status submission_unknown
          || cancellation_eq r.cancellation_status (some CancellationStatus.unknown));
  change = λ r. record r {
    broker_environment = some c.environment;
    broker_account_hash = some c.account_hash;
  };
}

-- The audit entry has the status that the row has in the transaction.
unfoldable pub assign_row :
    String → Broker → BrokerContext → String → Table → Option World → Answer World × Table
unfolding transact
assign_row id b c actor t none = (failed state_changed, t)
assign_row id b c actor t (some v) =
    transact id (assign_update b c)
      (audit legacy_context_assigned actor (some v.row.status) (some v.row.status)) t

unfoldable pub assign_in :
    (BrokerContext → String)
    → Recall
    → String
    → String
    → String
    → Broker
    → Table
    → Option BrokerContext
    → Answer World × Table
unfolding matches_token assign_row find_row
assign_in bind e id token actor b t none = (failed context_unreadable, t)
assign_in bind e id token actor b t (some c) =
    if not (matches_token bind c token)
    then (failed preview_changed, t)
    else assign_row id b c actor (e.meddle 91 t) (find_row id (e.meddle 91 t))

unfoldable pub assign_found :
    (BrokerContext → String)
    → Recall
    → String
    → String
    → String
    → Table
    → Option World
    → Answer World × Table
unfolding assign_in
assign_found bind e id token actor t none = (failed record_missing, t)
assign_found bind e id token actor t (some target) =
    assign_in bind e id token actor target.row.broker t (e.context 90 target.row.broker)

unfoldable pub assign_current_context :
    (BrokerContext → String) → Recall → String → String → String → Table → Answer World × Table
unfolding require_actor assign_found find_row
assign_current_context bind e id token actor t =
    at_table (require_actor actor) t
      λ who. assign_found bind e id token who (e.meddle 90 t) (find_row id (e.meddle 90 t))
