-- ===== src/Operator/Views.antt =====
-- The recovery items of src/trading/trading-broker-order-recovery.service.ts: `listRecoveryItems`,
-- `inspectCandidates`, and the operator's decisions with the item that each answers. The masked account of
-- an item and its `updatedAt`, by which the list is sorted, are left out.
pub mod Inspected
use kis_trader_back.Common.{
  ℕ, String, Bool, true, false, ◌&&◌, ◌||◌, Option, none, some, List, [], ◌∷◌, map, keep,
  if◌then◌else◌, is_some,
}
use kis_trader_back.Model.{
  TradeRecord, Broker, BrokerContext, BrokerEnvironment, Market, Side, OrderType, OrderStatus,
  SubmissionResolution, CancellationStatus, cancellation_eq, submission_unknown, status_eq,
  candidates_inspected,
}
use kis_trader_back.Db.{World, M, ◌>>=◌, ◌>>◌, pure, emit, Effect, audit}
use kis_trader_back.Recovery.TakeOver.{Table}
use kis_trader_back.Matcher.{
  Answer, failed, done, state_changed, not_unresolved, Candidate, is_context_of,
}
use kis_trader_back.Operator.Claim.{
  Recall, find_row, at_row, require_actor, find_unknown_submission,
}
use kis_trader_back.Operator.Submission.{
  CandidateInput, is_still_unknown, review, link_candidate, confirm_not_submitted,
  confirm_matches_existing,
}
use kis_trader_back.Operator.Cancellation.{inspect_cancellation, confirm_cancellation_not_accepted}

pub data Lifecycle : Type 0 where
  of_submission of_cancellation : Lifecycle

pub record RecoveryItem : Type 0 where
  pub trade_record_id : String
  pub broker : Broker
  pub lifecycle : Lifecycle
  pub market : Market
  pub exchange_code : String
  pub stock_code : String
  pub stock_name : String
  pub side : Side
  pub order_type : OrderType
  pub quantity : ℕ
  pub price : ℕ
  pub order_no : Option String
  pub status : OrderStatus
  pub submission_started_at : Option ℕ
  pub broker_order_date : Option String
  pub broker_order_time : Option String
  pub submission_resolved_at : Option ℕ
  pub submission_resolved_by : Option String
  pub submission_resolution : Option SubmissionResolution
  pub cancellation_status : Option CancellationStatus
  pub cancellation_started_at : Option ℕ
  pub cancellation_resolved_at : Option ℕ
  pub cancellation_resolved_by : Option String
  pub cancellation_message : Option String
  pub broker_context_assigned : Bool
  pub current_broker_environment : Option BrokerEnvironment
  pub broker_context_matches_current : Option Bool
  pub created_at : ℕ

abbrev pub is_assigned : TradeRecord → Bool
is_assigned r = is_some r.broker_environment && is_some r.broker_account_hash

abbrev lifecycle_of : Option CancellationStatus → Lifecycle
lifecycle_of none = of_submission
lifecycle_of (some s) = of_cancellation

abbrev environment_of : Option BrokerContext → Option BrokerEnvironment
environment_of none = none
environment_of (some c) = some c.environment

-- Whether the record's context is the current one, if both are known.
abbrev pub compares : TradeRecord → Option BrokerContext → Option Bool
compares r none = none
compares r (some c) =
    if is_assigned r
    then some (is_context_of r.broker r.broker_environment r.broker_account_hash c)
    else none

unfoldable pub to_recovery_item : TradeRecord → Option BrokerContext → RecoveryItem
to_recovery_item r current = record {
  trade_record_id = r.id;
  broker = r.broker;
  lifecycle = lifecycle_of r.cancellation_status;
  market = r.market;
  exchange_code = r.exchange_code;
  stock_code = r.stock_code;
  stock_name = r.stock_name;
  side = r.side;
  order_type = r.order_type;
  quantity = r.quantity;
  price = r.price;
  order_no = r.order_no;
  status = r.status;
  submission_started_at = r.submission_started_at;
  broker_order_date = r.broker_order_date;
  broker_order_time = r.broker_order_time;
  submission_resolved_at = r.submission_resolved_at;
  submission_resolved_by = r.submission_resolved_by;
  submission_resolution = r.submission_resolution;
  cancellation_status = r.cancellation_status;
  cancellation_started_at = r.cancellation_started_at;
  cancellation_resolved_at = r.cancellation_resolved_at;
  cancellation_resolved_by = r.cancellation_resolved_by;
  cancellation_message = r.cancellation_message;
  broker_context_assigned = is_assigned r;
  current_broker_environment = environment_of current;
  broker_context_matches_current = compares r current;
  created_at = r.created_at;
}

abbrev pub is_listed : World → Bool
is_listed w =
    status_eq w.row.status submission_unknown
    || cancellation_eq w.row.cancellation_status (some CancellationStatus.unknown)

unfoldable pub list_recovery_items : Table → List RecoveryItem
unfolding to_recovery_item
list_recovery_items t = map (λ w. to_recovery_item w.row none) (keep is_listed t)

pub record Inspection : Type 0 where
  pub recovery_item : RecoveryItem
  pub candidates : List Candidate

abbrev pub inspection_entry : String → Effect
inspection_entry actor =
    audit candidates_inspected actor (some submission_unknown) (some submission_unknown)

-- The transaction that notes the inspection, if the record is still what was read.
unfoldable pub note_inspection : String → TradeRecord → Option World → Table → Option Table
unfolding at_row
note_inspection actor seen none t = none
note_inspection actor seen (some w) t =
    if is_still_unknown seen w.row
    then some (at_row seen.id (emit (inspection_entry actor) >> pure true) t).1
    else none

abbrev pub noted :
    Recall → TradeRecord → List Candidate → Option Table → Table → Answer Inspection × Table
noted e seen cs none t = (failed state_changed, t)
noted e seen cs (some t') t = (
  done (record {
    recovery_item = to_recovery_item seen (e.context 81 seen.broker);
    candidates = cs;
  }),
  t',
)

abbrev pub inspected :
    Recall → TradeRecord → String → Table → Answer (List Candidate) → Answer Inspection × Table
inspected e seen actor t (failed why) = (failed why, t)
inspected e seen actor t (done cs) =
    noted e seen cs (note_inspection actor seen (find_row seen.id (e.meddle 83 t)) (e.meddle 83 t))
      (e.meddle 83 t)

abbrev pub inspect_found : Recall → String → Table → Option World → Answer Inspection × Table
inspect_found e actor t none = (failed not_unresolved, t)
inspect_found e actor t (some w) = inspected e w.row actor t (review e w.row t)

abbrev pub inspect_by : Recall → String → Table → Answer String → Answer Inspection × Table
inspect_by e id t (failed why) = (failed why, t)
inspect_by e id t (done who) =
    inspect_found e who (e.meddle 80 t) (find_unknown_submission id (e.meddle 80 t))

unfoldable pub inspect_candidates : Recall → String → String → Table → Answer Inspection × Table
unfolding require_actor find_unknown_submission review find_row note_inspection to_recovery_item
inspect_candidates e id actor t = inspect_by e id t (require_actor actor)

-- The item that a decision answers, beside the context that is configured by then.
abbrev pub item_of : Recall → Answer World → Answer RecoveryItem
item_of e (failed why) = failed why
item_of e (done w) = done (to_recovery_item w.row (e.context 99 w.row.broker))

abbrev pub as_item : Recall → Answer World × Table → Answer RecoveryItem × Table
as_item e (answer, t) = (item_of e answer, t)

unfoldable pub link_candidate_item :
    Recall → CandidateInput → String → Table → Answer RecoveryItem × Table
unfolding link_candidate to_recovery_item
link_candidate_item e input actor t = as_item e (link_candidate e input actor t)

unfoldable pub confirm_not_submitted_item :
    Recall → String → String → Table → Answer RecoveryItem × Table
unfolding confirm_not_submitted to_recovery_item
confirm_not_submitted_item e id actor t = as_item e (confirm_not_submitted e id actor t)

unfoldable pub confirm_matches_existing_item :
    Recall → CandidateInput → String → String → Table → Answer RecoveryItem × Table
unfolding confirm_matches_existing to_recovery_item
confirm_matches_existing_item e input existing actor t =
    as_item e (confirm_matches_existing e input existing actor t)

unfoldable pub inspect_cancellation_item :
    Recall → String → String → Table → Answer RecoveryItem × Table
unfolding inspect_cancellation to_recovery_item
inspect_cancellation_item e id actor t = as_item e (inspect_cancellation e id actor t)

unfoldable pub confirm_cancellation_not_accepted_item :
    Recall → String → String → Table → Answer RecoveryItem × Table
unfolding confirm_cancellation_not_accepted to_recovery_item
confirm_cancellation_not_accepted_item e id actor t =
    as_item e (confirm_cancellation_not_accepted e id actor t)
