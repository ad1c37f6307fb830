-- ===== src/Matcher.antt =====
-- src/trading/trading-broker-order-matcher.service.ts: which orders of the broker's history may be the
-- order whose submission ended unknown.
pub mod Sound
use kis_trader_back.Common.First.{add_first}
use kis_trader_back.Common.{
  ℕ, ◌+◌, ◌-◌, ◌*◌, String, Bool, true, false, ◌&&◌, ◌||◌, not, Option, none, some, List, [], ◌∷◌,
  ◌++◌, if◌then◌else◌, str_eq, is_empty, is_blank, trim, normalize, leb, ltb, ◌==◌, any, get_or,
}
use kis_trader_back.Model.{
  Broker, broker_eq, Market, domestic, overseas, Side, side_eq, BrokerEnvironment, environment_is,
  BrokerContext, BrokerOrder, RejectionState, unclear,
}
use kis_trader_back.Dates.Kst.{parse_kst_timestamp, wall_clock}

-- Why an operation of an operator is refused; each constructor is a `throw` of the source.
pub data Failure : Type 0 where
  invalid_identity actor_required not_unresolved context_required context_unreadable : Failure
  context_mismatch no_submission_time history_failed context_changed invalid_span : Failure
  identity_incomplete ambiguous_execution unproven quantities_regressed not_open : Failure
  record_missing preview_changed : Failure
  candidate_gone candidates_exist not_matching_existing state_changed already_linked : Failure
  collides : String → Failure

pub data Answer (A : Type 0) : Type 0 where
  failed : Failure → Answer A
  done : A → Answer A

abbrev pub and_then : {A B : Type 0} → Answer A → (A → Answer B) → Answer B
and_then (failed why) f = failed why
and_then (done a) f = f a

pub record MatchRequest : Type 0 where
  pub trade_record_id : String
  pub broker : Broker
  pub market : Market
  pub exchange_code : String
  pub stock_code : String
  pub side : Side
  pub quantity : ℕ
  pub submission_started_at : Option ℕ
  pub broker_environment : Option BrokerEnvironment
  pub broker_account_hash : Option String

pub data CollisionType : Type 0 where
  exact legacy : CollisionType

-- `rejected` and `rejectedReason` follow from `rejection_state` and are left out.
pub record Candidate : Type 0 where
  pub order_no : String
  pub stock_code : String
  pub side : Side
  pub order_quantity : ℕ
  pub filled_quantity : ℕ
  pub remaining_quantity : ℕ
  pub order_price : Option ℕ
  pub filled_price : Option ℕ
  pub exchange_code : String
  pub order_date : String
  pub order_time : String
  pub rejection_state : RejectionState
  pub existing_trade_record_id : Option String
  pub collision_type : Option CollisionType

abbrev pub ten_minutes_ms : ℕ
ten_minutes_ms = 10 * 60 * 1000

abbrev expected_exchange : MatchRequest → Market → String
expected_exchange q domestic = "KRX"
expected_exchange q overseas = normalize q.exchange_code

abbrev order_exchange : BrokerOrder → Market → String
order_exchange o domestic = "KRX"
order_exchange o overseas = normalize (get_or o.exchange_code "")

-- The time of an order lies within ten minutes of the submission, on either side.
abbrev pub in_window : ℕ → Option ℕ → Bool
in_window submitted none = false
in_window submitted (some t) =
    leb (wall_clock submitted - ten_minutes_ms) t && leb t (wall_clock submitted + ten_minutes_ms)

-- Everything that is asked of an order, its texts trimmed.
unfoldable pub is_candidate : MatchRequest → ℕ → BrokerOrder → Bool
unfolding trim normalize parse_kst_timestamp wall_clock
is_candidate q submitted o =
    let date = trim (get_or o.order_date "") in
    let time = trim (get_or o.order_time "") in
    not (is_empty (trim o.order_no))
    && not (is_empty date)
    && not (is_empty time)
    && in_window submitted (parse_kst_timestamp date time)
    && not (is_empty (order_exchange o q.market))
    && str_eq (order_exchange o q.market) (expected_exchange q q.market)
    && str_eq (normalize o.stock_code) (normalize q.stock_code)
    && side_eq o.side q.side
    && o.order_quantity == q.quantity

unfoldable pub candidate_of : MatchRequest → BrokerOrder → Candidate
unfolding trim normalize
candidate_of q o = record {
  order_no = trim o.order_no;
  stock_code = normalize o.stock_code;
  side = o.side;
  order_quantity = o.order_quantity;
  filled_quantity = o.filled_quantity;
  remaining_quantity = o.remaining_quantity;
  order_price = o.order_price;
  filled_price = o.filled_price;
  exchange_code = order_exchange o q.market;
  order_date = trim (get_or o.order_date "");
  order_time = trim (get_or o.order_time "");
  rejection_state = get_or o.rejection_state unclear;
  existing_trade_record_id = none;
  collision_type = none;
}

-- The texts that are joined to the key of the map; a date has eight digits and all exchanges are the
-- expected one, so that joined keys are equal exactly if their parts are.
abbrev pub same_identity : Candidate → Candidate → Bool
same_identity a b =
    str_eq a.order_date b.order_date
    && str_eq a.exchange_code b.exchange_code
    && str_eq a.order_no b.order_no

unfoldable pub collect_candidates :
    MatchRequest → ℕ → List Candidate → List BrokerOrder → List Candidate
unfolding is_candidate candidate_of
collect_candidates q submitted found [] = found
collect_candidates q submitted found (o ∷ os) =
    collect_candidates q submitted
      (if is_candidate q submitted o
        then add_first same_identity found (candidate_of q o)
        else found)
      os

abbrev pub is_context_of : Broker → Option BrokerEnvironment → Option String → BrokerContext → Bool
is_context_of broker environment none c = false
is_context_of broker environment (some hash) c =
    broker_eq broker c.broker
    && environment_is environment c.environment
    && str_eq hash c.account_hash

abbrev pub has_context : Option BrokerEnvironment → Option String → Bool
has_context none hash = false
has_context (some e) hash = not (is_blank hash)

-- A context that is read now, compared with a stored one; `none` is an exception.
abbrev pub check_context :
    Failure
    → Broker
    → Option BrokerEnvironment
    → Option String
    → Option BrokerContext
    → Answer (Unit {0})
check_context why broker environment hash none = failed context_unreadable
check_context why broker environment hash (some c) =
    if is_context_of broker environment hash c then done tt else failed why

-- `assertCurrentContext` of the matcher.
unfoldable pub assert_current_context : MatchRequest → Option BrokerContext → Answer (Unit {0})
unfolding is_blank
assert_current_context q current =
    if has_context q.broker_environment q.broker_account_hash
    then check_context context_mismatch q.broker q.broker_environment q.broker_account_hash current
    else failed context_required

abbrev pub search_history :
    MatchRequest → Option ℕ → Option (List BrokerOrder) → Answer (List Candidate)
search_history q none history = failed no_submission_time
search_history q (some submitted) none = failed history_failed
search_history q (some submitted) (some orders) = done (collect_candidates q submitted [] orders)

-- `findSubmissionCandidates`, given the context that is current and what the broker's history gives
-- for the days of the window; `none` is an exception.
unfoldable pub find_submission_candidates :
    MatchRequest → Option BrokerContext → Option (List BrokerOrder) → Answer (List Candidate)
unfolding assert_current_context collect_candidates
find_submission_candidates q current history =
    and_then (assert_current_context q current)
      λ _. search_history q q.submission_started_at history
