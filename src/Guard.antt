-- ===== src/Guard.antt =====
-- src/trading/trading-order-guard.service.ts: the admission of an order, and the first part of `execute` of
-- src/trading/trading-order-execution.service.ts, which asks for it and creates the record. The advisory
-- lock makes the search and the creation one step.
pub mod Exclusive
use kis_trader_back.Common.{
  ℕ, String, Bool, true, false, ◌&&◌, ◌||◌, not, Option, none, some, List, [], ◌∷◌, if◌then◌else◌,
  str_eq, leb, ◌==◌, is_some, normalize, any, every, get_or,
}
use kis_trader_back.Model.{
  TradeRecord, Signal, Broker, broker_eq, Market, domestic, overseas, market_eq, Side, side_eq,
  BrokerContext, awaiting_approval, submitting, submission_unknown, pending, partial, status_eq,
}
use kis_trader_back.Env.{Env}
use kis_trader_back.Execution.{get_order_type}
use kis_trader_back.Dates.{codes, is_digit}

pub record Key : Type 0 where
  pub broker : Broker
  pub market : Market
  pub exchange_code : String
  pub stock_code : String
  pub side : Side

-- `[A-Z0-9]`, and `[A-Z0-9._-]`.
is_alphanumeric : ℕ → Bool
is_alphanumeric c = (leb b'A' c && leb c b'Z') || is_digit c

is_component_code : ℕ → Bool
unfolding is_alphanumeric
is_component_code c = is_alphanumeric c || c == b'.' || c == b'_' || c == b'-'

is_component : List ℕ → Bool
unfolding is_component_code
is_component [] = false
is_component (c ∷ cs) = is_alphanumeric c && every is_component_code cs

-- `none` is the exception of an invalid key.
unfoldable pub normalize_component : String → Option String
unfolding is_component codes normalize
normalize_component value =
    let normalized = normalize value in
    if is_component (codes normalized) then some normalized else none

exchange_of : Market → String → String
exchange_of domestic configured = "KRX"
exchange_of overseas configured = configured

unfoldable pub normalize_key : Key → Option Key
unfolding normalize_component exchange_of
normalize_key k = elim (normalize_component k.exchange_code) [
  | none ↦ none
  | some exchange ↦ elim (normalize_component k.stock_code) [
    | none ↦ none
    | some stock ↦
        some (record k { exchange_code = exchange_of k.market exchange; stock_code = stock })
  ]
]

-- `UNRESOLVED_ORDER_STATUSES`, or PARTIAL with an order number.
abbrev pub is_unresolved : TradeRecord → Bool
is_unresolved r =
    status_eq r.status awaiting_approval
    || status_eq r.status submitting
    || status_eq r.status submission_unknown
    || status_eq r.status pending
    || (status_eq r.status partial && is_some r.order_no)

abbrev pub has_key : Key → TradeRecord → Bool
has_key k r =
    broker_eq r.broker k.broker
    && market_eq r.market k.market
    && str_eq r.exchange_code k.exchange_code
    && str_eq r.stock_code k.stock_code
    && side_eq r.side k.side

abbrev pub blocks : Key → TradeRecord → Bool
blocks k r = has_key k r && is_unresolved r

pub data Admission : Type 0 where
  invalid busy : Admission
  created : TradeRecord → Admission

-- The transaction on the table of trade records.
unfoldable pub admit_normalized :
    Option Key → (Key → TradeRecord) → List TradeRecord → Admission × List TradeRecord
admit_normalized none create rows = (invalid, rows)
admit_normalized (some k) create rows =
    if any (blocks k) rows then (busy, rows) else (created (create k), create k ∷ rows)

unfoldable pub admit : Key → (Key → TradeRecord) → List TradeRecord → Admission × List TradeRecord
unfolding admit_normalized normalize_key
admit k create rows = admit_normalized (normalize_key k) create rows

abbrev pub key_of : Broker → Signal → Key
key_of broker s = record {
  broker = broker;
  market = s.market;
  exchange_code = s.exchange_code;
  stock_code = s.stock_code;
  side = s.side;
}

abbrev pub canonical_signal : Signal → Key → Signal
canonical_signal s k = record s {
  broker = some k.broker;
  market = k.market;
  exchange_code = k.exchange_code;
  stock_code = k.stock_code;
  side = k.side;
}

-- The record that `execute` creates, given its generated id and creation time.
abbrev pub new_record : Signal → String → BrokerContext → String → ℕ → Key → TradeRecord
new_record s strategy_name context id created_at k = record {
  id = id;
  broker = k.broker;
  market = k.market;
  exchange_code = k.exchange_code;
  stock_code = k.stock_code;
  stock_name = k.stock_code;
  side = k.side;
  order_type = get_order_type (canonical_signal s k);
  quantity = s.quantity;
  price = get_or s.price 0;
  executed_price = none;
  executed_qty = none;
  executed_at = none;
  order_no = none;
  status = submitting;
  strategy_name = some strategy_name;
  reason = some s.reason;
  submission_started_at = none;
  broker_order_date = none;
  broker_order_time = none;
  broker_environment = some context.environment;
  broker_account_hash = some context.account_hash;
  broker_message = none;
  submission_resolved_at = none;
  submission_resolved_by = none;
  submission_resolution = none;
  cancellation_status = none;
  cancellation_started_at = none;
  cancellation_resolved_at = none;
  cancellation_resolved_by = none;
  cancellation_message = none;
  created_at = created_at;
}

-- `execute` up to the admission: it returns false, or throws, or goes on with a record.
pub data Start : Type 0 where
  declined failed : Start
  began : TradeRecord → Start

abbrev pub start_of : Admission → Start
start_of invalid = failed
start_of busy = declined
start_of (created r) = began r

unfoldable pub start_in_context :
    Signal
    → String
    → String
    → ℕ
    → Broker
    → Option BrokerContext
    → List TradeRecord
    → Start × List TradeRecord
unfolding admit
start_in_context s strategy_name id created_at broker none rows = (failed, rows)
start_in_context s strategy_name id created_at broker (some context) rows =
    if not (broker_eq context.broker broker)
    then (declined, rows)
    else (let (admission, rows') =
          admit (key_of broker s) (new_record s strategy_name context id created_at) rows in
        (start_of admission, rows'))

unfoldable pub start_at_broker :
    Env → Signal → String → String → ℕ → Option Broker → List TradeRecord → Start × List TradeRecord
start_at_broker env s strategy_name id created_at none rows = (declined, rows)
start_at_broker env s strategy_name id created_at (some broker) rows =
    if env.active 0
    then start_in_context s strategy_name id created_at broker (env.context 0 broker) rows
    else (declined, rows)

unfoldable pub start_order :
    Env → Signal → String → String → ℕ → List TradeRecord → Start × List TradeRecord
start_order env s strategy_name id created_at rows =
    if env.live 0
    then start_at_broker env s strategy_name id created_at s.broker rows
    else (declined, rows)
