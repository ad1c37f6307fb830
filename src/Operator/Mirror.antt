-- ===== src/Operator/Mirror.antt =====
-- `mirrorResolutionBestEffort` of src/trading/trading-broker-order-resolution.service.ts: after a resolution
-- the watched stock's log gets an entry, if the stock is watched and the database takes it. The text of the
-- message is the action's.
use kis_trader_back.Common.{
  String, Bool, ◌&&◌, Option, none, some, List, ◌∷◌, if◌then◌else◌, str_eq, normalize, trim,
  or_else, find_first,
}
use kis_trader_back.Model.{TradeRecord, Broker, broker_eq, Market, market_eq, Action}
use kis_trader_back.Db.{World}
use kis_trader_back.Matcher.{Answer, failed, done, Candidate}

pub record WatchedStock : Type 0 where
  pub id : String
  pub broker : Broker
  pub market : Market
  pub exchange_code : String
  pub stock_code : String
  pub strategy_name : Option String

pub record MirrorDetails : Type 0 where
  pub broker_order_date : String
  pub exchange_code : String
  pub order_no : String
  pub existing_trade_record_id : Option String

pub record MirrorLog : Type 0 where
  pub watch_stock_id : String
  pub trade_record_id : String
  pub market : Market
  pub exchange_code : String
  pub stock_code : String
  pub stock_name : String
  pub strategy_name : Option String
  pub action : Action
  pub details : Option MirrorDetails

-- The watched stocks, and whether the log takes an entry.
pub record Watch : Type 0 where
  pub stocks : List WatchedStock
  pub is_writable : Bool

unfoldable pub details_of : Option Candidate → Option String → Option MirrorDetails
unfolding normalize trim
details_of none existing = none
details_of (some c) existing = some (record {
  broker_order_date = c.order_date;
  exchange_code = normalize c.exchange_code;
  order_no = trim c.order_no;
  existing_trade_record_id = existing;
})

abbrev watches : TradeRecord → WatchedStock → Bool
watches r w =
    broker_eq w.broker r.broker
    && market_eq w.market r.market
    && str_eq w.exchange_code r.exchange_code
    && str_eq w.stock_code r.stock_code

unfoldable pub log_of :
    TradeRecord → Action → Option Candidate → Option String → WatchedStock → MirrorLog
unfolding details_of
log_of r action c existing w = record {
  watch_stock_id = w.id;
  trade_record_id = r.id;
  market = r.market;
  exchange_code = r.exchange_code;
  stock_code = r.stock_code;
  stock_name = r.stock_name;
  strategy_name = or_else w.strategy_name r.strategy_name;
  action = action;
  details = details_of c existing;
}

-- What the log becomes; an exception is caught.
unfoldable pub mirror_resolution_best_effort :
    Watch
    → TradeRecord
    → Action
    → Option Candidate
    → Option String
    → List MirrorLog
    → List MirrorLog
unfolding log_of
mirror_resolution_best_effort watch r action c existing logs =
    elim (find_first (watches r) watch.stocks) [
      | none ↦ logs
      | some w ↦ if watch.is_writable then log_of r action c existing w ∷ logs else logs
    ]

-- An operation writes no entry unless it succeeded.
unfoldable pub mirrored :
    Watch
    → TradeRecord
    → Action
    → Option Candidate
    → Option String
    → Answer World
    → List MirrorLog
    → List MirrorLog
unfolding mirror_resolution_best_effort
mirrored watch r action c existing (failed why) logs = logs
mirrored watch r action c existing (done w) logs =
    mirror_resolution_best_effort watch r action c existing logs
