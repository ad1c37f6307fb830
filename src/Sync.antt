-- ===== src/Sync.antt =====
-- src/trading/order-sync.service.ts: when the open orders of a broker's market are brought in line
-- with the broker, and what a failing broker does to the others. The reconciliation and the refresh
-- of cash that follow are those of `Reconcile` and `Cash`.
pub mod Schedule
pub mod Interval
pub mod Brokers
pub mod Unfilled
use Prim.Native.String
use kis_trader_back.Common.{
  ℕ, ◌-◌, ◌*◌, String, Bool, true, false, ◌&&◌, ◌||◌, not, Option, none, some, List, [], ◌∷◌, ◌++◌,
  map, keep, is_some, if◌then◌else◌, leb, ltb, ◌==◌, length, get_or, min, max,
}
use kis_trader_back.Model.{
  TradeRecord, Broker, kis, broker_eq, broker_name, Market, domestic, overseas, market_eq,
  market_name, is_domestic, OrderStatus, pending, partial, status_eq, BrokerOrder, UnfilledOrder,
  BrokerContext,
}
use kis_trader_back.Db.{World}
use kis_trader_back.Reconcile.Matching.{Position}
use kis_trader_back.Reconcile.Orders.{Sync, reconcile_open_orders}
use kis_trader_back.Cash.{CashPort, Settings, refresh_market_cash}
use kis_trader_back.Cash.Settings.{upsert}
use kis_trader_back.Sync.Schedule.{
  Port, ScopedPosition, Options, Setup, State, SyncError, SyncResult, no_active_brokers,
  executions_failed, unfilled_failed, context_failed, ok, thrown, Window, sync_key,
  get_open_order_window, should_sync_now,
}

abbrev from_execution : BrokerOrder → UnfilledOrder
from_execution o = record {
  order_no = o.order_no;
  stock_code = o.stock_code;
  side = o.side;
  quantity = o.remaining_quantity;
  price = get_or o.order_price 0;
  exchange_code = o.exchange_code;
}

-- On paper, KIS has no list of unfilled overseas orders: the executions with a remainder stand for it.
unfoldable pub map_unfilled_orders :
    Setup → Port → Market → List BrokerOrder → Option (List UnfilledOrder)
map_unfilled_orders e p domestic orders = p.unfilled domestic
map_unfilled_orders e p overseas orders =
    if broker_eq p.broker kis && e.is_paper
    then some (map from_execution (keep (λ o. ltb 0 o.remaining_quantity) orders))
    else p.unfilled overseas

-- The cash of a market after a fill; a failure is only logged.
abbrev pub settings_after : Option Settings → Settings → Settings
settings_after none s = s
settings_after (some s') s = s'

unfoldable pub refresh_after_fill : Setup → Port → Market → Bool → Settings → Settings
unfolding refresh_market_cash
refresh_after_fill e p m has_new_fill s =
    if has_new_fill
    then settings_after
        (refresh_market_cash p.cash p.broker m (e.now p.broker 3) (e.now p.broker 4) s) s
    else s

-- The arguments of `reconcileOpenOrders`, with what it looks up itself.
abbrev pub reconciliation :
    Setup
    → Port
    → Market
    → List ScopedPosition
    → BrokerContext
    → List BrokerOrder
    → List UnfilledOrder
    → Sync
reconciliation e p m positions c orders unfilled = record {
  context = c;
  market = m;
  positions = map (λ x. x.position) (keep (λ x. broker_eq x.broker p.broker) positions);
  unfilled = unfilled;
  orders = orders;
  details = e.details;
  links = e.links;
  now = e.now p.broker 2;
}

unfoldable pub reconcile_market :
    Setup
    → Port
    → Market
    → List ScopedPosition
    → BrokerContext
    → List BrokerOrder
    → List UnfilledOrder
    → State
    → State
unfolding reconcile_open_orders refresh_after_fill sync_key upsert
reconcile_market e p m positions c orders unfilled s =
    let (has_new_fill, table) =
      reconcile_open_orders (reconciliation e p m positions c orders unfilled) s.table in
    record {
      table = table;
      settings = refresh_after_fill e p m has_new_fill s.settings;
      last_synced_at = upsert (sync_key p.broker m) (e.now p.broker 5) s.last_synced_at;
    }

-- `getCurrentContext` inside `reconcileOpenOrders`, which refuses a context of another broker.
unfoldable pub context_for : Setup → Broker → Option BrokerContext
context_for e b = elim (e.context b) [
  | none ↦ none
  | some c ↦ if broker_eq c.broker b then some c else none
]

unfoldable pub in_context :
    Setup
    → Port
    → Market
    → List ScopedPosition
    → List BrokerOrder
    → List UnfilledOrder
    → State
    → Option BrokerContext
    → SyncResult (Unit {0}) × State
unfolding reconcile_market
in_context e p m positions orders unfilled s none = (thrown (context_failed p.broker), s)
in_context e p m positions orders unfilled s (some c) =
    (ok tt, reconcile_market e p m positions c orders unfilled s)

unfoldable pub with_unfilled :
    Setup
    → Port
    → Market
    → List ScopedPosition
    → List BrokerOrder
    → State
    → Option (List UnfilledOrder)
    → SyncResult (Unit {0}) × State
unfolding in_context context_for
with_unfilled e p m positions orders s none = (thrown (unfilled_failed p.broker), s)
with_unfilled e p m positions orders s (some unfilled) =
    in_context e p m positions orders unfilled s (context_for e p.broker)

unfoldable pub with_executions :
    Setup
    → Port
    → Market
    → List ScopedPosition
    → State
    → Option (List BrokerOrder)
    → SyncResult (Unit {0}) × State
unfolding with_unfilled map_unfilled_orders
with_executions e p m positions s none = (thrown (executions_failed p.broker), s)
with_executions e p m positions s (some orders) =
    with_unfilled e p m positions orders s (map_unfilled_orders e p m orders)

unfoldable pub in_window :
    Setup
    → Port
    → Market
    → List ScopedPosition
    → Options
    → State
    → Option Window
    → SyncResult (Unit {0}) × State
unfolding should_sync_now with_executions
in_window e p m positions o s none = (ok tt, s)
in_window e p m positions o s (some w) =
    if should_sync_now e p.broker m w o s
    then with_executions e p m positions s (p.executions m w.start_date w.end_date)
    else (ok tt, s)

unfoldable pub sync_broker_market_orders :
    Setup → Port → Market → List ScopedPosition → Options → State → SyncResult (Unit {0}) × State
unfolding in_window get_open_order_window
sync_broker_market_orders e p m positions o s =
    in_window e p m positions o s (get_open_order_window e p.broker m s.table)

abbrev is_wanted : Option Broker → Port → Bool
is_wanted none p = true
is_wanted (some b) p = broker_eq p.broker b

unfoldable pub wanted_ports : Setup → Option Broker → List Port
wanted_ports e b = keep (is_wanted b) e.ports

abbrev pub propagates : Option Broker → List Port → Bool
propagates b ports = is_some b || length ports == 1

abbrev pub add_error : SyncResult (Unit {0}) → List SyncError → List SyncError
add_error (ok x) errors = errors
add_error (thrown e) errors = errors ++ e ∷ []

abbrev pub is_thrown : SyncResult (Unit {0}) → Bool
is_thrown (ok x) = false
is_thrown (thrown e) = true

abbrev pub first_error : List SyncError → SyncResult (Unit {0})
first_error [] = ok tt
first_error (e ∷ es) = thrown e

-- The loop over the brokers; `errors` are those that were caught so far.
unfoldable pub sync_ports :
    Setup
    → Market
    → List ScopedPosition
    → Options
    → Bool
    → List Port
    → List SyncError
    → State
    → SyncResult (Unit {0}) × State
unfolding sync_broker_market_orders
sync_ports e m positions o propagate [] errors s =
    ((if o.fail_on_any_error then first_error errors else ok tt), s)
sync_ports e m positions o propagate (p ∷ ps) errors s =
    let (r, s') = sync_broker_market_orders e p m positions o s in
    let rest = sync_ports e m positions o propagate ps (add_error r errors) s' in
    if is_thrown r && propagate then (r, s') else rest

unfoldable pub sync_market_orders :
    Setup → Market → List ScopedPosition → Options → State → SyncResult (Unit {0}) × State
unfolding wanted_ports sync_ports
sync_market_orders e m positions o s =
    let ports = wanted_ports e o.broker in
    if o.fail_on_any_error && length ports == 0
    then (thrown no_active_brokers, s)
    else sync_ports e m positions o (propagates o.broker ports) ports [] s
