-- ===== src/Sync/Unfilled.antt =====
-- `getMarketUnfilledOrders` of src/trading/order-sync.service.ts: the unfilled orders of a market,
-- with their brokers.
pub mod Listed
use kis_trader_back.Common.{
  Bool, true, false, ◌&&◌, Option, none, some, List, [], ◌∷◌, ◌++◌, map, if◌then◌else◌,
}
use kis_trader_back.Model.{Broker, Market, BrokerOrder, UnfilledOrder}
use kis_trader_back.Db.{World}
use kis_trader_back.Sync.Schedule.{
  Port, Setup, SyncResult, ok, thrown, Window, executions_failed, unfilled_failed,
  get_open_order_window,
}
use kis_trader_back.Sync.{map_unfilled_orders, wanted_ports, propagates}

pub record ScopedUnfilledOrder : Type 0 where
  pub broker : Broker
  pub order : UnfilledOrder

abbrev pub scoped : Port → List UnfilledOrder → List ScopedUnfilledOrder
scoped p orders = map (λ o. record { broker = p.broker; order = o }) orders

abbrev pub scoped_or_thrown :
    Port → Option (List UnfilledOrder) → SyncResult (List ScopedUnfilledOrder)
scoped_or_thrown p none = thrown (unfilled_failed p.broker)
scoped_or_thrown p (some orders) = ok (scoped p orders)

abbrev pub listing_of :
    Setup → Port → Market → Option (List BrokerOrder) → SyncResult (List ScopedUnfilledOrder)
listing_of e p m none = thrown (executions_failed p.broker)
listing_of e p m (some orders) = scoped_or_thrown p (map_unfilled_orders e p m orders)

-- A broker without open orders in the table is passed over.
abbrev pub listing_in :
    Setup → Port → Market → Option Window → SyncResult (List ScopedUnfilledOrder)
listing_in e p m none = ok []
listing_in e p m (some w) = listing_of e p m (p.executions m w.start_date w.end_date)

unfoldable pub list_port :
    Setup → Market → List World → Port → SyncResult (List ScopedUnfilledOrder)
unfolding get_open_order_window map_unfilled_orders
list_port e m t p = listing_in e p m (get_open_order_window e p.broker m t)

-- What a broker's turn makes of the rest of the loop.
abbrev pub after_listing :
    Bool
    → List ScopedUnfilledOrder
    → SyncResult (List ScopedUnfilledOrder)
    → (List ScopedUnfilledOrder → SyncResult (List ScopedUnfilledOrder))
    → SyncResult (List ScopedUnfilledOrder)
after_listing propagate found (ok orders) rest = rest (found ++ orders)
after_listing propagate found (thrown f) rest = if propagate then thrown f else rest found

unfoldable pub list_ports :
    Setup
    → Market
    → List World
    → Bool
    → List Port
    → List ScopedUnfilledOrder
    → SyncResult (List ScopedUnfilledOrder)
unfolding list_port
list_ports e m t propagate [] found = ok found
list_ports e m t propagate (p ∷ ps) found =
    after_listing propagate found (list_port e m t p) (list_ports e m t propagate ps)

unfoldable pub get_market_unfilled_orders :
    Setup → Market → Option Broker → List World → SyncResult (List ScopedUnfilledOrder)
unfolding wanted_ports list_ports
get_market_unfilled_orders e m b t =
    let ports = wanted_ports e b in list_ports e m t (propagates b ports) ports []
