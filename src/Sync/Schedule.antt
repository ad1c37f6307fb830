-- ===== src/Sync/Schedule.antt =====
-- src/trading/order-sync.service.ts: the records that the synchronization works with, the window of its
-- open orders and the interval between two runs.
use Prim.Native.String
use kis_trader_back.Common.{
  ℕ, ◌-◌, ◌*◌, String, Bool, true, ◌&&◌, ◌||◌, Option, none, some, List, [], ◌∷◌, keep, is_some,
  if◌then◌else◌, leb, length, min, max,
}
use kis_trader_back.Model.{
  Broker, broker_eq, broker_name, Market, domestic, overseas, market_eq, market_name, OrderStatus,
  pending, partial, status_eq, BrokerOrder, UnfilledOrder, BrokerContext, TradeRecord,
}
use kis_trader_back.Reconcile.Strategy.{Links}
use kis_trader_back.Db.{World}
use kis_trader_back.Reconcile.Matching.{Position}
use kis_trader_back.Cash.{CashPort, Settings}
use kis_trader_back.Cash.Settings.{Setting, find_setting}

-- An active broker: what it answers, or `none` for an exception.
pub record Port : Type 0 where
  pub broker : Broker
  pub executions : Market → String → String → Option (List BrokerOrder)
  pub unfilled : Market → Option (List UnfilledOrder)
  pub cash : CashPort

pub record ScopedPosition : Type 0 where
  pub broker : Broker
  pub position : Position

-- `OrderSyncOptions`; an absent flag is `false`.
pub record Options : Type 0 where
  pub force : Bool
  pub broker : Option Broker
  pub fail_on_any_error : Bool

-- `format_kis_date` and `day_before` are those of the machine's time zone. The clock is read at each
-- place that has a number.
pub record Setup : Type 0 where
  pub ports : List Port
  pub is_paper : Bool
  pub context : Broker → Option BrokerContext
  pub details : BrokerOrder → OrderStatus → Option String
  pub links : TradeRecord → Links
  pub format_kis_date : ℕ → String
  pub day_before : ℕ → ℕ
  pub now : Broker → ℕ → ℕ

-- `last_synced_at` is the service's own map.
pub record State : Type 0 where
  pub table : List World
  pub settings : Settings
  pub last_synced_at : List (Setting ℕ)

pub data SyncError : Type 0 where
  no_active_brokers : SyncError
  executions_failed unfilled_failed context_failed : Broker → SyncError

pub data SyncResult (A : Type 0) : Type 0 where
  ok : A → SyncResult A
  thrown : SyncError → SyncResult A

pub record Window : Type 0 where
  pub start_date : String
  pub end_date : String
  pub open_order_count : ℕ
  pub newest_created_at : ℕ

unfoldable pub sync_key : Broker → Market → String
sync_key b m = String.◌++◌ (broker_name b) (String.◌++◌ ":" (market_name m))

-- The `where` of `getOpenOrderWindow`; the broker's context is not asked for.
abbrev pub is_open_at : Broker → Market → World → Bool
is_open_at b m w =
    broker_eq w.row.broker b
    && market_eq w.row.market m
    && (status_eq w.row.status pending || status_eq w.row.status partial)
    && is_some w.row.order_no

unfoldable pub oldest : ℕ → List World → ℕ
oldest t [] = t
oldest t (w ∷ ws) = oldest (min t w.row.created_at) ws

unfoldable pub newest : ℕ → List World → ℕ
newest t [] = t
newest t (w ∷ ws) = newest (max t w.row.created_at) ws

unfoldable pub window_of : Setup → ℕ → List World → Option Window
unfolding oldest newest
window_of e now [] = none
window_of e now (w ∷ ws) = some (record {
  start_date = e.format_kis_date (e.day_before (oldest w.row.created_at ws));
  end_date = e.format_kis_date now;
  open_order_count = length (w ∷ ws);
  newest_created_at = newest w.row.created_at ws;
})

unfoldable pub get_open_order_window : Setup → Broker → Market → List World → Option Window
unfolding window_of
get_open_order_window e b m t = window_of e (e.now b 0) (keep (is_open_at b m) t)

abbrev minute_ms : ℕ
minute_ms = 60000

unfoldable pub get_sync_interval_ms : Market → ℕ → ℕ → ℕ
get_sync_interval_ms domestic age count =
    if leb 3 count || leb age (2 * minute_ms)
    then 10000
    else if leb age (15 * minute_ms)
    then 30000
    else 60000
get_sync_interval_ms overseas age count =
    if leb 3 count || leb age (5 * minute_ms)
    then 15000
    else if leb age (20 * minute_ms)
    then 45000
    else 90000

-- Whether the last run lies far enough back.
unfoldable pub is_due : Market → ℕ → Window → Option ℕ → Bool
unfolding get_sync_interval_ms
is_due m now w none = true
is_due m now w (some last) =
    leb (get_sync_interval_ms m (now - w.newest_created_at) w.open_order_count) (now - last)

unfoldable pub should_sync_now : Setup → Broker → Market → Window → Options → State → Bool
unfolding is_due sync_key find_setting
should_sync_now e b m w o s =
    o.force || is_due m (e.now b 1) w (find_setting (sync_key b m) s.last_synced_at)
