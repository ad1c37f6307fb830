-- ===== src/Reconcile/Fill.antt =====
-- The numbers and the status that follow from the broker's report of an order.
use kis_trader_back.Common.{
  ℕ, ◌+◌, ◌-◌, String, Option, none, some, if◌then◌else◌, ltb, leb, ◌==◌, is_some, get_or, or_else,
  is_empty, min, max,
}
use text.Mathlib.Text.{find?}
use Prim.Native.String
use kis_trader_back.Model.{
  TradeRecord, BrokerOrder, OrderStatus, pending, filled, partial, failed, is_buy,
}

-- `getBrokerOrderStatus`.
unfoldable pub get_broker_order_status : ℕ → ℕ → BrokerOrder → OrderStatus
get_broker_order_status requested executed o =
    if o.rejected
    then failed
    else if executed == 0
    then pending
    else if leb requested executed
    then filled
    else partial

-- The cumulative fill: never below what the record has, never above what it asks for.
abbrev pub total_executed : TradeRecord → BrokerOrder → ℕ
total_executed r o = max (get_or r.executed_qty 0) (min r.quantity o.filled_quantity)

-- `resolveExecutedPrice`: the price of a stale report is not taken.
unfoldable pub resolve_executed_price : TradeRecord → BrokerOrder → ℕ → ℕ
resolve_executed_price r o previous =
    if ltb o.filled_quantity previous
    then get_or r.executed_price r.price
    else get_or (or_else o.filled_price r.executed_price) r.price

-- The shares held before a fill, from those held now.
abbrev pub quantity_before_fill : TradeRecord → ℕ → ℕ → ℕ
quantity_before_fill r held filled_now =
    if is_buy r.side then held - filled_now else held + filled_now

abbrev append_reason : String → String → String
append_reason old new = String.◌++◌ old (String.◌++◌ " | " new)

-- A reason is appended to a reason that is there and not empty.
unfoldable pub extend_reason : Option String → String → String
extend_reason none new = new
extend_reason (some old) new = if is_empty old then new else append_reason old new

-- `buildBrokerOrderReason`, given the text of the broker's details; a detail is written once. No result
-- is `undefined`, with which the update leaves the column alone.
unfoldable pub build_broker_order_reason : Option String → Option String → Option String
build_broker_order_reason none details = details
build_broker_order_reason (some old) none = if is_empty old then none else some old
build_broker_order_reason (some old) (some details) =
    if is_empty old
    then some details
    else if is_some (find? old details)
    then some old
    else some (append_reason old details)
