-- ===== src/Reconcile/Matching.antt =====
-- Which of the broker's orders is the order of a trade record.
use kis_trader_back.Common.{
  ℕ, String, Bool, ◌&&◌, ◌||◌, Option, none, some, List, [], ◌∷◌, if◌then◌else◌, str_eq, opt_eq,
  normalize, is_empty, is_none, keep, any, or_else, get_or, min, max,
}
use kis_trader_back.Model.{
  TradeRecord, BrokerOrder, UnfilledOrder, Side, side_eq, Market, domestic, overseas, market_eq,
}

unfoldable pub normalize_exchange_code : Market → Option String → String
unfolding normalize
normalize_exchange_code domestic code =
    let normalized = normalize (get_or code "") in if is_empty normalized then "KRX" else normalized
normalize_exchange_code overseas code = normalize (get_or code "")

-- `matchesOrderTuple`: number, exchange, stock and side.
unfoldable pub matches_order_tuple :
    Market → TradeRecord → String → Option String → String → Side → Bool
unfolding normalize_exchange_code normalize
matches_order_tuple market r order_no exchange_code stock_code side =
    opt_eq r.order_no (some order_no)
    && str_eq (normalize_exchange_code market (some r.exchange_code))
        (normalize_exchange_code market exchange_code)
    && str_eq (normalize r.stock_code) (normalize stock_code)
    && side_eq r.side side

unfoldable pub is_order_of : Market → TradeRecord → BrokerOrder → Bool
unfolding matches_order_tuple
is_order_of market r o =
    matches_order_tuple market r o.order_no o.exchange_code o.stock_code o.side
    && (is_none r.broker_order_date || opt_eq o.order_date r.broker_order_date)

-- `a || b` on optional texts: an empty text counts as none.
abbrev text_or : Option String → Option String → Option String
text_or none t = t
text_or (some s) t = if is_empty s then t else some s

-- Two reports of one order: the larger fill, the smaller remainder, the later details.
unfoldable pub merge_reports : BrokerOrder → BrokerOrder → BrokerOrder
merge_reports existing o = record existing {
  filled_quantity = max existing.filled_quantity o.filled_quantity;
  remaining_quantity = min existing.remaining_quantity o.remaining_quantity;
  filled_price = or_else o.filled_price existing.filled_price;
  rejected = existing.rejected || o.rejected;
  rejected_reason = text_or o.rejected_reason existing.rejected_reason;
  order_time = text_or o.order_time existing.order_time;
}

unfoldable pub merge_all : BrokerOrder → List BrokerOrder → BrokerOrder
unfolding merge_reports
merge_all existing [] = existing
merge_all existing (o ∷ rest) = merge_all (merge_reports existing o) rest

merge_matches : List BrokerOrder → Option BrokerOrder
unfolding merge_all
merge_matches [] = none
merge_matches (o ∷ rest) = some (merge_all o rest)

unfoldable pub find_matching_broker_order :
    TradeRecord → List BrokerOrder → Market → Option BrokerOrder
unfolding merge_matches is_order_of
find_matching_broker_order r orders market = merge_matches (keep (is_order_of market r) orders)

-- The broker still lists the order as unfilled.
unfoldable pub is_still_open : Market → TradeRecord → List UnfilledOrder → Bool
unfolding matches_order_tuple
is_still_open market r orders =
    any (λ o. matches_order_tuple market r o.order_no o.exchange_code o.stock_code o.side) orders

pub record Position : Type 0 where
  pub market : Market
  pub exchange_code : String
  pub stock_code : String
  pub quantity : ℕ

-- The shares under a record's key in the map of positions, where a later entry replaces an earlier one.
unfoldable pub position_quantity : TradeRecord → List Position → ℕ → ℕ
position_quantity r [] found = found
position_quantity r (p ∷ ps) found =
    let exchange =
      if is_empty r.exchange_code
      then (if market_eq domestic r.market then "KRX" else "")
      else r.exchange_code in
    position_quantity r ps (
      if market_eq p.market r.market
        && str_eq p.exchange_code exchange
        && str_eq p.stock_code r.stock_code
      then p.quantity
      else found)
