-- ===== src/History/Queries.antt =====
-- `getUnfilledOrders` and `getOrderExecutions` of src/kis/kis-order-history.service.ts: the requests, and the
-- orders of their rows.
use kis_trader_back.Common.{
  String, Bool, Option, none, some, List, [], ◌∷◌, ◌++◌, map, keep, if◌then◌else◌, str_eq,
}
use kis_trader_back.Common.First.{add_first}
use kis_trader_back.Model.{Market, domestic, overseas}
use kis_trader_back.Pagination.{paginate}
use kis_trader_back.History.{
  Json, text, Row, field, parse_integer, is_nonempty_row, is_valid_kis_calendar_date,
}
use kis_trader_back.History.Rows.{
  is_valid_domestic_execution_row, is_valid_overseas_execution_row, is_valid_domestic_unfilled_row,
  is_valid_overseas_unfilled_row,
}
use kis_trader_back.Cancellation.{overseas_exchanges}
use kis_trader_back.History.Orders.{
  Sign, ReportedOrder, ListedOrder, domestic_execution, overseas_execution, domestic_unfilled,
  overseas_unfilled, is_more_than_none,
}
use kis_trader_back.History.Requests.{
  joined, Account, Api, day_before, domestic_execution_key, domestic_execution_request,
  domestic_unfilled_key, domestic_unfilled_request, fetch_domestic, fetch_overseas,
  overseas_execution_key, overseas_execution_request, overseas_unfilled_key,
  overseas_unfilled_request, with_exchange,
}

abbrev pub mapped : {A : Type 0} → (A → A) → Option (List A) → Option (List A)
mapped f none = none
mapped f (some xs) = some (map f xs)

abbrev pub both : {A : Type 0} → Option (List A) → Option (List A) → Option (List A)
both (some xs) (some ys) = some (xs ++ ys)
both _ _ = none

abbrev pub orders_of : {A : Type 0} → (List Row → List A) → Option (List Row) → Option (List A)
orders_of f none = none
orders_of f (some rows) = some (f rows)

module _ {Price : Type 0} where
  -- The `Map` keeps the first order of an exchange and number.
  unfoldable pub same_listed : ListedOrder Price → ListedOrder Price → Bool
  same_listed x y = str_eq (identity x) (identity y)
    where
      identity : ListedOrder Price → String
      identity o = elim o.exchange_code [ none ↦ o.order_no | some e ↦ joined e o.order_no ]

module _ {Price : Type 0} (price_of : Json → Price) where
  unfoldable pub collect_unfilled : List (ListedOrder Price) → List Row → List (ListedOrder Price)
  unfolding parse_integer field overseas_unfilled same_listed
  collect_unfilled kept [] = kept
  collect_unfilled kept (row ∷ rows) =
      collect_unfilled
        (if is_more_than_none (parse_integer (field "nccs_qty" row))
          then add_first same_listed kept (overseas_unfilled price_of row)
          else kept)
        rows

module _ (api : Api) (a : Account) where
  -- The rows of the exchanges in turn, each with its exchange.
  unfoldable pub overseas_unfilled_rows : List String → Option (List Row)
  unfolding paginate overseas_unfilled_key fetch_overseas overseas_unfilled_request
      is_valid_overseas_unfilled_row with_exchange
  overseas_unfilled_rows [] = some []
  overseas_unfilled_rows (e ∷ es) =
      let rest = overseas_unfilled_rows es in
      both
        (mapped (with_exchange e) (
          paginate (overseas_unfilled_key e) (
            fetch_overseas api (is_valid_overseas_unfilled_row e) (overseas_unfilled_request a e))))
        rest

  module _ {Price : Type 0} (price_of : Json → Price) where
    unfoldable pub get_overseas_unfilled_orders : Option (List (ListedOrder Price))
    unfolding overseas_unfilled_rows collect_unfilled
    get_overseas_unfilled_orders =
        orders_of (collect_unfilled price_of []) (overseas_unfilled_rows overseas_exchanges)

    unfoldable pub get_domestic_unfilled_orders : Option (List (ListedOrder Price))
    unfolding paginate domestic_unfilled_key fetch_domestic domestic_unfilled_request
        is_valid_domestic_unfilled_row domestic_unfilled parse_integer field
    get_domestic_unfilled_orders =
        orders_of
          (λ rows.
            map (domestic_unfilled price_of)
              (keep (λ row. is_more_than_none (parse_integer (field "psbl_qty" row))) rows))
          (paginate domestic_unfilled_key (
            fetch_domestic api "output" is_valid_domestic_unfilled_row
              (domestic_unfilled_request a)))

    unfoldable pub get_unfilled_orders : Market → Option (List (ListedOrder Price))
    unfolding get_domestic_unfilled_orders get_overseas_unfilled_orders
    get_unfilled_orders domestic = get_domestic_unfilled_orders
    get_unfilled_orders overseas = get_overseas_unfilled_orders

    unfoldable pub get_domestic_order_executions :
        (String → Sign) → String → String → Option (List (ReportedOrder Price))
    unfolding paginate domestic_execution_key fetch_domestic domestic_execution_request
        is_valid_domestic_execution_row domestic_execution is_nonempty_row
    get_domestic_order_executions sign_of start until =
        orders_of (λ rows. map (domestic_execution price_of sign_of) (keep is_nonempty_row rows))
          (paginate domestic_execution_key (
            fetch_domestic api "output1" is_valid_domestic_execution_row
              (domestic_execution_request a start until)))

    unfoldable pub overseas_executions_from :
        Option String → String → Option (List (ReportedOrder Price))
    unfolding paginate overseas_execution_key fetch_overseas overseas_execution_request
        is_valid_overseas_execution_row overseas_execution is_nonempty_row
        is_valid_kis_calendar_date
    overseas_executions_from none until = none
    overseas_executions_from (some start) until =
        if is_valid_kis_calendar_date (text until)
        then orders_of (λ rows. map (overseas_execution price_of) (keep is_nonempty_row rows))
            (paginate overseas_execution_key (
              fetch_overseas api is_valid_overseas_execution_row
                (overseas_execution_request a start until)))
        else none

    unfoldable pub get_overseas_order_executions :
        String → String → Option (List (ReportedOrder Price))
    unfolding overseas_executions_from day_before
    get_overseas_order_executions start until = overseas_executions_from (day_before start) until

    unfoldable pub get_order_executions :
        (String → Sign) → Market → String → String → Option (List (ReportedOrder Price))
    unfolding get_domestic_order_executions get_overseas_order_executions
    get_order_executions sign_of domestic start until =
        get_domestic_order_executions sign_of start until
    get_order_executions sign_of overseas start until = get_overseas_order_executions start until
