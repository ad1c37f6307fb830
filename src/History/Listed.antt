-- ===== src/History/Listed.antt =====
-- The unfilled orders that `getUnfilledOrders` lists are orders that can be cancelled: they have a number, a
-- stock and shares left.
use mathlib.Core.Path.{subst}
use kis_trader_back.Common.{
  ◌≡◌, refl, String, true, Option, none, some, List, [], ◌∷◌, ◌++◌, All, Bool-cases, inl, inr, map,
  keep,
}
use kis_trader_back.Common.First.{add_first, All-add_first, add_first-IsUnique, IsUnique}
use kis_trader_back.Model.{Market, domestic, overseas}
use kis_trader_back.Pagination.Kept.{paginate-All}
use kis_trader_back.History.{Json, Row, field, parse_integer}
use kis_trader_back.History.Rows.{is_valid_domestic_unfilled_row, is_valid_overseas_unfilled_row}
use kis_trader_back.Cancellation.{overseas_exchanges}
use kis_trader_back.History.Orders.{
  ListedOrder, is_more_than_none, domestic_unfilled, overseas_unfilled,
}
use kis_trader_back.History.Requests.{
  Api, Account, domestic_unfilled_key, overseas_unfilled_key, fetch_domestic, fetch_overseas,
  domestic_unfilled_request, overseas_unfilled_request, with_exchange,
}
use kis_trader_back.History.Queries.{
  mapped, both, overseas_unfilled_rows, same_listed, collect_unfilled, orders_of,
  get_domestic_unfilled_orders, get_overseas_unfilled_orders, get_unfilled_orders,
}
use kis_trader_back.History.Checks.{fetch_domestic-valid, fetch_overseas-valid}
use kis_trader_back.History.Listable.{
  IsListed, Lists, domestic_unfilled-IsListed, overseas_unfilled-Lists,
}

module _ {Price : Type 0} (price_of : Json → Price) where
  domestic_unfilled-All :
      (rows : List Row)
      → All (λ r. is_valid_domestic_unfilled_row r ≡ true) rows
      → All IsListed (
          map
            (domestic_unfilled price_of)
            (keep (λ row. is_more_than_none (parse_integer (field "psbl_qty" row))) rows))
  domestic_unfilled-All [] a = tt
  domestic_unfilled-All (r ∷ rs) (a, later) =
      elim (Bool-cases (is_more_than_none (parse_integer (field "psbl_qty" r)))) [
        | inl left ↦
            rw left (domestic_unfilled-IsListed price_of r a left, domestic_unfilled-All rs later)
        | inr nothing ↦ rw nothing (domestic_unfilled-All rs later)
      ]

  with_exchange-All :
      (query : String) (rows : List Row)
      → All (λ r. is_valid_overseas_unfilled_row query r ≡ true) rows
      → All (Lists price_of) (map (with_exchange query) rows)
  with_exchange-All query [] a = tt
  with_exchange-All query (r ∷ rs) (a, later) =
      (overseas_unfilled-Lists price_of query r a, with_exchange-All query rs later)

  -- The orders that are collected can be cancelled, and no two have one exchange and number.
  collect_unfilled-All :
      (kept : List (ListedOrder Price)) (rows : List Row)
      → All IsListed kept
      → IsUnique same_listed kept
      → All (Lists price_of) rows
      → All IsListed (collect_unfilled price_of kept rows)
        × IsUnique same_listed (collect_unfilled price_of kept rows)
  unfolding collect_unfilled
  collect_unfilled-All kept [] a u h = (a, u)
  collect_unfilled-All kept (r ∷ rs) a u (h, hs) =
      elim (Bool-cases (is_more_than_none (parse_integer (field "nccs_qty" r)))) [
        | inl left ↦ rw left (
            collect_unfilled-All (add_first same_listed kept (overseas_unfilled price_of r)) rs
              (All-add_first same_listed IsListed kept (overseas_unfilled price_of r) a (h left))
              (add_first-IsUnique same_listed kept (overseas_unfilled price_of r) u) hs)
        | inr nothing ↦ rw nothing (collect_unfilled-All kept rs a u hs)
      ]

  mapped-Lists :
      (e : String) (o : Option (List Row)) (rows : List Row)
      → ((found : List Row)
          → o ≡ some found
          → All (λ r. is_valid_overseas_unfilled_row e r ≡ true) found)
      → mapped (with_exchange e) o ≡ some rows
      → All (Lists price_of) rows
  mapped-Lists e none rows v h = cc
  mapped-Lists e (some found) rows v h =
      subst (All (Lists price_of)) (some_lem h) (with_exchange-All e found (v found refl))
    where
      some_lem : {xs : List Row} → some xs ≡ some rows → xs ≡ rows
      some_lem g = cc

  append-Lists :
      (xs ys : List Row)
      → All (Lists price_of) xs
      → All (Lists price_of) ys
      → All (Lists price_of) (xs ++ ys)
  append-Lists [] ys a b = b
  append-Lists (x ∷ xs) ys (a, later) b = (a, append-Lists xs ys later b)

  both-Lists :
      (o p : Option (List Row)) (rows : List Row)
      → ((xs : List Row) → o ≡ some xs → All (Lists price_of) xs)
      → ((ys : List Row) → p ≡ some ys → All (Lists price_of) ys)
      → both o p ≡ some rows
      → All (Lists price_of) rows
  both-Lists none p rows f g h = cc
  both-Lists (some xs) none rows f g h = cc
  both-Lists (some xs) (some ys) rows f g h =
      subst (All (Lists price_of)) (some_lem h) (append-Lists xs ys (f xs refl) (g ys refl))
    where
      some_lem : {zs : List Row} → some zs ≡ some rows → zs ≡ rows
      some_lem k = cc

  overseas_unfilled_rows-Lists :
      (api : Api) (a : Account) (es : List String) (rows : List Row)
      → overseas_unfilled_rows api a es ≡ some rows
      → All (Lists price_of) rows
  unfolding overseas_unfilled_rows
  overseas_unfilled_rows-Lists api a [] rows h = subst (All (Lists price_of)) (nil_lem h) tt
    where
      nil_lem : ◌≡◌ {A = Option (List Row)} (some []) (some rows) → [] ≡ rows
      nil_lem g = cc
  overseas_unfilled_rows-Lists api a (e ∷ es) rows h =
      both-Lists _ (overseas_unfilled_rows api a es) rows
        (λ xs g.
          mapped-Lists e _ xs
            (paginate-All (overseas_unfilled_key e) (λ r. is_valid_overseas_unfilled_row e r ≡ true)
              (fetch_overseas api (is_valid_overseas_unfilled_row e)
                (overseas_unfilled_request a e))
              (fetch_overseas-valid api (is_valid_overseas_unfilled_row e)
                (overseas_unfilled_request a e)))
            g)
        (overseas_unfilled_rows-Lists api a es) h

  orders_of_done :
      {A : Type 0} (f : List Row → List A) (Q : List A → Type 0) (o : Option (List Row))
      (orders : List A)
      → ((rows : List Row) → o ≡ some rows → Q (f rows))
      → orders_of f o ≡ some orders
      → Q orders
  orders_of_done f Q none orders q h = cc
  orders_of_done {A} f Q (some rows) orders q h = subst Q (some_lem h) (q rows refl)
    where
      some_lem : {xs : List A} → some xs ≡ some orders → xs ≡ orders
      some_lem g = cc

  -- In the list of a market's unfilled orders. Overseas, where several exchanges are asked, none comes
  -- twice.
  abbrev pub AreListed : Market → List (ListedOrder Price) → Type 0
  AreListed domestic orders = All IsListed orders
  AreListed overseas orders = All IsListed orders × IsUnique same_listed orders

  -- Whatever KIS answers, every order that `getUnfilledOrders` lists has a number, a stock and a number of
  -- shares that is more than none; and overseas, where each exchange is asked in turn, no two orders have
  -- the same exchange and number.
  pub get_unfilled_orders-AreListed :
      (api : Api) (a : Account) (m : Market) (orders : List (ListedOrder Price))
      → get_unfilled_orders api a price_of m ≡ some orders
      → AreListed m orders
  unfolding get_unfilled_orders get_domestic_unfilled_orders get_overseas_unfilled_orders
  get_unfilled_orders-AreListed api a domestic orders h =
      orders_of_done _ (All IsListed) _ orders
        (λ rows e. domestic_unfilled-All rows (
          paginate-All domestic_unfilled_key (λ r. is_valid_domestic_unfilled_row r ≡ true)
            (fetch_domestic api "output" is_valid_domestic_unfilled_row
              (domestic_unfilled_request a))
            (fetch_domestic-valid api "output" is_valid_domestic_unfilled_row
              (domestic_unfilled_request a))
            rows e))
        h
  get_unfilled_orders-AreListed api a overseas orders h =
      orders_of_done _ (λ os. All IsListed os × IsUnique same_listed os) _ orders
        (λ rows e.
          collect_unfilled-All [] rows tt tt
            (overseas_unfilled_rows-Lists api a overseas_exchanges rows e))
        h
