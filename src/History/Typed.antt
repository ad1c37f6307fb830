-- ===== src/History/Typed.antt =====
-- The orders that `getOrderExecutions` reports have the types and bounds that the rest of the program
-- relies on, whatever the rows hold.
use mathlib.Core.Path.{subst}
use kis_trader_back.Common.{
  ◌≡◌, refl, String, Bool, true, Option, none, some, List, [], ◌∷◌, All, Bool-cases, inl, inr, map,
  keep,
}
use kis_trader_back.Model.{Market, domestic, overseas}
use kis_trader_back.Pagination.Kept.{paginate-All}
use kis_trader_back.History.{Json, text, Row, is_nonempty_row, is_valid_kis_calendar_date}
use kis_trader_back.History.Rows.{is_valid_domestic_execution_row, is_valid_overseas_execution_row}
use kis_trader_back.History.Orders.{Sign, ReportedOrder, domestic_execution, overseas_execution}
use kis_trader_back.History.Requests.{
  Api, Account, domestic_execution_key, overseas_execution_key, fetch_domestic, fetch_overseas,
  domestic_execution_request, overseas_execution_request, day_before,
}
use kis_trader_back.History.Queries.{
  orders_of, get_domestic_order_executions, overseas_executions_from, get_overseas_order_executions,
  get_order_executions,
}
use kis_trader_back.History.Checks.{fetch_domestic-valid, fetch_overseas-valid}
use kis_trader_back.History.Reported.{
  IsReported, domestic_execution-IsReported, overseas_execution-IsReported,
}

module _ {Price : Type 0} (price_of : Json → Price) where
  mapped-All :
      {A : Type 0} (valid : Row → Bool) (f : Row → A) (Q : A → Type 0)
      → ((r : Row) → valid r ≡ true → is_nonempty_row r ≡ true → Q (f r))
      → (rows : List Row) → All (λ r. valid r ≡ true) rows
      → All Q (map f (keep is_nonempty_row rows))
  mapped-All valid f Q h [] a = tt
  mapped-All valid f Q h (r ∷ rs) (a, later) = elim (Bool-cases (is_nonempty_row r)) [
    | inl filled ↦ rw filled (h r a filled, mapped-All valid f Q h rs later)
    | inr empty ↦ rw empty (mapped-All valid f Q h rs later)
  ]

  orders_of-All :
      {A : Type 0} (valid : Row → Bool) (f : Row → A) (Q : A → Type 0)
      → ((r : Row) → valid r ≡ true → is_nonempty_row r ≡ true → Q (f r))
      → (o : Option (List Row)) (orders : List A)
      → ((rows : List Row) → o ≡ some rows → All (λ r. valid r ≡ true) rows)
      → orders_of (λ rows. map f (keep is_nonempty_row rows)) o ≡ some orders
      → All Q orders
  orders_of-All valid f Q h none orders a e = cc
  orders_of-All {A} valid f Q h (some rows) orders a e =
      subst (All Q) (some_lem e) (mapped-All valid f Q h rows (a rows refl))
    where
      some_lem : {xs : List A} → some xs ≡ some orders → xs ≡ orders
      some_lem g = cc

  overseas_executions_from-IsReported :
      (api : Api) (a : Account) (start : Option String) (until : String)
      (orders : List (ReportedOrder Price))
      → overseas_executions_from api a price_of start until ≡ some orders
      → All (IsReported overseas) orders
  unfolding overseas_executions_from
  overseas_executions_from-IsReported api a none until orders h = cc
  overseas_executions_from-IsReported api a (some start) until orders h =
      elim (Bool-cases (is_valid_kis_calendar_date (text until))) [
        | inl valid ↦
            orders_of-All is_valid_overseas_execution_row (overseas_execution price_of)
              (IsReported overseas) (overseas_execution-IsReported price_of) _ orders
              (paginate-All overseas_execution_key (λ r. is_valid_overseas_execution_row r ≡ true)
                (fetch_overseas api is_valid_overseas_execution_row
                  (overseas_execution_request a start until))
                (fetch_overseas-valid api is_valid_overseas_execution_row
                  (overseas_execution_request a start until)))
              (rw valid at h)
        | inr bad ↦ absurd_lem (rw bad at h)
      ]
    where
      absurd_lem : none ≡ some orders → All (IsReported overseas) orders
      absurd_lem g = cc

  -- Whatever KIS answers, every order that `getOrderExecutions` reports has a number and a stock, of its
  -- quantities the ordered one is a number of shares and more than none, the executed one is no more, and
  -- the executed and the remaining one together are no more; its date and its time are texts that name a
  -- time of Korea, its exchange is a text that names an exchange of the market, and it is marked as
  -- rejected, as not rejected, or not at all, just as its rejection state says.
  pub get_order_executions-IsReported :
      (api : Api) (a : Account) (sign_of : String → Sign) (m : Market) (start until : String)
      (orders : List (ReportedOrder Price))
      → get_order_executions api a price_of sign_of m start until ≡ some orders
      → All (IsReported m) orders
  unfolding get_order_executions get_domestic_order_executions get_overseas_order_executions
  get_order_executions-IsReported api a sign_of domestic start until orders h =
      orders_of-All is_valid_domestic_execution_row (domestic_execution price_of sign_of)
        (IsReported domestic) (domestic_execution-IsReported price_of sign_of) _ orders
        (paginate-All domestic_execution_key (λ r. is_valid_domestic_execution_row r ≡ true)
          (fetch_domestic api "output1" is_valid_domestic_execution_row
            (domestic_execution_request a start until))
          (fetch_domestic-valid api "output1" is_valid_domestic_execution_row
            (domestic_execution_request a start until)))
        h
  get_order_executions-IsReported api a sign_of overseas start until orders h =
      overseas_executions_from-IsReported api a (day_before start) until orders h
