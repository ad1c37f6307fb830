-- ===== src/Dates.antt =====
-- `isValidBrokerOrderDate` of src/trading/trading-order-cancellation.service.ts: eight digits that name a
-- day of the calendar. `Date.UTC` reads a year below 100 as one of the twentieth century, so that such a
-- year is never found again and the date is refused.
pub mod Kst
use Prim.Native.Char.{code}
use kis_trader_back.Common.{
  ℕ, ◌+◌, ◌-◌, ◌*◌, ◌%◌, ◌≡◌, refl, String, Bool, true, false, ◌&&◌, ◌||◌, not, Option, none, some,
  List, [], ◌∷◌, if◌then◌else◌, leb, ◌==◌,
}

unfoldable pub codes : String → List ℕ
codes String.[] = []
codes (String.◌∷◌ c s) = code c ∷ codes s

unfoldable pub is_digit : ℕ → Bool
is_digit c = leb b'0' c && leb c b'9'

abbrev pub number : ℕ → ℕ → ℕ
number a b = (a - b'0') * 10 + (b - b'0')

unfoldable pub is_leap_year : ℕ → Bool
is_leap_year y = y % 4 == 0 && (not (y % 100 == 0) || y % 400 == 0)

unfoldable pub days_in_month : ℕ → ℕ → ℕ
unfolding is_leap_year
days_in_month y m =
    if m == 2
    then (if is_leap_year y then 29 else 28)
    else if m == 4 || m == 6 || m == 9 || m == 11
    then 30
    else 31

unfoldable pub is_calendar_day : ℕ → ℕ → ℕ → Bool
unfolding days_in_month
is_calendar_day y m d = leb 100 y && leb 1 m && leb m 12 && leb 1 d && leb d (days_in_month y m)

unfoldable pub is_date : List ℕ → Bool
unfolding is_digit is_calendar_day
is_date (ya ∷ yb ∷ yc ∷ yd ∷ ma ∷ mb ∷ da ∷ db ∷ []) =
    (is_digit ya && is_digit yb && is_digit yc && is_digit yd)
    && (is_digit ma && is_digit mb && is_digit da && is_digit db)
    && is_calendar_day (number ya yb * 100 + number yc yd) (number ma mb) (number da db)
is_date _ = false

unfoldable pub is_valid_broker_order_date : Option String → Bool
unfolding codes is_date
is_valid_broker_order_date none = false
is_valid_broker_order_date (some s) = is_date (codes s)

leap_day : is_valid_broker_order_date (some "20240229") ≡ true
unfolding is_valid_broker_order_date
leap_day = refl

no_leap_day : is_valid_broker_order_date (some "20260229") ≡ false
unfolding is_valid_broker_order_date
no_leap_day = refl
