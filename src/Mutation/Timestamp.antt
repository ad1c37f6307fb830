-- ===== src/Mutation/Timestamp.antt =====
-- The broker's time of an order, `resolveBrokerTimestamp` of src/kis/kis-mutation.error.ts, on the scale of
-- `wall_clock`. `date_of_day` is the calendar of the language's `Date`.
use Prim.Native.String
use kis_trader_back.Common.{
  ℕ, zero, suc, ◌+◌, ◌-◌, ◌*◌, ◌/◌, ◌%◌, ◌≡◌, refl, String, Option, none, some, List, ◌∷◌,
  if◌then◌else◌, trim, leb, ltb, ◌==◌, length,
}
use kis_trader_back.Dates.{codes, number, days_in_month}
use kis_trader_back.Dates.Kst.{
  day_ms, day_number, wall_clock, kst_calendar_day, parse_kst_timestamp, time_of_digits,
}

-- The month and the day of the month, so many days after the first of a month.
unfoldable month_and_day : ℕ → ℕ → ℕ → ℕ → ℕ × ℕ
unfolding days_in_month
month_and_day zero y m d = (m, d + 1)
month_and_day (suc n) y m d =
    let later = month_and_day n y (m + 1) (d - days_in_month y m) in
    if ltb d (days_in_month y m) then (m, d + 1) else later

-- The year of a day; an estimate by the mean length of a year is off by one at most.
unfoldable year_of_day : ℕ → ℕ
unfolding day_number
year_of_day n =
    let y = n * 400 / 146097 + 1 in
    if leb (day_number (y + 1) 1 1) n then y + 1 else if ltb n (day_number y 1 1) then y - 1 else y

unfoldable date_of_day : ℕ → ℕ × ℕ × ℕ
unfolding year_of_day month_and_day day_number
date_of_day n =
    let y = year_of_day n in let (m, d) = month_and_day 11 y 1 (n - day_number y 1 1) in (y, m, d)

-- The character at a place of a text.
pick : ℕ → String → String
pick n String.[] = ""
pick zero (String.◌∷◌ c s) = String.◌∷◌ c ""
pick (suc n) (String.◌∷◌ c s) = pick n s

digit : ℕ → String
unfolding pick
digit n = pick n "0123456789"

unfoldable two_digits : ℕ → String
unfolding digit
two_digits n = String.◌++◌ (digit (n / 10 % 10)) (digit (n % 10))

-- `formatDate` of a wall-clock time.
unfoldable pub format_date : ℕ → String
unfolding date_of_day two_digits
format_date t =
    let (y, m, d) = date_of_day (t / day_ms) in
    String.◌++◌ (String.◌++◌ (two_digits (y / 100)) (two_digits y))
      (String.◌++◌ (two_digits m) (two_digits d))

format_date_lem : format_date (wall_clock 1784079000000) ≡ "20260715"
unfolding format_date wall_clock
format_date_lem = refl

leap_lem : format_date (day_number 2024 2 29 * day_ms) ≡ "20240229"
unfolding format_date day_number
leap_lem = refl

year_end_lem : format_date (day_number 2027 1 1 * day_ms - 1) ≡ "20261231"
unfolding format_date day_number
year_end_lem = refl

pub record BrokerTime : Type 0 where
  pub order_date : String
  pub order_time : String
  pub wall : ℕ

abbrev pub distance : ℕ → ℕ → ℕ
distance a b = (a - b) + (b - a)

-- The six digits on a day of Korea.
unfoldable pub candidate_on : String → ℕ → ℕ → BrokerTime
unfolding format_date
candidate_on timestamp day time = record {
  order_date = format_date (day + time);
  order_time = timestamp;
  wall = day + time;
}

abbrev pub nearer : ℕ → BrokerTime → BrokerTime → BrokerTime
nearer call nearest c =
    if ltb (distance c.wall call) (distance nearest.wall call) then c else nearest

-- `resolveSixDigitTimestamp`: the day before, the day itself or the day after the call.
unfoldable pub on_nearest_day : String → ℕ → Option ℕ → Option BrokerTime
unfolding candidate_on kst_calendar_day wall_clock
on_nearest_day timestamp called none = none
on_nearest_day timestamp called (some time) =
    let day = kst_calendar_day called in
    some (
      nearer (wall_clock called)
        (nearer (wall_clock called) (candidate_on timestamp (day - day_ms) time)
          (candidate_on timestamp day time))
        (candidate_on timestamp (day + day_ms) time))

-- `slice` from a place on, and up to one.
unfoldable pub drop_text : ℕ → String → String
drop_text zero s = s
drop_text (suc n) String.[] = ""
drop_text (suc n) (String.◌∷◌ c s) = drop_text n s

unfoldable pub take_text : ℕ → String → String
take_text zero s = ""
take_text (suc n) String.[] = ""
take_text (suc n) (String.◌∷◌ c s) = String.◌∷◌ c (take_text n s)

unfoldable pub year_of_digits : List ℕ → ℕ
year_of_digits (a ∷ b ∷ c ∷ d ∷ rest) = number a b * 100 + number c d
year_of_digits _ = 0

unfoldable pub explicit_of : String → Option ℕ → Option BrokerTime
unfolding take_text drop_text year_of_digits codes
explicit_of timestamp none = none
explicit_of timestamp (some t) =
    if ltb (year_of_digits (codes timestamp)) 2000
    then none
    else some (record {
      order_date = take_text 8 timestamp;
      order_time = drop_text 8 timestamp;
      wall = t;
    })

-- `resolveExplicitTimestamp`: a date from the year 2000 on, and a time.
unfoldable pub on_own_day : String → Option BrokerTime
unfolding explicit_of parse_kst_timestamp take_text drop_text
on_own_day timestamp =
    explicit_of timestamp (parse_kst_timestamp (take_text 8 timestamp) (drop_text 8 timestamp))

abbrev pub max_broker_time_skew_ms : ℕ
max_broker_time_skew_ms = 10 * 60 * 1000

unfoldable pub resolve_timestamp : String → ℕ → Option BrokerTime
unfolding on_nearest_day on_own_day time_of_digits codes
resolve_timestamp timestamp called =
    if length (codes timestamp) == 6
    then on_nearest_day timestamp called (time_of_digits (codes timestamp))
    else if length (codes timestamp) == 14
    then on_own_day timestamp
    else none

abbrev pub within_skew : ℕ → Option BrokerTime → Option BrokerTime
within_skew called none = none
within_skew called (some b) =
    if ltb max_broker_time_skew_ms (distance b.wall (wall_clock called)) then none else some b

-- `resolveBrokerTimestamp`; a time of the call that is no date is `none`.
unfoldable pub resolve_broker_timestamp : Option String → Option ℕ → Option BrokerTime
unfolding trim resolve_timestamp wall_clock
resolve_broker_timestamp (some raw) (some called) =
    within_skew called (resolve_timestamp (trim raw) called)
resolve_broker_timestamp _ _ = none
