-- ===== src/Dates/Kst.antt =====
-- Korean wall-clock time, as src/trading/trading-broker-order-matcher.service.ts and
-- trading-broker-order-resolution.service.ts read it. A wall-clock time is counted in milliseconds from the
-- first of January of year 1, so that every date has one; `epoch_ms` is 1970 on that scale.
use kis_trader_back.Common.{
  ℕ, zero, suc, ◌+◌, ◌-◌, ◌*◌, ◌/◌, ◌≡◌, refl, String, ◌&&◌, Option, none, some, List, [], ◌∷◌,
  if◌then◌else◌, leb,
}
use kis_trader_back.Dates.{codes, is_digit, is_date, number, days_in_month}

abbrev pub day_ms : ℕ
day_ms = 24 * 60 * 60 * 1000

abbrev pub kst_offset_ms : ℕ
kst_offset_ms = 9 * 60 * 60 * 1000

-- The days of the year before a month.
days_before_month : ℕ → ℕ → ℕ
days_before_month y zero = 0
days_before_month y (suc zero) = 0
days_before_month y (suc (suc m)) = days_before_month y (suc m) + days_in_month y (suc m)

-- The days before a date.
unfoldable pub day_number : ℕ → ℕ → ℕ → ℕ
unfolding days_before_month days_in_month
day_number y m d =
    let before = y - 1 in
    365 * before + before / 4 - before / 100 + before / 400 + days_before_month y m + (d - 1)

unfoldable pub epoch_ms : ℕ
unfolding day_number
epoch_ms = day_number 1970 1 1 * day_ms

-- A point of time, as wall-clock time.
unfoldable pub wall_clock : ℕ → ℕ
unfolding epoch_ms
wall_clock t = t + kst_offset_ms + epoch_ms

-- `kstCalendarDay`: the midnight before a point of time.
unfoldable pub kst_calendar_day : ℕ → ℕ
unfolding wall_clock
kst_calendar_day t = wall_clock t / day_ms * day_ms

day_of_digits : List ℕ → ℕ
unfolding day_number
day_of_digits (ya ∷ yb ∷ yc ∷ yd ∷ ma ∷ mb ∷ da ∷ db ∷ []) =
    day_number (number ya yb * 100 + number yc yd) (number ma mb) (number da db) * day_ms
day_of_digits _ = 0

-- `parseKstCalendarDay`.
unfoldable pub parse_kst_calendar_day : String → Option ℕ
unfolding is_date codes day_of_digits
parse_kst_calendar_day s = if is_date (codes s) then some (day_of_digits (codes s)) else none

-- Six digits that name a time of the day, in milliseconds after midnight.
unfoldable pub time_of_digits : List ℕ → Option ℕ
unfolding is_digit
time_of_digits (ha ∷ hb ∷ ma ∷ mb ∷ sa ∷ sb ∷ []) =
    if (is_digit ha && is_digit hb && is_digit ma && is_digit mb && is_digit sa && is_digit sb)
      && (leb (number ha hb) 23 && leb (number ma mb) 59 && leb (number sa sb) 59)
    then some (number ha hb * 3600000 + number ma mb * 60000 + number sa sb * 1000)
    else none
time_of_digits _ = none

at_time : Option ℕ → Option ℕ → Option ℕ
at_time (some day) (some time) = some (day + time)
at_time _ _ = none

-- `parseKstTimestamp`, as wall-clock time.
unfoldable pub parse_kst_timestamp : String → String → Option ℕ
unfolding parse_kst_calendar_day time_of_digits codes at_time
parse_kst_timestamp date time = at_time (parse_kst_calendar_day date) (time_of_digits (codes time))

epoch_lem : day_number 1970 1 1 ≡ 719162
unfolding day_number
epoch_lem = refl

-- 2026-07-15 10:30:00 in Korea is 1784079000 seconds after the epoch.
timestamp_lem : parse_kst_timestamp "20260715" "103000" ≡ some (wall_clock 1784079000000)
unfolding parse_kst_timestamp wall_clock
timestamp_lem = refl
