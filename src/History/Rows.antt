-- ===== src/History/Rows.antt =====
-- The checks that every row of a page must pass, `assertValid…Row` of
-- src/kis/kis-order-history.service.ts, as Boolean tests: `false` is an exception.
use kis_trader_back.Common.{
  suc, ◌+◌, String, Bool, true, false, ◌&&◌, ◌||◌, not, Option, none, some, if◌then◌else◌, str_eq,
  upper, leb, ltb, any, is_some, ◌==◌,
}
use kis_trader_back.Cancellation.{overseas_exchanges}
use kis_trader_back.Cash.{ℤ, pos, negsuc}
use kis_trader_back.History.{
  Row, field, parse_integer, Optional, left_out, malformed, given, parse_optional_integer,
  nonempty_string, is_nonempty_row, is_valid_kis_calendar_date, is_valid_kis_time,
}

unfoldable pub is_overseas_exchange : String → Bool
is_overseas_exchange e = any (λ x. str_eq x e) overseas_exchanges

abbrev is_side : Option String → Bool
is_side none = false
is_side (some s) = str_eq s "01" || str_eq s "02"

-- The number of the order, the stock and the side.
unfoldable pub has_order : Row → Bool
unfolding field nonempty_string
has_order row =
    is_some (nonempty_string (field "odno" row))
    && is_some (nonempty_string (field "pdno" row))
    && is_side (nonempty_string (field "sll_buy_dvsn_cd" row))

-- More than none were ordered, and between none and all of them are executed.
unfoldable pub are_quantities : Option ℤ → Option ℤ → Bool
are_quantities (some (pos ordered)) (some (pos filled)) = ltb 0 ordered && leb filled ordered
are_quantities _ _ = false

unfoldable pub is_valid_domestic_execution_row : Row → Bool
unfolding field is_nonempty_row has_order are_quantities parse_integer is_valid_kis_calendar_date
    is_valid_kis_time
is_valid_domestic_execution_row row =
    if is_nonempty_row row
    then has_order row
      && are_quantities (parse_integer (field "ord_qty" row))
          (parse_integer (field "tot_ccld_qty" row))
      && is_valid_kis_calendar_date (field "ord_dt" row)
      && is_valid_kis_time (field "ord_tmd" row)
    else true

-- `filled + remaining > ordered`, where `remaining` may be negative; the others were checked before.
unfoldable pub exceeds : ℤ → ℤ → ℤ → Bool
exceeds (pos filled) (pos remaining) (pos ordered) = ltb ordered (filled + remaining)
exceeds (pos filled) (negsuc n) (pos ordered) = ltb (ordered + suc n) filled
exceeds _ _ _ = false

-- What the row says is left, against what it says was ordered and executed.
unfoldable pub is_remaining : Option ℤ → Option ℤ → Optional → Bool
unfolding exceeds
is_remaining ordered filled left_out = true
is_remaining ordered filled malformed = false
is_remaining (some n) (some f) (given r) = not (exceeds (pos 0) r n) && not (exceeds f r n)
is_remaining _ _ (given r) = false

unfoldable pub is_exchange : Option String → Bool
unfolding is_overseas_exchange upper
is_exchange none = false
is_exchange (some e) = is_overseas_exchange (upper e)

unfoldable pub is_valid_overseas_execution_row : Row → Bool
unfolding field is_nonempty_row has_order are_quantities is_remaining is_exchange nonempty_string
    parse_integer parse_optional_integer is_valid_kis_calendar_date is_valid_kis_time
is_valid_overseas_execution_row row =
    if is_nonempty_row row
    then has_order row
      && is_exchange (nonempty_string (field "ovrs_excg_cd" row))
      && are_quantities (parse_integer (field "ft_ord_qty" row))
          (parse_integer (field "ft_ccld_qty" row))
      && is_remaining (parse_integer (field "ft_ord_qty" row))
          (parse_integer (field "ft_ccld_qty" row)) (parse_optional_integer (field "nccs_qty" row))
      && is_valid_kis_calendar_date (field "dmst_ord_dt" row)
      && is_valid_kis_time (field "thco_ord_tmd" row)
    else true

-- A quantity of none says that the row is of no unfilled order, and ends the check.
abbrev pub none_or_checked : Option ℤ → Bool → Bool
none_or_checked none checked = false
none_or_checked (some (pos n)) checked = if n == 0 then true else checked
none_or_checked (some (negsuc n)) checked = false

unfoldable pub is_valid_domestic_unfilled_row : Row → Bool
unfolding field is_nonempty_row has_order parse_integer
is_valid_domestic_unfilled_row row =
    if is_nonempty_row row
    then none_or_checked (parse_integer (field "psbl_qty" row)) (has_order row)
    else true

abbrev exchange_or_query : String → Option String → String
exchange_or_query query none = query
exchange_or_query query (some e) = if str_eq (upper e) "" then query else upper e

unfoldable pub is_valid_overseas_unfilled_row : String → Row → Bool
unfolding field is_nonempty_row has_order parse_integer nonempty_string upper is_overseas_exchange
is_valid_overseas_unfilled_row query row =
    if is_nonempty_row row
    then none_or_checked (parse_integer (field "nccs_qty" row)) (
        has_order row
        && is_overseas_exchange
            (exchange_or_query query (nonempty_string (field "ovrs_excg_cd" row))))
    else true
