-- ===== src/History/Orders.antt =====
-- What a row of src/kis/kis-order-history.service.ts becomes. The readings of a value as a floating-point
-- number, `parseFloat(value) || 0` and the sign of `Number(text)`, are parameters. A value that no check
-- has made sure of stays what it is: an integer may be missing, a text may be any value.
use Prim.Native.String
use kis_trader_back.Common.{
  suc, ◌+◌, ◌-◌, String, Bool, true, false, Option, none, some, if◌then◌else◌, str_eq, is_empty,
  trim, upper, ◌||◌,
}
use kis_trader_back.Model.{Side, buy, sell, RejectionState, is_rejected, not_rejected, unclear}
use kis_trader_back.Cash.{ℤ, pos, negsuc}
use kis_trader_back.History.{
  Json, text, number, Row, field, text_of, text_or_empty, is_truthy, as_text, parse_integer,
  Optional, left_out, malformed, given, parse_optional_integer,
}

-- A finite number that is not negative has a sign.
pub data Sign : Type 0 where
  no_sign zero_sign positive_sign : Sign

pub record Rejection : Type 0 where
  pub state : RejectionState
  pub rejected : Option Bool
  pub reason : Option String

pub record ReportedOrder (Price : Type 0) : Type 0 where
  pub order_no : String
  pub stock_code : String
  pub side : Side
  pub order_quantity : Option ℤ
  pub filled_quantity : Option ℤ
  pub remaining_quantity : Option ℤ
  pub order_price : Option Price
  pub filled_price : Option Price
  pub exchange_code : Json
  pub order_date : Json
  pub order_time : Json
  pub rejection : Rejection

pub record ListedOrder (Price : Type 0) : Type 0 where
  pub order_no : String
  pub stock_code : String
  pub side : Side
  pub quantity : Option ℤ
  pub price : Price
  pub exchange_code : Option String

unfoldable pub side_of : Row → Side
unfolding field text_of trim
side_of row = if str_eq (trim (text_of (field "sll_buy_dvsn_cd" row))) "01" then sell else buy

-- `Math.max(0, ordered - filled)`.
unfoldable pub left_over : Option ℤ → Option ℤ → Option ℤ
left_over (some (pos a)) (some (pos b)) = some (pos (a - b))
left_over (some (pos a)) (some (negsuc b)) = some (pos (a + suc b))
left_over (some (negsuc a)) (some (pos b)) = some (pos 0)
left_over (some (negsuc a)) (some (negsuc b)) = some (pos (b - a))
left_over _ _ = none

-- The trimmed text of a field, empty if it has none.
unfoldable trimmed : String → Row → String
unfolding field as_text trim
trimmed n row = elim (as_text (field n row)) [ none ↦ "" | some s ↦ trim s ]

unfoldable pub rejected_reason : Row → Option String
unfolding trimmed
rejected_reason row =
    let name = trimmed "rjct_rson_name" row in
    let code = trimmed "rjct_rson" row in
    if is_empty name
    then (if is_empty code then none else some code)
    else if is_empty code
    then some name
    else some (String.◌++◌ name (String.◌++◌ " (rjct_rson=" (String.◌++◌ code ")")))

abbrev pub rejected_for : String → Rejection
rejected_for r = record { state = is_rejected; rejected = some true; reason = some r }

abbrev pub stated : RejectionState → Option Bool → Rejection
stated s b = record { state = s; rejected = b; reason = none }

-- `normalizedQuantity`.
unfoldable pub quantity_text : Json → String
unfolding trim
quantity_text (text s) = trim s
quantity_text (number z s) = s
quantity_text _ = ""

abbrev pub by_sign : Sign → Rejection
by_sign no_sign = stated unclear none
by_sign zero_sign = stated not_rejected (some false)
by_sign positive_sign = stated is_rejected (some true)

unfoldable pub is_text : Json → Bool
is_text (text s) = true
is_text _ = false

-- A reason decides; without one the other fields do.
abbrev pub or_reason : Option String → Rejection → Rejection
or_reason none other = other
or_reason (some r) other = rejected_for r

unfoldable pub normalize_overseas_rejection : Row → Rejection
unfolding field rejected_reason is_text
normalize_overseas_rejection row = or_reason (rejected_reason row) (
    if is_text (field "rjct_rson_name" row) || is_text (field "rjct_rson" row)
    then stated not_rejected (some false)
    else stated unclear none)

module _ (sign_of : String → Sign) where
  unfoldable pub normalize_domestic_rejection : Row → Rejection
  unfolding field rejected_reason quantity_text
  normalize_domestic_rejection row = or_reason (rejected_reason row) (
      if is_empty (quantity_text (field "rjct_qty" row))
      then stated unclear none
      else by_sign (sign_of (quantity_text (field "rjct_qty" row))))

-- More than none.
abbrev pub is_more_than_none : Option ℤ → Bool
is_more_than_none (some (pos (suc n))) = true
is_more_than_none _ = false

abbrev pub given_or : Optional → Option ℤ → Option ℤ
given_or (given r) z = some r
given_or left_out z = z
given_or malformed z = z

module _ {Price : Type 0} (price_of : Json → Price) where
  unfoldable pub optional_price : Json → Option Price
  unfolding is_truthy
  optional_price v = if is_truthy v then some (price_of v) else none

  unfoldable pub domestic_execution : (String → Sign) → Row → ReportedOrder Price
  unfolding field text_of trim side_of parse_integer left_over optional_price
      normalize_domestic_rejection
  domestic_execution sign_of row = record {
    order_no = trim (text_of (field "odno" row));
    stock_code = trim (text_of (field "pdno" row));
    side = side_of row;
    order_quantity = parse_integer (field "ord_qty" row);
    filled_quantity = parse_integer (field "tot_ccld_qty" row);
    remaining_quantity =
        left_over (parse_integer (field "ord_qty" row)) (parse_integer (field "tot_ccld_qty" row));
    order_price = optional_price (field "ord_unpr" row);
    filled_price = optional_price (field "avg_prvs" row);
    exchange_code = text "KRX";
    order_date = field "ord_dt" row;
    order_time = field "ord_tmd" row;
    rejection = normalize_domestic_rejection sign_of row;
  }

  unfoldable pub overseas_execution : Row → ReportedOrder Price
  unfolding field text_of trim side_of parse_integer parse_optional_integer left_over optional_price
      normalize_overseas_rejection
  overseas_execution row = record {
    order_no = trim (text_of (field "odno" row));
    stock_code = trim (text_of (field "pdno" row));
    side = side_of row;
    order_quantity = parse_integer (field "ft_ord_qty" row);
    filled_quantity = parse_integer (field "ft_ccld_qty" row);
    remaining_quantity = given_or (parse_optional_integer (field "nccs_qty" row)) (
        left_over (parse_integer (field "ft_ord_qty" row))
          (parse_integer (field "ft_ccld_qty" row)));
    order_price = optional_price (field "ft_ord_unpr3" row);
    filled_price = optional_price (field "ft_ccld_unpr3" row);
    exchange_code = field "ovrs_excg_cd" row;
    order_date = field "dmst_ord_dt" row;
    order_time = field "thco_ord_tmd" row;
    rejection = normalize_overseas_rejection row;
  }

  unfoldable pub domestic_unfilled : Row → ListedOrder Price
  unfolding field text_of trim side_of parse_integer
  domestic_unfilled row = record {
    order_no = trim (text_of (field "odno" row));
    stock_code = trim (text_of (field "pdno" row));
    side = side_of row;
    quantity = parse_integer (field "psbl_qty" row);
    price = price_of (field "ord_unpr" row);
    exchange_code = none;
  }

  unfoldable pub overseas_unfilled : Row → ListedOrder Price
  unfolding field text_of text_or_empty trim upper side_of parse_integer
  overseas_unfilled row = record {
    order_no = trim (text_or_empty (field "odno" row));
    stock_code = trim (text_of (field "pdno" row));
    side = side_of row;
    quantity = parse_integer (field "nccs_qty" row);
    price = price_of (field "ft_ord_unpr3" row);
    exchange_code = some (upper (trim (text_or_empty (field "ovrs_excg_cd" row))));
  }
