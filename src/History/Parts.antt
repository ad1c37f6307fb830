-- ===== src/History/Parts.antt =====
-- What a row that passes its check holds, and how its rejection is marked.
use kis_trader_back.Common.{
  ℕ, ◌-◌, ◌≡◌, ◌≤◌, refl, String, Bool, true, false, ◌||◌, Option, none, some, if◌then◌else◌,
  str_eq, is_empty, trim, upper, is_some, arith, Bool-cases, and_split, inl, inr,
}
use kis_trader_back.Model.{
  Market, domestic, overseas, RejectionState, is_rejected, not_rejected, unclear,
}
use kis_trader_back.Cash.{pos}
use kis_trader_back.History.{
  Json, absent, null, boolean, number, text, composite, Row, field, parse_integer, nonempty_string,
  parse_optional_integer, is_nonempty_row, is_valid_kis_calendar_date, is_valid_kis_time,
}
use kis_trader_back.History.Rows.{
  has_order, are_quantities, is_remaining, is_exchange, is_overseas_exchange,
  is_valid_domestic_execution_row, is_valid_overseas_execution_row,
}
use kis_trader_back.History.Orders.{
  Sign, no_sign, zero_sign, positive_sign, Rejection, left_over, or_reason, by_sign, quantity_text,
  rejected_reason, is_text, normalize_domestic_rejection, normalize_overseas_rejection,
}
use kis_trader_back.History.Checks.{IsWithin}

abbrev pub rejected_of : RejectionState → Option Bool
rejected_of is_rejected = some true
rejected_of not_rejected = some false
rejected_of unclear = none

-- The exchanges of a market, as a row spells them.
unfoldable pub is_exchange_of : Market → String → Bool
unfolding is_overseas_exchange upper trim
is_exchange_of domestic e = str_eq e "KRX"
is_exchange_of overseas e = is_overseas_exchange (upper (trim e))

or_reason-rejected_of :
    (o : Option String) (x : Rejection)
    → x.rejected ≡ rejected_of x.state
    → (or_reason o x).rejected ≡ rejected_of (or_reason o x).state
or_reason-rejected_of none x h = h
or_reason-rejected_of (some r) x h = refl

by_sign-rejected_of : (s : Sign) → (by_sign s).rejected ≡ rejected_of (by_sign s).state
by_sign-rejected_of no_sign = refl
by_sign-rejected_of zero_sign = refl
by_sign-rejected_of positive_sign = refl

if-rejected_of :
    (b : Bool) (x y : Rejection)
    → x.rejected ≡ rejected_of x.state
    → y.rejected ≡ rejected_of y.state
    → (if b then x else y).rejected ≡ rejected_of (if b then x else y).state
if-rejected_of true x y h g = h
if-rejected_of false x y h g = g

pub domestic_rejection_lem :
    (sign_of : String → Sign) (row : Row)
    → (normalize_domestic_rejection sign_of row).rejected
      ≡ rejected_of (normalize_domestic_rejection sign_of row).state
unfolding normalize_domestic_rejection
domestic_rejection_lem sign_of row = or_reason-rejected_of (rejected_reason row) _ (
    if-rejected_of (is_empty (quantity_text (field "rjct_qty" row))) _ _ refl
      (by_sign-rejected_of (sign_of (quantity_text (field "rjct_qty" row)))))

pub overseas_rejection_lem :
    (row : Row)
    → (normalize_overseas_rejection row).rejected
      ≡ rejected_of (normalize_overseas_rejection row).state
unfolding normalize_overseas_rejection
overseas_rejection_lem row = or_reason-rejected_of (rejected_reason row) _ (
    if-rejected_of (is_text (field "rjct_rson_name" row) || is_text (field "rjct_rson" row)) _ _
      refl refl)

pub left_over-IsWithin :
    (n f : ℕ)
    → f ≤ n
    → (left_over (some (pos n)) (some (pos f)) ≡ some (pos (n - f))) × IsWithin f (pos (n - f)) n
unfolding left_over
left_over-IsWithin n f h = (refl, omega arith)

pub exchange-text :
    (v : Json)
    → is_exchange (nonempty_string v) ≡ true
    → (e : String) × (v ≡ text e) × (is_exchange_of overseas e ≡ true)
unfolding is_exchange nonempty_string is_exchange_of
exchange-text (text s) h = elim (Bool-cases (is_empty (trim s))) [
  | inl empty ↦ absurd_lem (rw empty at h)
  | inr filled ↦ (s, refl, rw filled at h)
]
  where
    absurd_lem :
        false ≡ true → (e : String) × (text s ≡ text e) × (is_exchange_of overseas e ≡ true)
    absurd_lem g = ground arith
exchange-text absent h = ground arith
exchange-text null h = ground arith
exchange-text (boolean b) h = ground arith
exchange-text (number z s) h = ground arith
exchange-text (composite s) h = ground arith

pub has_order-parts :
    (row : Row)
    → has_order row ≡ true
    → (is_some (nonempty_string (field "odno" row)) ≡ true)
      × (is_some (nonempty_string (field "pdno" row)) ≡ true)
unfolding has_order
has_order-parts row h = let (named, side) = and_split _ _ h in and_split _ _ named

pub domestic_execution_parts :
    (row : Row)
    → is_valid_domestic_execution_row row ≡ true
    → is_nonempty_row row ≡ true
    → (has_order row ≡ true)
      × (are_quantities
            (parse_integer (field "ord_qty" row))
            (parse_integer (field "tot_ccld_qty" row))
          ≡ true)
      × (is_valid_kis_calendar_date (field "ord_dt" row) ≡ true)
      × (is_valid_kis_time (field "ord_tmd" row) ≡ true)
unfolding is_valid_domestic_execution_row
domestic_execution_parts row v f =
    let (more, time) = and_split _ _ (rw f at v) in
    let (more, date) = and_split _ _ more in
    let (order, quantities) = and_split _ _ more in (order, quantities, date, time)

pub overseas_execution_parts :
    (row : Row)
    → is_valid_overseas_execution_row row ≡ true
    → is_nonempty_row row ≡ true
    → (has_order row ≡ true)
      × (is_exchange (nonempty_string (field "ovrs_excg_cd" row)) ≡ true)
      × (are_quantities
            (parse_integer (field "ft_ord_qty" row))
            (parse_integer (field "ft_ccld_qty" row))
          ≡ true)
      × (is_remaining
            (parse_integer (field "ft_ord_qty" row))
            (parse_integer (field "ft_ccld_qty" row))
            (parse_optional_integer (field "nccs_qty" row))
          ≡ true)
      × (is_valid_kis_calendar_date (field "dmst_ord_dt" row) ≡ true)
      × (is_valid_kis_time (field "thco_ord_tmd" row) ≡ true)
unfolding is_valid_overseas_execution_row
overseas_execution_parts row v f =
    let (more, time) = and_split _ _ (rw f at v) in
    let (more, date) = and_split _ _ more in
    let (more, remaining) = and_split _ _ more in
    let (more, quantities) = and_split _ _ more in
    let (order, exchange) = and_split _ _ more in
    (order, exchange, quantities, remaining, date, time)
