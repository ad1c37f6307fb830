-- ===== src/History/Reported.antt =====
-- What a row that passes its check becomes: an order of the types and bounds that the rest of the program
-- relies on.
use kis_trader_back.Common.{
  ℕ, ◌-◌, ◌≡◌, ◌≤◌, ◌<◌, refl, String, Bool, true, false, not, Option, some, is_empty, is_some,
  arith, and_split,
}
use kis_trader_back.Model.{Market, domestic, overseas}
use kis_trader_back.Cash.{ℤ, pos}
use kis_trader_back.Dates.Kst.{parse_kst_timestamp}
use kis_trader_back.History.{
  Json, text, Row, field, parse_integer, Optional, left_out, malformed, given,
  parse_optional_integer, is_nonempty_row,
}
use kis_trader_back.History.Rows.{
  exceeds, is_remaining, is_valid_domestic_execution_row, is_valid_overseas_execution_row,
}
use kis_trader_back.History.Orders.{
  Sign, ReportedOrder, left_over, given_or, domestic_execution, overseas_execution,
}
use kis_trader_back.History.Checks.{
  nonempty_string-text_of, Quantities, are_quantities-Quantities, IsWithin, exceeds-IsWithin,
  calendar_date-text, time-text, timestamp_is_read,
}
use kis_trader_back.History.Parts.{
  rejected_of, is_exchange_of, domestic_rejection_lem, overseas_rejection_lem, left_over-IsWithin,
  exchange-text, has_order-parts, domestic_execution_parts, overseas_execution_parts,
}

pub record IsReported {Price : Type 0} (m : Market) (o : ReportedOrder Price) : Type 0 where
  pub total : ℕ
  pub done : ℕ
  pub left : ℤ
  pub date : String
  pub time : String
  pub exchange : String
  pub numbered : is_empty o.order_no ≡ false
  pub of_stock : is_empty o.stock_code ≡ false
  pub ordered_is : o.order_quantity ≡ some (pos total)
  pub filled_is : o.filled_quantity ≡ some (pos done)
  pub remaining_is : o.remaining_quantity ≡ some left
  pub some_ordered : 0 < total
  pub within : done ≤ total
  pub remaining_within : IsWithin done left total
  pub date_is : o.order_date ≡ text date
  pub time_is : o.order_time ≡ text time
  pub timestamp_is : is_some (parse_kst_timestamp date time) ≡ true
  pub exchange_is : o.exchange_code ≡ text exchange
  pub listed_exchange : is_exchange_of m exchange ≡ true
  pub rejection_is : o.rejection.rejected ≡ rejected_of o.rejection.state

module _ {Price : Type 0} (price_of : Json → Price) where
  pub domestic_execution-IsReported :
      (sign_of : String → Sign) (row : Row)
      → is_valid_domestic_execution_row row ≡ true
      → is_nonempty_row row ≡ true
      → IsReported domestic (domestic_execution price_of sign_of row)
  unfolding domestic_execution is_exchange_of
  domestic_execution-IsReported sign_of row v f =
      let (order, quantities, date, time) = domestic_execution_parts row v f in
      let (number_ok, stock_ok) = has_order-parts row order in
      let q =
        are_quantities-Quantities (parse_integer (field "ord_qty" row))
          (parse_integer (field "tot_ccld_qty" row)) quantities in
      let (d, d_is, d_ok) = calendar_date-text (field "ord_dt" row) date in
      let (t, t_is, t_ok) = time-text (field "ord_tmd" row) time in
      let (l_is, l_ok) = left_over-IsWithin q.total q.done q.within in
      record {
        total = q.total;
        done = q.done;
        left = pos (q.total - q.done);
        date = d;
        time = t;
        exchange = "KRX";
        numbered = nonempty_string-text_of (field "odno" row) number_ok;
        of_stock = nonempty_string-text_of (field "pdno" row) stock_ok;
        ordered_is = q.ordered_is;
        filled_is = q.filled_is;
        remaining_is = rw (q.ordered_is, q.filled_is) l_is;
        some_ordered = q.some_ordered;
        within = q.within;
        remaining_within = l_ok;
        date_is = d_is;
        time_is = t_is;
        timestamp_is = timestamp_is_read d t d_ok t_ok;
        exchange_is = refl;
        listed_exchange = refl;
        rejection_is = domestic_rejection_lem sign_of row;
      }

  -- What the row says is left, or else what is left over.
  remaining_lem :
      (ordered filled : Option ℤ) (o : Optional) (q : Quantities ordered filled)
      → is_remaining ordered filled o ≡ true
      → (left : ℤ) × (given_or o (left_over ordered filled) ≡ some left)
        × IsWithin q.done left q.total
  unfolding is_remaining
  remaining_lem ordered filled left_out q h =
      let (l_is, l_ok) = left_over-IsWithin q.total q.done q.within in
      (pos (q.total - q.done), rw (q.ordered_is, q.filled_is) l_is, l_ok)
  remaining_lem ordered filled malformed q h = ground arith
  remaining_lem ordered filled (given r) q h =
      (r, refl, exceeds-IsWithin q.done q.total r (not_more q.ordered_is q.filled_is h))
    where
      is_not : (b : Bool) → not b ≡ true → b ≡ false
      is_not b g = ground arith

      not_more :
          {n f : ℕ}
          → ordered ≡ some (pos n)
          → filled ≡ some (pos f)
          → is_remaining ordered filled (given r) ≡ true
          → exceeds (pos f) r (pos n) ≡ false
      not_more {n} {f} e g k =
          let (small, sum) =
            and_split (not (exceeds (pos 0) r (pos n))) (not (exceeds (pos f) r (pos n)))
              (rw (e, g) at k) in
          is_not (exceeds (pos f) r (pos n)) sum

  pub overseas_execution-IsReported :
      (row : Row)
      → is_valid_overseas_execution_row row ≡ true
      → is_nonempty_row row ≡ true
      → IsReported overseas (overseas_execution price_of row)
  unfolding overseas_execution
  overseas_execution-IsReported row v f =
      let (order, place, quantities, rest, date, time) = overseas_execution_parts row v f in
      let (number_ok, stock_ok) = has_order-parts row order in
      let q =
        are_quantities-Quantities (parse_integer (field "ft_ord_qty" row))
          (parse_integer (field "ft_ccld_qty" row)) quantities in
      let (d, d_is, d_ok) = calendar_date-text (field "dmst_ord_dt" row) date in
      let (t, t_is, t_ok) = time-text (field "thco_ord_tmd" row) time in
      let (e, e_is, e_ok) = exchange-text (field "ovrs_excg_cd" row) place in
      let (l, l_is, l_ok) =
        remaining_lem _ _ (parse_optional_integer (field "nccs_qty" row)) q rest in
      record {
        total = q.total;
        done = q.done;
        left = l;
        date = d;
        time = t;
        exchange = e;
        numbered = nonempty_string-text_of (field "odno" row) number_ok;
        of_stock = nonempty_string-text_of (field "pdno" row) stock_ok;
        ordered_is = q.ordered_is;
        filled_is = q.filled_is;
        remaining_is = l_is;
        some_ordered = q.some_ordered;
        within = q.within;
        remaining_within = l_ok;
        date_is = d_is;
        time_is = t_is;
        timestamp_is = timestamp_is_read d t d_ok t_ok;
        exchange_is = e_is;
        listed_exchange = e_ok;
        rejection_is = overseas_rejection_lem row;
      }
