-- ===== src/History/Listable.antt =====
-- A row of unfilled orders that passes its check and has shares left is an order that can be cancelled.
use kis_trader_back.Common.{
  ℕ, suc, ◌≡◌, ◌<◌, zero, refl, String, Bool, true, false, ◌||◌, Option, none, some, [], ◌∷◌,
  str_eq, str_eq_sound, is_empty, trim, is_some, arith, Bool-cases, and_split, inl, inr,
}
use kis_trader_back.Cash.{ℤ, pos, negsuc}
use kis_trader_back.Dates.{codes}
use kis_trader_back.History.{
  Json, absent, null, boolean, number, text, composite, Row, field, text_of, text_or_empty,
  parse_integer, nonempty_string, is_nonempty_row, is_nonempty_value, digits_integer,
}
use kis_trader_back.History.Rows.{
  has_order, none_or_checked, is_valid_domestic_unfilled_row, is_valid_overseas_unfilled_row,
}
use kis_trader_back.History.Orders.{
  ListedOrder, is_more_than_none, domestic_unfilled, overseas_unfilled,
}
use kis_trader_back.History.Requests.{set_field, row_exchange, with_exchange}
use kis_trader_back.History.Checks.{nonempty_string-text_of}
use kis_trader_back.History.Parts.{has_order-parts}

pub record IsListed {Price : Type 0} (o : ListedOrder Price) : Type 0 where
  pub shares : ℕ
  pub numbered : is_empty o.order_no ≡ false
  pub of_stock : is_empty o.stock_code ≡ false
  pub quantity_is : o.quantity ≡ some (pos shares)
  pub some_left : 0 < shares

digits_integer-some : (s : String) (z : ℤ) → digits_integer (codes s) ≡ some z → is_empty s ≡ false
unfolding codes
digits_integer-some String.[] z h = cc
digits_integer-some (String.◌∷◌ c s) z h = refl

integer-is_nonempty_value :
    (v : Json) (z : ℤ) → parse_integer v ≡ some z → is_nonempty_value v ≡ true
unfolding parse_integer is_nonempty_value
integer-is_nonempty_value (text s) z h = rw (digits_integer-some (trim s) z h) refl
integer-is_nonempty_value (number y s) z h = refl
integer-is_nonempty_value absent z h = cc
integer-is_nonempty_value null z h = cc
integer-is_nonempty_value (boolean b) z h = cc
integer-is_nonempty_value (composite s) z h = cc

-- A row with a quantity is not empty.
integer-is_nonempty_row :
    (n : String) (row : Row) (z : ℤ)
    → parse_integer (field n row) ≡ some z
    → is_nonempty_row row ≡ true
unfolding field is_nonempty_row
integer-is_nonempty_row n [] z h = integer-is_nonempty_value absent z h
integer-is_nonempty_row n (x ∷ xs) z h = elim (Bool-cases (str_eq x.name n)) [
  | inl here ↦ rw (integer-is_nonempty_value x.value z (rw here at h)) refl
  | inr other ↦
      or_right (is_nonempty_value x.value) (integer-is_nonempty_row n xs z (rw other at h))
]
  where
    or_right : (b : Bool) {d : Bool} → d ≡ true → (b || d) ≡ true
    or_right b g = ground arith

more_than_none : (o : Option ℤ) → is_more_than_none o ≡ true → (n : ℕ) × (o ≡ some (pos (suc n)))
more_than_none (some (pos (suc n))) h = (n, refl)
more_than_none none h = ground arith
more_than_none (some (pos zero)) h = ground arith
more_than_none (some (negsuc n)) h = ground arith

checked_lem :
    (o : Option ℤ) (n : ℕ) (checked : Bool)
    → o ≡ some (pos (suc n))
    → none_or_checked o checked ≡ true
    → checked ≡ true
checked_lem o n checked e h = let h' = rw e at h in ground arith

nonempty_string-text_or_empty :
    (v : Json) → is_some (nonempty_string v) ≡ true → text_or_empty v ≡ text_of v
unfolding nonempty_string text_or_empty text_of
nonempty_string-text_or_empty (text s) h = refl
nonempty_string-text_or_empty absent h = ground arith
nonempty_string-text_or_empty null h = ground arith
nonempty_string-text_or_empty (boolean b) h = ground arith
nonempty_string-text_or_empty (number z s) h = ground arith
nonempty_string-text_or_empty (composite s) h = ground arith

field-set_field_other :
    (m n : String) (v : Json) (row : Row)
    → str_eq m n ≡ false
    → field n (set_field m v row) ≡ field n row
unfolding field set_field
field-set_field_other m n v [] h = rw h refl
field-set_field_other m n v (x ∷ xs) h = elim (Bool-cases (str_eq x.name m)) [
  | inl here ↦
      let other : str_eq x.name n ≡ false = rw (str_eq_sound x.name m here) h in
      rw (here, h, other) refl
  | inr there ↦ rw (there, field-set_field_other m n v xs h) refl
]

module _ {Price : Type 0} (price_of : Json → Price) where
  pub domestic_unfilled-IsListed :
      (row : Row)
      → is_valid_domestic_unfilled_row row ≡ true
      → is_more_than_none (parse_integer (field "psbl_qty" row)) ≡ true
      → IsListed (domestic_unfilled price_of row)
  unfolding is_valid_domestic_unfilled_row domestic_unfilled
  domestic_unfilled-IsListed row v q =
      let (n, e) = more_than_none (parse_integer (field "psbl_qty" row)) q in
      let filled = integer-is_nonempty_row "psbl_qty" row (pos (suc n)) e in
      let (number_ok, stock_ok) =
        has_order-parts row (
          checked_lem (parse_integer (field "psbl_qty" row)) n (has_order row) e
            (rw filled at v)) in
      record {
        shares = suc n;
        numbered = nonempty_string-text_of (field "odno" row) number_ok;
        of_stock = nonempty_string-text_of (field "pdno" row) stock_ok;
        quantity_is = e;
        some_left = omega arith;
      }

  -- What a row becomes, if it has shares left.
  abbrev pub Lists : Row → Type 0
  Lists row =
      is_more_than_none (parse_integer (field "nccs_qty" row)) ≡ true
      → IsListed (overseas_unfilled price_of row)

  pub overseas_unfilled-Lists :
      (query : String) (row : Row)
      → is_valid_overseas_unfilled_row query row ≡ true
      → Lists (with_exchange query row)
  unfolding is_valid_overseas_unfilled_row overseas_unfilled with_exchange
  overseas_unfilled-Lists query row v q =
      let same = λ (n : String) (h : str_eq "ovrs_excg_cd" n ≡ false).
        field-set_field_other "ovrs_excg_cd" n (text (row_exchange query row)) row h in
      let q' : is_more_than_none (parse_integer (field "nccs_qty" row)) ≡ true =
        rw (same "nccs_qty" refl) at q in
      let (n, e) = more_than_none (parse_integer (field "nccs_qty" row)) q' in
      let filled = integer-is_nonempty_row "nccs_qty" row (pos (suc n)) e in
      let checked = checked_lem (parse_integer (field "nccs_qty" row)) n _ e (rw filled at v) in
      let (ordered, exchange) = and_split (has_order row) _ checked in
      let (number_ok, stock_ok) = has_order-parts row ordered in
      record {
        shares = suc n;
        numbered =
            rw (same "odno" refl, nonempty_string-text_or_empty (field "odno" row) number_ok)
              (nonempty_string-text_of (field "odno" row) number_ok);
        of_stock = rw (same "pdno" refl) (nonempty_string-text_of (field "pdno" row) stock_ok);
        quantity_is = rw (same "nccs_qty" refl) e;
        some_left = omega arith;
      }
