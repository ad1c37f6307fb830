-- ===== src/History.antt =====
-- src/kis/kis-order-history.service.ts: the orders that KIS reports, read from rows of any JSON values.
-- History the readings of a value, History/Rows the checks of a row, History/Orders what a row becomes,
-- History/Requests and History/Queries the requests.
pub mod Rows
pub mod Orders
pub mod Requests
pub mod Queries
pub mod Checks
pub mod Parts
pub mod Reported
pub mod Typed
pub mod Listable
pub mod Listed
use kis_trader_back.Common.{
  ℕ, suc, ◌+◌, ◌*◌, ◌-◌, ◌≡◌, refl, String, Bool, true, false, ◌&&◌, not, Option, none, some, List,
  [], ◌∷◌, if◌then◌else◌, str_eq, is_empty, trim, upper, leb, ltb, any, every, is_some, ◌==◌,
}
use kis_trader_back.Cash.{ℤ, pos, negsuc}
use kis_trader_back.Dates.{codes, is_digit, is_date}
use kis_trader_back.Dates.Kst.{time_of_digits}

-- A value of a row. A number has its value, if it is an integer that a `number` holds exactly, and its
-- text; an array or an object has its text.
pub data Json : Type 0 where
  absent null : Json
  boolean : Bool → Json
  number : Option ℤ → String → Json
  text : String → Json
  composite : String → Json

pub record Entry : Type 0 where
  pub name : String
  pub value : Json

abbrev pub Row : Type 0
Row = List Entry

unfoldable pub field : String → Row → Json
field n [] = absent
field n (x ∷ xs) = if str_eq x.name n then x.value else field n xs

-- `String(value)`, and `String(value ?? '')`.
unfoldable pub text_of : Json → String
text_of absent = "undefined"
text_of null = "null"
text_of (boolean true) = "true"
text_of (boolean false) = "false"
text_of (number z s) = s
text_of (text s) = s
text_of (composite s) = s

unfoldable pub text_or_empty : Json → String
unfolding text_of
text_or_empty absent = ""
text_or_empty null = ""
text_or_empty v = text_of v

-- Whether `value ? … : …` takes the first branch.
unfoldable pub is_truthy : Json → Bool
is_truthy absent = false
is_truthy null = false
is_truthy (boolean b) = b
is_truthy (number (some (pos n)) s) = not (n == 0)
is_truthy (number _ s) = true
is_truthy (text s) = not (is_empty s)
is_truthy (composite s) = true

-- A value that a `typeof value === 'string'` lets through.
unfoldable pub as_text : Json → Option String
as_text (text s) = some s
as_text _ = none

abbrev pub max_safe_integer : ℕ
max_safe_integer = 9007199254740991

unfoldable digits_value : ℕ → List ℕ → ℕ
digits_value n [] = n
digits_value n (c ∷ cs) = digits_value (n * 10 + (c - b'0')) cs

-- A nonempty text of digits; `Number` of one beyond the safe integers is not safe either.
abbrev digits_integer : List ℕ → Option ℤ
digits_integer [] = none
digits_integer (c ∷ cs) =
    if every is_digit (c ∷ cs) && leb (digits_value 0 (c ∷ cs)) max_safe_integer
    then some (pos (digits_value 0 (c ∷ cs)))
    else none

unfoldable pub parse_integer : Json → Option ℤ
unfolding trim codes is_digit digits_value
parse_integer (number z s) = z
parse_integer (text s) = digits_integer (codes (trim s))
parse_integer _ = none

-- What `parseOptionalInteger` returns: `undefined`, `null`, or an integer.
pub data Optional : Type 0 where
  left_out malformed : Optional
  given : ℤ → Optional

abbrev given_or_malformed : Option ℤ → Optional
given_or_malformed none = malformed
given_or_malformed (some z) = given z

unfoldable pub parse_optional_integer : Json → Optional
unfolding parse_integer trim
parse_optional_integer absent = left_out
parse_optional_integer null = left_out
parse_optional_integer (text s) =
    if is_empty (trim s) then left_out else given_or_malformed (parse_integer (text s))
parse_optional_integer v = given_or_malformed (parse_integer v)

unfoldable pub nonempty_string : Json → Option String
unfolding trim
nonempty_string (text s) = if is_empty (trim s) then none else some (trim s)
nonempty_string _ = none

unfoldable is_nonempty_value : Json → Bool
unfolding trim
is_nonempty_value absent = false
is_nonempty_value null = false
is_nonempty_value (text s) = not (is_empty (trim s))
is_nonempty_value _ = true

unfoldable pub is_nonempty_row : Row → Bool
unfolding is_nonempty_value
is_nonempty_row row = any (λ x. is_nonempty_value x.value) row

unfoldable pub is_valid_kis_calendar_date : Json → Bool
unfolding codes is_date
is_valid_kis_calendar_date (text s) = is_date (codes s)
is_valid_kis_calendar_date _ = false

unfoldable pub is_valid_kis_time : Json → Bool
unfolding codes time_of_digits
is_valid_kis_time (text s) = is_some (time_of_digits (codes s))
is_valid_kis_time _ = false

-- Texts of digits up to the safe integers are read; a number is taken as it is.
integer_lem : parse_integer (text " 0042 ") ≡ some (pos 42)
unfolding parse_integer
integer_lem = refl

unsafe_lem : parse_integer (text "9007199254740992") ≡ none
unfolding parse_integer
unsafe_lem = refl
