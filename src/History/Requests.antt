-- ===== src/History/Requests.antt =====
-- The requests of src/kis/kis-order-history.service.ts: their parameters, the pages, checked row by row as
-- they come, and the identities of the rows. What KIS answers to a request is a parameter, in which no answer
-- is an exception.
use Prim.Native.String
use kis_trader_back.Common.{
  ℕ, ◌-◌, String, Bool, true, Option, none, some, List, [], ◌∷◌, ◌++◌, if◌then◌else◌, str_eq,
  is_empty, trim, upper, every,
}
use kis_trader_back.Dates.Kst.{day_ms, parse_kst_calendar_day}
use kis_trader_back.Mutation.Timestamp.{format_date, take_text, drop_text}
use kis_trader_back.Pagination.{Page}
use kis_trader_back.History.{Json, absent, null, text, Row, field, text_or_empty, as_text}

pub record Param : Type 0 where
  pub name : String
  pub value : String

pub record Request : Type 0 where
  pub path : String
  pub tr_id : String
  pub params : List Param

-- `response.data`, with the lists of rows under their keys, `none` what is not a list, and the header
-- `tr_cont`.
pub record Response : Type 0 where
  pub outputs : String → Option (List Row)
  pub body : Row
  pub tr_cont : Option String

-- A request for one page; the page's number decides the header.
abbrev pub Api : Type 0
Api = Request → ℕ → Option Response

pub record Account : Type 0 where
  pub account_no : String
  pub prod_code : String
  pub is_paper : Bool

abbrev pub param : String → String → Param
param n v = record { name = n; value = v }

unfoldable pub account_params : Account → List Param
unfolding take_text drop_text
account_params a =
    let own = take_text 2 (drop_text 8 a.account_no) in
    param "CANO" (take_text 8 a.account_no)
    ∷ param "ACNT_PRDT_CD" (if is_empty own then a.prod_code else own)
    ∷ []

-- `a ?? b` of two values.
abbrev or_value : Json → Json → Json
or_value absent b = b
or_value null b = b
or_value a b = a

-- What is no list passes here, and is refused by the walk.
abbrev pub all_valid : (Row → Bool) → Option (List Row) → Bool
all_valid is_valid none = true
all_valid is_valid (some rows) = every is_valid rows

-- `fetchPage`: an answer with a row that fails its check is an exception.
unfoldable pub page_of :
    String → String → String → String → String → (Row → Bool) → Option Response → Option (Page Row)
unfolding field as_text
page_of output fk nk upper_fk upper_nk is_valid none = none
page_of output fk nk upper_fk upper_nk is_valid (some r) =
    if all_valid is_valid (r.outputs output)
    then some (record {
      rows = r.outputs output;
      tr_cont = r.tr_cont;
      fk = as_text (or_value (field fk r.body) (field upper_fk r.body));
      nk = as_text (or_value (field nk r.body) (field upper_nk r.body));
    })
    else none

abbrev pub at_page : Request → Param → Param → Request
at_page q fk nk = record q { params = q.params ++ (fk ∷ nk ∷ []) }

module _ (api : Api) where
  unfoldable pub fetch_domestic :
      String → (Row → Bool) → Request → ℕ → String → String → Option (Page Row)
  unfolding page_of
  fetch_domestic output is_valid q page fk nk =
      page_of output "ctx_area_fk100" "ctx_area_nk100" "CTX_AREA_FK100" "CTX_AREA_NK100" is_valid
        (api (at_page q (param "CTX_AREA_FK100" fk) (param "CTX_AREA_NK100" nk)) page)

  unfoldable pub fetch_overseas : (Row → Bool) → Request → ℕ → String → String → Option (Page Row)
  unfolding page_of
  fetch_overseas is_valid q page fk nk =
      page_of "output" "ctx_area_fk200" "ctx_area_nk200" "CTX_AREA_FK200" "CTX_AREA_NK200" is_valid
        (api (at_page q (param "CTX_AREA_FK200" fk) (param "CTX_AREA_NK200" nk)) page)

-- The identities of rows.
abbrev pub joined : String → String → String
joined a b = String.◌++◌ a (String.◌++◌ "|" b)

unfoldable trimmed_field : String → Row → String
unfolding field text_or_empty trim
trimmed_field n row = trim (text_or_empty (field n row))

unfoldable pub domestic_unfilled_key : Row → String
unfolding trimmed_field
domestic_unfilled_key row = joined "KRX" (trimmed_field "odno" row)

unfoldable pub domestic_execution_key : Row → String
unfolding trimmed_field
domestic_execution_key row =
    joined (trimmed_field "ord_dt" row) (joined "KRX" (trimmed_field "odno" row))

unfoldable pub overseas_execution_key : Row → String
unfolding trimmed_field
overseas_execution_key row =
    joined (trimmed_field "dmst_ord_dt" row)
      (joined (trimmed_field "ovrs_excg_cd" row) (trimmed_field "odno" row))

unfoldable pub row_exchange : String → Row → String
unfolding trimmed_field upper
row_exchange query row =
    let e = upper (trimmed_field "ovrs_excg_cd" row) in if is_empty e then query else e

unfoldable pub overseas_unfilled_key : String → Row → String
unfolding row_exchange trimmed_field
overseas_unfilled_key query row = joined (row_exchange query row) (trimmed_field "odno" row)

-- `{ ...row, ovrs_excg_cd }`.
unfoldable pub set_field : String → Json → Row → Row
set_field n v [] = record { name = n; value = v } ∷ []
set_field n v (x ∷ xs) =
    let rest = set_field n v xs in
    if str_eq x.name n then record { name = n; value = v } ∷ xs else x ∷ rest

unfoldable pub with_exchange : String → Row → Row
unfolding set_field row_exchange
with_exchange query row = set_field "ovrs_excg_cd" (text (row_exchange query row)) row

-- `shiftKisCalendarDate(value, -1)`, `none` the exception.
unfoldable pub day_before : String → Option String
unfolding parse_kst_calendar_day format_date
day_before s = elim (parse_kst_calendar_day s) [
  | none ↦ none
  | some t ↦ some (format_date (t - day_ms))
]

abbrev by_env : Account → String → String → String
by_env a paper real = if a.is_paper then paper else real

unfoldable pub domestic_unfilled_request : Account → Request
unfolding account_params
domestic_unfilled_request a = record {
  path = "/uapi/domestic-stock/v1/trading/inquire-psbl-rvsecncl";
  tr_id = by_env a "VTTC0084R" "TTTC0084R";
  params = account_params a ++ (param "INQR_DVSN_1" "0" ∷ param "INQR_DVSN_2" "0" ∷ []);
}

unfoldable pub overseas_unfilled_request : Account → String → Request
unfolding account_params
overseas_unfilled_request a exchange = record {
  path = "/uapi/overseas-stock/v1/trading/inquire-nccs";
  tr_id = by_env a "VTTS3018R" "TTTS3018R";
  params = account_params a ++ (param "OVRS_EXCG_CD" exchange ∷ param "SORT_SQN" "DS" ∷ []);
}

unfoldable pub domestic_execution_request : Account → String → String → Request
unfolding account_params
domestic_execution_request a start until = record {
  path = "/uapi/domestic-stock/v1/trading/inquire-daily-ccld";
  tr_id = by_env a "VTTC0081R" "TTTC0081R";
  params =
      account_params a
      ++ (param "INQR_STRT_DT" start
          ∷ param "INQR_END_DT" until
          ∷ param "SLL_BUY_DVSN_CD" "00"
          ∷ param "INQR_DVSN" "00"
          ∷ param "PDNO" ""
          ∷ param "CCLD_DVSN" "00"
          ∷ param "ORD_GNO_BRNO" ""
          ∷ param "ODNO" ""
          ∷ param "INQR_DVSN_3" "00"
          ∷ param "INQR_DVSN_1" ""
          ∷ []);
}

unfoldable pub overseas_execution_request : Account → String → String → Request
unfolding account_params
overseas_execution_request a start until = record {
  path = "/uapi/overseas-stock/v1/trading/inquire-ccnl";
  tr_id = by_env a "VTTS3035R" "TTTS3035R";
  params =
      account_params a
      ++ (param "PDNO" (by_env a "" "%")
          ∷ param "ORD_STRT_DT" start
          ∷ param "ORD_END_DT" until
          ∷ param "SLL_BUY_DVSN" "00"
          ∷ param "CCLD_NCCS_DVSN" "00"
          ∷ param "OVRS_EXCG_CD" (by_env a "" "%")
          ∷ param "SORT_SQN" "DS"
          ∷ param "ORD_DT" ""
          ∷ param "ORD_GNO_BRNO" ""
          ∷ param "ODNO" ""
          ∷ []);
}
