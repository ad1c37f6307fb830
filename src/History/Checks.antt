-- ===== src/History/Checks.antt =====
-- What the checks of a row let through.
use kis_trader_back.Common.{
  ℕ, ◌+◌, ◌≡◌, ◌≤◌, ◌<◌, refl, sym, ap, ◌∙◌, String, Bool, true, false, Option, none, some, List,
  [], ◌∷◌, is_empty, trim, is_some, All, every, arith, Bool-cases, inl, inr, ltb→lt, leb→le,
}
use kis_trader_back.Cash.{ℤ, pos, negsuc}
use kis_trader_back.Dates.{codes, is_date}
use kis_trader_back.Dates.Kst.{time_of_digits, parse_kst_calendar_day, parse_kst_timestamp}
use kis_trader_back.Pagination.{Page}
use kis_trader_back.History.{
  Json, absent, null, boolean, number, text, composite, Row, text_of, nonempty_string,
  is_valid_kis_calendar_date, is_valid_kis_time,
}
use kis_trader_back.History.Rows.{are_quantities, exceeds}
use kis_trader_back.History.Requests.{
  Api, at_page, param, Request, fetch_domestic, fetch_overseas, Response, page_of, all_valid,
}

every-All : {A : Type 0} (p : A → Bool) (xs : List A) → every p xs ≡ true → All (λ x. p x ≡ true) xs
every-All p [] h = tt
every-All p (x ∷ xs) h = (ground arith, every-All p xs (ground arith))

page_of-valid :
    (output fk nk upper_fk upper_nk : String) (is_valid : Row → Bool) (o : Option Response)
    (p : Page Row) (rows : List Row)
    → page_of output fk nk upper_fk upper_nk is_valid o ≡ some p
    → p.rows ≡ some rows
    → All (λ r. is_valid r ≡ true) rows
unfolding page_of
page_of-valid output fk nk upper_fk upper_nk is_valid none p rows h e = cc
page_of-valid output fk nk upper_fk upper_nk is_valid (some r) p rows h e =
    elim (Bool-cases (all_valid is_valid (r.outputs output))) [
      | inl valid ↦
          let same : r.outputs output ≡ p.rows = rows_lem (rw valid at h) in
          every-All is_valid rows (ap (all_valid is_valid) (sym (same ∙ e)) ∙ valid)
      | inr bad ↦ absurd_lem (rw bad at h)
    ]
  where
    rows_lem : {q : Page Row} → some q ≡ some p → q.rows ≡ p.rows
    rows_lem g = cc

    absurd_lem : none ≡ some p → All (λ x. is_valid x ≡ true) rows
    absurd_lem g = cc

pub nonempty_string-text_of :
    (v : Json) → is_some (nonempty_string v) ≡ true → is_empty (trim (text_of v)) ≡ false
unfolding nonempty_string text_of
nonempty_string-text_of (text s) h = elim (Bool-cases (is_empty (trim s))) [
  | inl empty ↦ absurd_lem (rw empty at h)
  | inr filled ↦ filled
]
  where
    absurd_lem : false ≡ true → is_empty (trim s) ≡ false
    absurd_lem g = ground arith
nonempty_string-text_of absent h = ground arith
nonempty_string-text_of null h = ground arith
nonempty_string-text_of (boolean b) h = ground arith
nonempty_string-text_of (number z s) h = ground arith
nonempty_string-text_of (composite s) h = ground arith

pub fetch_domestic-valid :
    (api : Api) (output : String) (is_valid : Row → Bool) (q : Request) (page : ℕ) (fk nk : String)
    (p : Page Row) (rows : List Row)
    → fetch_domestic api output is_valid q page fk nk ≡ some p
    → p.rows ≡ some rows
    → All (λ r. is_valid r ≡ true) rows
unfolding fetch_domestic
fetch_domestic-valid api output is_valid q page fk nk p rows h e =
    page_of-valid output "ctx_area_fk100" "ctx_area_nk100" "CTX_AREA_FK100" "CTX_AREA_NK100"
      is_valid (api (at_page q (param "CTX_AREA_FK100" fk) (param "CTX_AREA_NK100" nk)) page) p rows
      h e

pub fetch_overseas-valid :
    (api : Api) (is_valid : Row → Bool) (q : Request) (page : ℕ) (fk nk : String) (p : Page Row)
    (rows : List Row)
    → fetch_overseas api is_valid q page fk nk ≡ some p
    → p.rows ≡ some rows
    → All (λ r. is_valid r ≡ true) rows
unfolding fetch_overseas
fetch_overseas-valid api is_valid q page fk nk p rows h e =
    page_of-valid "output" "ctx_area_fk200" "ctx_area_nk200" "CTX_AREA_FK200" "CTX_AREA_NK200"
      is_valid (api (at_page q (param "CTX_AREA_FK200" fk) (param "CTX_AREA_NK200" nk)) page) p rows
      h e

-- Quantities that pass are numbers, and in order.
pub record Quantities (ordered filled : Option ℤ) : Type 0 where
  pub total : ℕ
  pub done : ℕ
  pub ordered_is : ordered ≡ some (pos total)
  pub filled_is : filled ≡ some (pos done)
  pub some_ordered : 0 < total
  pub within : done ≤ total

pub are_quantities-Quantities :
    (ordered filled : Option ℤ) → are_quantities ordered filled ≡ true → Quantities ordered filled
unfolding are_quantities
are_quantities-Quantities (some (pos n)) (some (pos f)) h = record {
  total = n;
  done = f;
  ordered_is = refl;
  filled_is = refl;
  some_ordered = ltb→lt 0 n (ground arith);
  within = leb→le f n (ground arith);
}
are_quantities-Quantities none f h = ground arith
are_quantities-Quantities (some (negsuc n)) f h = ground arith
are_quantities-Quantities (some (pos n)) none h = ground arith
are_quantities-Quantities (some (pos n)) (some (negsuc f)) h = ground arith

-- What is executed and what is left are no more than what was ordered.
abbrev pub IsWithin : ℕ → ℤ → ℕ → Type 0
IsWithin done (pos left) total = done + left ≤ total
IsWithin done (negsuc n) total = Unit

pub exceeds-IsWithin :
    (done total : ℕ) (left : ℤ)
    → exceeds (pos done) left (pos total) ≡ false
    → IsWithin done left total
unfolding exceeds
exceeds-IsWithin done total (pos left) h = ground arith
exceeds-IsWithin done total (negsuc n) h = tt

pub calendar_date-text :
    (v : Json)
    → is_valid_kis_calendar_date v ≡ true
    → (d : String) × (v ≡ text d) × (is_date (codes d) ≡ true)
unfolding is_valid_kis_calendar_date
calendar_date-text (text s) h = (s, refl, h)
calendar_date-text absent h = ground arith
calendar_date-text null h = ground arith
calendar_date-text (boolean b) h = ground arith
calendar_date-text (number z s) h = ground arith
calendar_date-text (composite s) h = ground arith

pub time-text :
    (v : Json)
    → is_valid_kis_time v ≡ true
    → (t : String) × (v ≡ text t) × (is_some (time_of_digits (codes t)) ≡ true)
unfolding is_valid_kis_time
time-text (text s) h = (s, refl, h)
time-text absent h = ground arith
time-text null h = ground arith
time-text (boolean b) h = ground arith
time-text (number z s) h = ground arith
time-text (composite s) h = ground arith

pub timestamp_is_read :
    (d t : String)
    → is_date (codes d) ≡ true
    → is_some (time_of_digits (codes t)) ≡ true
    → is_some (parse_kst_timestamp d t) ≡ true
unfolding parse_kst_timestamp parse_kst_calendar_day
timestamp_is_read d t h e = rw h (by_time _ (time_of_digits (codes t)) e)
  where
    by_time :
        (day : ℕ) (o : Option ℕ)
        → is_some o ≡ true
        → is_some {A = ℕ} (elim o [ none ↦ none | some time ↦ some (day + time) ]) ≡ true
    by_time day none g = g
    by_time day (some time) g = refl
