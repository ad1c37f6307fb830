-- ===== src/Operator/Collisions.antt =====
-- `annotateCandidateCollisions`: which candidates are orders of records that exist.
use kis_trader_back.Common.{
  ℕ, ◌+◌, ◌-◌, ◌*◌, String, Bool, true, false, ◌&&◌, ◌||◌, not, Option, none, some, List, [], ◌∷◌,
  map, keep, any, find_first, if◌then◌else◌, str_eq, opt_eq, is_empty, is_none, trim, normalize,
  leb, ltb, min, max,
}
use kis_trader_back.Model.{TradeRecord, broker_eq, market_eq, opt_environment_eq}
use kis_trader_back.Dates.Kst.{parse_kst_calendar_day, kst_calendar_day, wall_clock, day_ms}
use kis_trader_back.Recovery.TakeOver.{Table}
use kis_trader_back.Matcher.{
  MatchRequest, Candidate, CollisionType, exact, legacy, Answer, failed, done, context_required,
  invalid_span,
}

-- The identity of a candidate by which rows are looked up.
pub record Identity : Type 0 where
  pub broker_order_date : String
  pub exchange_code : String
  pub order_no : String

unfoldable pub identity_of : Candidate → Identity
unfolding normalize trim
identity_of c = record {
  broker_order_date = c.order_date;
  exchange_code = normalize c.exchange_code;
  order_no = trim c.order_no;
}

abbrev pub names_order : Identity → TradeRecord → Bool
names_order i r = str_eq r.exchange_code i.exchange_code && opt_eq r.order_no (some i.order_no)

-- The `where` of `exactRows`.
unfoldable pub is_exact_row : MatchRequest → List Identity → TradeRecord → Bool
is_exact_row q identities r =
    not (str_eq r.id q.trade_record_id)
    && broker_eq r.broker q.broker
    && opt_environment_eq r.broker_environment q.broker_environment
    && opt_eq r.broker_account_hash q.broker_account_hash
    && market_eq r.market q.market
    && any (λ i. opt_eq r.broker_order_date (some i.broker_order_date) && names_order i r)
        identities

unfoldable pub days_of : List Candidate → List ℕ
days_of [] = []
days_of (c ∷ cs) =
    let days = days_of cs in
    elim (parse_kst_calendar_day c.order_date) [ none ↦ days | some d ↦ d ∷ days ]

unfoldable pub least : ℕ → List ℕ → ℕ
least d [] = d
least d (e ∷ es) = least (min d e) es

unfoldable pub greatest : ℕ → List ℕ → ℕ
greatest d [] = d
greatest d (e ∷ es) = greatest (max d e) es

-- The `where` of `legacyRows`, for the span of the candidates' days.
unfoldable pub is_legacy_row : MatchRequest → List Identity → ℕ → ℕ → TradeRecord → Bool
unfolding wall_clock
is_legacy_row q identities first last r =
    not (str_eq r.id q.trade_record_id)
    && broker_eq r.broker q.broker
    && market_eq r.market q.market
    && leb (first - day_ms) (wall_clock r.created_at)
    && ltb (wall_clock r.created_at) (last + 2 * day_ms)
    && (is_none r.broker_environment
        || is_none r.broker_account_hash
        || is_none r.broker_order_date)
    && any (λ i. names_order i r) identities

-- The comparison of a row with one candidate, both normalized.
abbrev pub normalized_match : Identity → TradeRecord → Bool
normalized_match i r =
    str_eq (normalize r.exchange_code) i.exchange_code
    && elim (r.order_no) [ none ↦ false | some n ↦ str_eq (trim n) i.order_no ]

unfoldable pub matches_exactly : Candidate → TradeRecord → Bool
unfolding normalize trim identity_of
matches_exactly c r =
    opt_eq r.broker_order_date (some c.order_date) && normalized_match (identity_of c) r

-- Two midnights at most a day apart.
abbrev is_near : ℕ → ℕ → Bool
is_near a b = leb a (b + day_ms) && leb b (a + day_ms)

abbrev near_day : Option ℕ → TradeRecord → Bool
near_day none r = false
near_day (some day) r = is_near (kst_calendar_day r.created_at) day

unfoldable pub matches_legacy : Candidate → TradeRecord → Bool
unfolding normalize trim identity_of parse_kst_calendar_day kst_calendar_day
matches_legacy c r =
    near_day (parse_kst_calendar_day c.order_date) r && normalized_match (identity_of c) r

abbrev with_collision : Candidate → TradeRecord → CollisionType → Candidate
with_collision c r kind = record c {
  existing_trade_record_id = some r.id;
  collision_type = some kind;
}

unfoldable pub annotate : List TradeRecord → List TradeRecord → Candidate → Candidate
unfolding matches_exactly matches_legacy
annotate exact_rows legacy_rows c = elim (find_first (matches_exactly c) exact_rows) [
  | some r ↦ with_collision c r exact
  | none ↦ elim (find_first (matches_legacy c) legacy_rows) [
    | some r ↦ with_collision c r legacy
    | none ↦ c
  ]
]

abbrev pub lacks_context : MatchRequest → Bool
lacks_context q =
    is_none q.broker_environment
    || elim (q.broker_account_hash) [ none ↦ true | some hash ↦ is_empty hash ]

abbrev pub rows_of : Table → List TradeRecord
rows_of t = map (λ w. w.row) t

-- A span without a day is an invalid date, which the query refuses.
abbrev pub annotate_over :
    MatchRequest → List Candidate → List ℕ → Table → Table → Answer (List Candidate)
annotate_over q cs [] t t' = failed invalid_span
annotate_over q cs (d ∷ ds) t t' =
    let identities = map identity_of cs in
    done (
      map
        (annotate (keep (is_exact_row q identities) (rows_of t))
          (keep (is_legacy_row q identities (least d ds) (greatest d ds)) (rows_of t')))
        cs)

-- The two queries meet the table at two times.
unfoldable pub annotate_candidate_collisions :
    MatchRequest → List Candidate → Table → Table → Answer (List Candidate)
unfolding identity_of is_exact_row is_legacy_row annotate days_of least greatest
annotate_candidate_collisions q [] t t' = done []
annotate_candidate_collisions q (c ∷ cs) t t' =
    if lacks_context q
    then failed context_required
    else annotate_over q (c ∷ cs) (days_of (c ∷ cs)) t t'
