-- ===== src/Operator/Submission/Reviews.antt =====
-- What a review of the candidates of an unknown submission found.
use mathlib.Core.Path.{subst}
use kis_trader_back.Common.{
  ℕ, ◌≡◌, refl, sym, ◌∙◌, Bool, true, false, ◌&&◌, ◌||◌, String, Option, none, some, List, [], ◌∷◌,
  map, keep, any, find_first, All, Option-cases, arith, Bool-cases, inl, inr, str_eq, opt_eq,
}
use kis_trader_back.Model.{TradeRecord, BrokerOrder, BrokerContext}
use kis_trader_back.Db.{World}
use kis_trader_back.Recovery.TakeOver.{Table}
use kis_trader_back.Matcher.{
  Failure, done, MatchRequest, Candidate, candidate_of, check_context, context_changed,
  find_submission_candidates, is_context_of,
}
use kis_trader_back.Matcher.Sound.{ComesFrom, Searched, find_submission_candidates-Searched}
use kis_trader_back.Operator.Written.{and_then_done}
use kis_trader_back.Operator.Claim.{Recall}
use kis_trader_back.Operator.Collisions.{
  Identity, identity_of, is_exact_row, is_legacy_row, matches_exactly, matches_legacy, annotate,
  annotate_candidate_collisions, rows_of, annotate_over, days_of, lacks_context, least, greatest,
}
use kis_trader_back.Operator.Submission.{to_match_request, review}

All-map :
    (P : Candidate → Type 0) (f : Candidate → Candidate) (cs : List Candidate)
    → All (λ c. P (f c)) cs
    → All P (map f cs)
All-map P f [] h = tt
All-map P f (c ∷ cs) (h, hs) = (h, All-map P f cs hs)

-- Another record of the same context has the candidate's date, exchange and order number.
abbrev pub is_taken : MatchRequest → Candidate → World → Bool
is_taken q c v = is_exact_row q (identity_of c ∷ []) v.row && matches_exactly c v.row

-- A test of identities that the candidate's passes is passed by one of the list.
abbrev IsAmong : List Candidate → Candidate → Type 0
IsAmong cs c = (p : Identity → Bool) → p (identity_of c) ≡ true → any p (map identity_of cs) ≡ true

IsAmong-later :
    (x : Candidate) (all cs : List Candidate) → All (IsAmong all) cs → All (IsAmong (x ∷ all)) cs
IsAmong-later x all [] h = tt
IsAmong-later x all (c ∷ cs) (h, hs) =
    ((λ p e. or_true (p (identity_of x)) (h p e)), IsAmong-later x all cs hs)
  where
    or_true : (a : Bool) {b : Bool} → b ≡ true → (a || b) ≡ true
    or_true a e = ground arith

IsAmong-All : (cs : List Candidate) → All (IsAmong cs) cs
IsAmong-All [] = tt
IsAmong-All (c ∷ cs) = (first, IsAmong-later c cs cs (IsAmong-All cs))
  where
    first : IsAmong (c ∷ cs) c
    first p e = rw e refl

-- A row that is taken is among the rows of the query.
wider :
    (q : MatchRequest) (cs : List Candidate) (c : Candidate) (r : TradeRecord)
    → IsAmong cs c
    → is_exact_row q (identity_of c ∷ []) r ≡ true
    → is_exact_row q (map identity_of cs) r ≡ true
unfolding is_exact_row
wider q cs c r among h =
    let hit = among (λ i.
      opt_eq r.broker_order_date (some i.broker_order_date)
      && (str_eq r.exchange_code i.exchange_code && opt_eq r.order_no (some i.order_no))) in
    ground (arith, hit)

not_taken :
    (q : MatchRequest) (cs : List Candidate) (c : Candidate) (t : Table)
    → IsAmong cs c
    → find_first (matches_exactly c) (keep (is_exact_row q (map identity_of cs)) (rows_of t)) ≡ none
    → any (is_taken q c) t ≡ false
not_taken q cs c [] among h = refl
not_taken q cs c (v ∷ vs) among h = elim (Bool-cases (is_exact_row q (map identity_of cs) v.row)) [
  | inr no_row ↦
      let narrow = wider q cs c v.row among in
      let rest = not_taken q cs c vs among (rw no_row at h) in ground (arith, narrow)
  | inl row ↦ elim (Bool-cases (matches_exactly c v.row)) [
    | inl match ↦ cc (rw (row, match) at h)
    | inr differs ↦ let rest = not_taken q cs c vs among (rw (row, differs) at h) in ground arith
  ]
]

-- A candidate without its mark.
abbrev pub unmarked : Candidate → Candidate
unmarked c = record c { existing_trade_record_id = none; collision_type = none }

annotate-unmarked :
    (exact_rows legacy_rows : List TradeRecord) (c : Candidate)
    → unmarked (annotate exact_rows legacy_rows c) ≡ unmarked c
unfolding annotate
annotate-unmarked exact_rows legacy_rows c =
    elim (Option-cases (find_first (matches_exactly c) exact_rows)) [
      | inr (r, hit) ↦ rw (hit, annotate) refl
      | inl miss ↦ elim (Option-cases (find_first (matches_legacy c) legacy_rows)) [
        | inr (r, hit) ↦ rw (miss, hit, annotate) refl
        | inl none_left ↦ rw (miss, none_left, annotate) refl
      ]
    ]

ComesFrom-plain :
    (q : MatchRequest) (submitted : ℕ) (orders : List BrokerOrder) (c : Candidate)
    → ComesFrom q submitted orders c
    → c ≡ unmarked c
unfolding candidate_of
ComesFrom-plain q submitted [] c h = absurd h
ComesFrom-plain q submitted (o ∷ os) c (inl (fits, same)) = rw same refl
ComesFrom-plain q submitted (o ∷ os) c (inr later) = ComesFrom-plain q submitted os c later

annotate_free :
    (exact_rows legacy_rows : List TradeRecord) (c : Candidate)
    → (annotate exact_rows legacy_rows c).existing_trade_record_id ≡ none
    → (annotate exact_rows legacy_rows c ≡ c) × (find_first (matches_exactly c) exact_rows ≡ none)
unfolding annotate
annotate_free exact_rows legacy_rows c h =
    elim (Option-cases (find_first (matches_exactly c) exact_rows)) [
      | inr (r, hit) ↦ cc (rw (hit, annotate) at h)
      | inl miss ↦ elim (Option-cases (find_first (matches_legacy c) legacy_rows)) [
        | inr (r, hit) ↦ cc (rw (miss, hit, annotate) at h)
        | inl none_left ↦ (rw (miss, none_left, annotate) refl, miss)
      ]
    ]

-- A candidate is, but for its mark, an order of the history that fits; if it has no mark, then no other
-- record has it.
abbrev pub IsFree : MatchRequest → ℕ → List BrokerOrder → Table → Candidate → Type 0
IsFree q submitted orders t c =
    ComesFrom q submitted orders (unmarked c)
    × (c.existing_trade_record_id ≡ none
        → ComesFrom q submitted orders c × (any (is_taken q c) t ≡ false))

IsFree-annotate :
    (q : MatchRequest) (submitted : ℕ) (orders : List BrokerOrder) (all cs : List Candidate)
    (legacy_rows : List TradeRecord) (t : Table)
    → All (IsAmong all) cs
    → All (ComesFrom q submitted orders) cs
    → All
        (λ c.
          IsFree q submitted orders t
            (annotate (keep (is_exact_row q (map identity_of all)) (rows_of t)) legacy_rows c))
        cs
IsFree-annotate q submitted orders all [] legacy_rows t a f = tt
IsFree-annotate q submitted orders all (c ∷ cs) legacy_rows t (a, as_) (f, fs) =
    ((comes, free), IsFree-annotate q submitted orders all cs legacy_rows t as_ fs)
  where
    rows : List TradeRecord
    rows = keep (is_exact_row q (map identity_of all)) (rows_of t)

    comes : ComesFrom q submitted orders (unmarked (annotate rows legacy_rows c))
    comes =
        subst (ComesFrom q submitted orders)
          (ComesFrom-plain q submitted orders c f ∙ sym (annotate-unmarked rows legacy_rows c)) f

    free :
        (annotate rows legacy_rows c).existing_trade_record_id ≡ none
        → ComesFrom q submitted orders (annotate rows legacy_rows c)
          × (any (is_taken q (annotate rows legacy_rows c)) t ≡ false)
    free e =
        let (same, clear) = annotate_free rows legacy_rows c e in
        subst (λ x. ComesFrom q submitted orders x × (any (is_taken q x) t ≡ false)) (sym same)
          (f, not_taken q all c t a clear)

annotated-IsFree :
    (q : MatchRequest) (submitted : ℕ) (orders : List BrokerOrder) (raw cs : List Candidate)
    (t t' : Table)
    → All (ComesFrom q submitted orders) raw
    → annotate_candidate_collisions q raw t t' ≡ done cs
    → All (IsFree q submitted orders t) cs
unfolding annotate_candidate_collisions
annotated-IsFree q submitted orders [] cs t t' f h =
    subst (All (IsFree q submitted orders t)) (let e : [] ≡ cs = cc in e) tt
annotated-IsFree q submitted orders (c ∷ raw) cs t t' f h = elim (Bool-cases (lacks_context q)) [
  | inl lacks ↦ cc (rw lacks at h)
  | inr has ↦ over (days_of (c ∷ raw)) (rw has at h)
]
  where
    over :
        (days : List ℕ)
        → annotate_over q (c ∷ raw) days t t' ≡ done cs
        → All (IsFree q submitted orders t) cs
    over [] e = cc
    over (d ∷ ds) e =
        let rows = keep (is_exact_row q (map identity_of (c ∷ raw))) (rows_of t) in
        let legacy_rows =
          keep (is_legacy_row q (map identity_of (c ∷ raw)) (least d ds) (greatest d ds))
            (rows_of t') in
        let same : map (annotate rows legacy_rows) (c ∷ raw) ≡ cs = cc in
        subst (All (IsFree q submitted orders t)) same (
          All-map (IsFree q submitted orders t) (annotate rows legacy_rows) (c ∷ raw) (
            IsFree-annotate q submitted orders (c ∷ raw) (c ∷ raw) legacy_rows t
              (IsAmong-All (c ∷ raw)) f))

pub check_context_done :
    (why : Failure) (b : _) (environment : _) (hash : Option String)
    (current : Option BrokerContext) {x : Unit}
    → check_context why b environment hash current ≡ done x
    → (c : BrokerContext) × (current ≡ some c) × (is_context_of b environment hash c ≡ true)
check_context_done why b environment hash none h = cc
check_context_done why b environment hash (some c) h = (c, refl, ground arith)

-- What a review found: the search, the context read once more, and free candidates.
pub record Reviewed (e : Recall) (seen : TradeRecord) (t : Table) (cs : List Candidate)
    : Type 0 where
  pub raw : List Candidate
  pub search : Searched (to_match_request seen) (e.context 80 seen.broker) e.history raw
  pub context : BrokerContext
  pub read_again : e.context 81 seen.broker ≡ some context
  pub unchanged :
      is_context_of seen.broker seen.broker_environment seen.broker_account_hash context ≡ true
  pub free : All (IsFree (to_match_request seen) search.submitted search.orders (e.meddle 81 t)) cs

pub review_done :
    (e : Recall) (seen : TradeRecord) (t : Table) (cs : List Candidate)
    → review e seen t ≡ done cs
    → Reviewed e seen t cs
unfolding review
review_done e seen t cs h =
    let (raw, searched, rest) =
      and_then_done
        (find_submission_candidates (to_match_request seen) (e.context 80 seen.broker) e.history) _
        h in
    let (x, checked, last) =
      and_then_done
        (check_context context_changed seen.broker seen.broker_environment seen.broker_account_hash
          (e.context 81 seen.broker))
        _ rest in
    let (c, current, same) = check_context_done context_changed _ _ _ _ checked in
    let s = find_submission_candidates-Searched (to_match_request seen) _ _ raw searched in
    record {
      raw = raw;
      search = s;
      context = c;
      read_again = current;
      unchanged = same;
      free =
          annotated-IsFree (to_match_request seen) s.submitted s.orders raw cs (e.meddle 81 t)
            (e.meddle 82 t) s.sound last;
    }
