-- ===== src/Operator/Submission.antt =====
-- `inspectCandidates`, `linkCandidate`, `confirmNotSubmitted` and `confirmMatchesExisting`.
pub mod Reviews
pub mod Linking
pub mod Refuting
use kis_trader_back.Common.{
  ℕ, String, Bool, true, false, ◌&&◌, not, Option, none, some, List, [], ◌∷◌, if◌then◌else◌, str_eq,
  opt_eq, is_empty, trim, normalize, find_first, every, length, is_some, is_none, ◌||◌, ◌==◌,
}
use kis_trader_back.Model.{
  TradeRecord, broker_eq, opt_environment_eq, submission_unknown, pending, failed as failed_status,
  status_eq, SubmissionResolution, linked_broker_order, confirmed_not_submitted,
  matched_existing_trade_record, broker_order_linked, action_not_submitted, matched_existing,
  Action,
}
use kis_trader_back.Db.{World, Update, audit}
use kis_trader_back.Dates.{codes, is_digit}
use kis_trader_back.Recovery.TakeOver.{Table}
use kis_trader_back.Matcher.{
  Answer, failed, done, and_then, Failure, invalid_identity, not_unresolved, context_changed,
  candidate_gone, collides, candidates_exist, not_matching_existing, check_context, MatchRequest,
  Candidate, CollisionType, find_submission_candidates,
}
use kis_trader_back.Operator.Claim.{Recall, transact, require_actor, find_unknown_submission}
use kis_trader_back.Operator.Collisions.{annotate_candidate_collisions}

-- `toMatchRequest`.
abbrev pub to_match_request : TradeRecord → MatchRequest
to_match_request r = record {
  trade_record_id = r.id;
  broker = r.broker;
  market = r.market;
  exchange_code = r.exchange_code;
  stock_code = r.stock_code;
  side = r.side;
  quantity = r.quantity;
  submission_started_at = r.submission_started_at;
  broker_environment = r.broker_environment;
  broker_account_hash = r.broker_account_hash;
}

pub record CandidateInput : Type 0 where
  pub trade_record_id : String
  pub broker_order_date : String
  pub exchange_code : String
  pub order_no : String

is_eight_digits : String → Bool
unfolding codes is_digit
is_eight_digits s = length (codes s) == 8 && every is_digit (codes s)

-- `normalizeIdentity`.
unfoldable pub normalize_identity : CandidateInput → Answer CandidateInput
unfolding trim normalize is_eight_digits
normalize_identity input =
    let tidy : CandidateInput = record {
      trade_record_id = trim input.trade_record_id;
      broker_order_date = trim input.broker_order_date;
      exchange_code = normalize input.exchange_code;
      order_no = trim input.order_no;
    } in
    if is_empty tidy.trade_record_id
      || not (is_eight_digits tidy.broker_order_date)
      || is_empty tidy.exchange_code
      || is_empty tidy.order_no
    then failed invalid_identity
    else done tidy

abbrev pub is_selected : CandidateInput → Candidate → Bool
is_selected i c =
    str_eq c.order_date i.broker_order_date
    && str_eq (normalize c.exchange_code) i.exchange_code
    && str_eq (trim c.order_no) i.order_no

-- The `where` of the claim: the record is unresolved, in the context in which it was read.
abbrev pub is_still_unknown : TradeRecord → TradeRecord → Bool
is_still_unknown seen r =
    broker_eq r.broker seen.broker
    && status_eq r.status submission_unknown
    && opt_environment_eq r.broker_environment seen.broker_environment
    && opt_eq r.broker_account_hash seen.broker_account_hash

abbrev pub link_update : TradeRecord → Candidate → ℕ → String → Update
link_update seen c now actor = record {
  guard = is_still_unknown seen;
  change = λ r. record r {
    status = pending;
    order_no = some c.order_no;
    broker_order_date = some c.order_date;
    broker_order_time = some c.order_time;
    submission_resolved_at = some now;
    submission_resolved_by = some actor;
    submission_resolution = some linked_broker_order;
    broker_message = some "Broker order linked by operator recovery";
  };
}

failure_message : SubmissionResolution → String
failure_message confirmed_not_submitted = "Operator confirmed no matching broker order"
failure_message _ = "Operator confirmed broker order belongs to an existing TradeRecord"

unfoldable pub fail_update : TradeRecord → SubmissionResolution → ℕ → String → Update
unfolding failure_message
fail_update seen resolution now actor = record {
  guard = is_still_unknown seen;
  change = λ r. record r {
    status = failed_status;
    submission_resolved_at = some now;
    submission_resolved_by = some actor;
    submission_resolution = some resolution;
    broker_message = some (failure_message resolution);
  };
}

action_of : SubmissionResolution → Action
action_of confirmed_not_submitted = action_not_submitted
action_of _ = matched_existing

-- The candidates of a record that was read, with their collisions; the context is compared once more
-- after the search.
unfoldable pub review : Recall → TradeRecord → Table → Answer (List Candidate)
unfolding find_submission_candidates annotate_candidate_collisions
review e seen t =
    and_then
      (find_submission_candidates (to_match_request seen) (e.context 80 seen.broker) e.history)
      λ cs.
        and_then
          (check_context context_changed seen.broker seen.broker_environment
            seen.broker_account_hash (e.context 81 seen.broker))
          λ _.
            annotate_candidate_collisions (to_match_request seen) cs (e.meddle 81 t) (e.meddle 82 t)

-- What is refused or found before the transaction leaves the table to the other tasks.
abbrev pub is_nil : List Candidate → Bool
is_nil [] = true
is_nil _ = false

abbrev pub at_table :
    {A : Type 0} → Answer A → Table → (A → Answer World × Table) → Answer World × Table
at_table (failed why) t f = (failed why, t)
at_table (done a) t f = f a

unfoldable pub link_row : Recall → TradeRecord → String → Candidate → Table → Answer World × Table
unfolding transact
link_row e seen actor c t =
    transact seen.id (link_update seen c e.now actor)
      (audit broker_order_linked actor (some submission_unknown) (some pending)) (e.meddle 83 t)

unfoldable pub link_unless :
    Option String → Recall → TradeRecord → String → Candidate → Table → Answer World × Table
unfolding link_row
link_unless (some id) e seen actor c t = (failed (collides id), t)
link_unless none e seen actor c t = link_row e seen actor c t

unfoldable pub link_selected :
    Recall → TradeRecord → String → Option Candidate → Table → Answer World × Table
unfolding link_unless
link_selected e seen actor none t = (failed candidate_gone, t)
link_selected e seen actor (some c) t = link_unless c.existing_trade_record_id e seen actor c t

abbrev pub with_unknown :
    Option World → Table → (TradeRecord → Answer World × Table) → Answer World × Table
with_unknown none t f = (failed not_unresolved, t)
with_unknown (some w) t f = f w.row

-- `linkCandidate`, less the entry of a watched stock's log that follows it.
unfoldable pub link_candidate : Recall → CandidateInput → String → Table → Answer World × Table
unfolding normalize_identity require_actor find_unknown_submission review link_selected
link_candidate e input actor t = at_table (normalize_identity input) t λ identity.
    at_table (require_actor actor) t λ who.
      let met = e.meddle 80 t in
      with_unknown (find_unknown_submission identity.trade_record_id met) met λ seen.
        at_table (review e seen met) met
          λ cs. link_selected e seen who (find_first (is_selected identity) cs) met

unfoldable pub resolve_as_failed :
    Recall → TradeRecord → SubmissionResolution → String → Table → Answer World × Table
unfolding transact fail_update action_of
resolve_as_failed e seen resolution actor t =
    transact seen.id (fail_update seen resolution e.now actor)
      (audit (action_of resolution) actor (some submission_unknown) (some failed_status))
      (e.meddle 83 t)

-- `confirmNotSubmitted` asks only that the search finds nothing.
unfoldable pub confirm_not_submitted : Recall → String → String → Table → Answer World × Table
unfolding trim require_actor find_unknown_submission find_submission_candidates resolve_as_failed
confirm_not_submitted e id actor t =
    if is_empty (trim id)
    then (failed invalid_identity, t)
    else at_table (require_actor actor) t λ who.
      let met = e.meddle 80 t in
      with_unknown (find_unknown_submission (trim id) met) met λ seen.
        at_table
          (find_submission_candidates (to_match_request seen) (e.context 80 seen.broker) e.history)
          met
          λ cs.
            at_table
              (check_context context_changed seen.broker seen.broker_environment
                seen.broker_account_hash (e.context 81 seen.broker))
              met
              λ _.
                if is_nil cs
                then resolve_as_failed e seen confirmed_not_submitted who met
                else (failed candidates_exist, met)

-- The selected candidate is the order of the record that the operator named.
abbrev pub is_same_existing : String → Option Candidate → Bool
is_same_existing existing none = false
is_same_existing existing (some c) =
    opt_eq c.existing_trade_record_id (some existing) && is_some c.collision_type

unfoldable pub match_selected :
    Recall → TradeRecord → String → String → Option Candidate → Table → Answer World × Table
unfolding resolve_as_failed
match_selected e seen existing actor found t =
    if is_none found
    then (failed candidate_gone, t)
    else if not (is_same_existing existing found)
    then (failed not_matching_existing, t)
    else resolve_as_failed e seen matched_existing_trade_record actor t

-- `confirmMatchesExisting`.
unfoldable pub confirm_matches_existing :
    Recall → CandidateInput → String → String → Table → Answer World × Table
unfolding trim normalize_identity require_actor find_unknown_submission review match_selected
confirm_matches_existing e input existing actor t =
    at_table (normalize_identity input) t λ identity.
      if is_empty (trim existing) || str_eq (trim existing) identity.trade_record_id
      then (failed invalid_identity, t)
      else at_table (require_actor actor) t λ who.
        let met = e.meddle 80 t in
        with_unknown (find_unknown_submission identity.trade_record_id met) met λ seen.
          at_table (review e seen met) met λ cs.
            match_selected e seen (trim existing) who (find_first (is_selected identity) cs) met
