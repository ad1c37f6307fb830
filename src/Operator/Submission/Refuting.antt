-- ===== src/Operator/Submission/Refuting.antt =====
-- What a confirmation that an order was never submitted rests on.
use mathlib.Core.Path.{subst}
use kis_trader_back.Common.{
  ℕ, ◌≡◌, refl, ap, true, false, String, some, List, [], ◌∷◌, All, arith, Bool-cases, inl, inr,
  is_empty, trim, if◌then◌else◌,
}
use kis_trader_back.Model.{
  status_eq, TradeRecord, BrokerOrder, BrokerContext, confirmed_not_submitted, submission_unknown,
  failed as failed_status, action_not_submitted,
}
use kis_trader_back.Db.{World, audit}
use kis_trader_back.Recovery.TakeOver.{Table}
use kis_trader_back.Matcher.{
  Answer, failed, done, MatchRequest, Candidate, is_candidate, check_context, context_changed,
  find_submission_candidates, candidates_exist, is_context_of,
}
use kis_trader_back.Matcher.Sound.{is_covered, Searched, find_submission_candidates-Searched}
use kis_trader_back.Operator.Claim.{Recall, require_actor, find_unknown_submission}
use kis_trader_back.Operator.Written.{Transacted, transact_done, at_table_done, with_unknown_done}
use kis_trader_back.Operator.Submission.{
  to_match_request, fail_update, resolve_as_failed, is_nil, confirm_not_submitted,
}
use kis_trader_back.Operator.Submission.Reviews.{check_context_done}

none_fits :
    (q : MatchRequest) (t : ℕ) (os : List BrokerOrder)
    → All (λ o. is_covered q t [] o ≡ true) os
    → All (λ o. is_candidate q t o ≡ false) os
none_fits q t [] h = tt
none_fits q t (o ∷ os) (h, hs) = (ground arith, none_fits q t os hs)

-- The record `seen` was given up: what was read, and what was written.
pub record Refuted (e : Recall) (met : Table) (actor : String) (seen : TradeRecord) (w : World)
    (t' : Table) : Type 0 where
  pub submitted : ℕ
  pub has_time : seen.submission_started_at ≡ some submitted
  pub orders : List BrokerOrder
  pub were_read : e.history ≡ some orders
  pub no_order : All (λ o. is_candidate (to_match_request seen) submitted o ≡ false) orders
  pub context : BrokerContext
  pub read_again : e.context 81 seen.broker ≡ some context
  pub context_matches :
      is_context_of seen.broker seen.broker_environment seen.broker_account_hash context ≡ true
  pub written :
      Transacted seen.id
        (fail_update seen confirmed_not_submitted e.now actor)
        (audit action_not_submitted actor (some submission_unknown) (some failed_status))
        (e.meddle 83 met)
        w
        t'
  pub was_unknown : status_eq written.before.row.status submission_unknown ≡ true
  pub is_failed : w.row.status ≡ failed_status
  pub has_resolution : w.row.submission_resolution ≡ some confirmed_not_submitted

resolve_as_failed_done :
    (e : Recall) (seen : TradeRecord) (actor : String) (t : Table) {w : World} {t' : Table}
    → resolve_as_failed e seen confirmed_not_submitted actor t ≡ (done w, t')
    → Transacted seen.id
        (fail_update seen confirmed_not_submitted e.now actor)
        (audit action_not_submitted actor (some submission_unknown) (some failed_status))
        (e.meddle 83 t)
        w
        t'
unfolding resolve_as_failed fail_update
resolve_as_failed_done e seen actor t h =
    transact_done seen.id (fail_update seen confirmed_not_submitted e.now actor)
      (audit action_not_submitted actor (some submission_unknown) (some failed_status))
      (e.meddle 83 t) (λ r. refl) h

nil_done :
    (cs : List Candidate) (t : Table) {r : Answer World × Table} {w : World} {t' : Table}
    → (if is_nil cs then r else (failed candidates_exist, t)) ≡ (done w, t')
    → (cs ≡ []) × (r ≡ (done w, t'))
nil_done [] t h = (refl, h)
nil_done (c ∷ cs) t h = cc

refuted :
    (e : Recall) (seen : TradeRecord) (actor : String) (met : Table) (cs : List Candidate)
    (c : BrokerContext) {w : World} {t' : Table}
    → Searched (to_match_request seen) (e.context 80 seen.broker) e.history cs
    → e.context 81 seen.broker ≡ some c
    → is_context_of seen.broker seen.broker_environment seen.broker_account_hash c ≡ true
    → cs ≡ []
    → resolve_as_failed e seen confirmed_not_submitted actor met ≡ (done w, t')
    → Refuted e met actor seen w t'
unfolding fail_update
refuted e seen actor met cs c s again same empty h =
    let done_so = resolve_as_failed_done e seen actor met h in
    let claimed = done_so.passed in
    record {
      submitted = s.submitted;
      has_time = s.has_time;
      orders = s.orders;
      were_read = s.were_read;
      no_order = none_fits (to_match_request seen) s.submitted s.orders (
          subst
            (λ fs. All (λ o. is_covered (to_match_request seen) s.submitted fs o ≡ true) s.orders)
            empty s.complete);
      context = c;
      read_again = again;
      context_matches = same;
      written = done_so;
      was_unknown = ground (arith, claimed);
      is_failed = ap (λ v. v.row.status) done_so.changed;
      has_resolution = ap (λ v. v.row.submission_resolution) done_so.changed;
    }

-- If `confirmNotSubmitted` succeeds, then the record was SUBMISSION_UNKNOWN, the broker's history
-- was read and holds no order of its exchange, stock, side and quantity within ten minutes of its
-- submission, and the broker context was still the record's own. When it was written, the row was
-- still unresolved in that context; it became FAILED, with one audit entry.
pub confirm_not_submitted-Refuted :
    (e : Recall) (id actor : String) (t : Table) (w : World) (t' : Table)
    → confirm_not_submitted e id actor t ≡ (done w, t')
    → (who : String) × (seen : World) × (require_actor actor ≡ done who)
      × (find_unknown_submission (trim id) (e.meddle 80 t) ≡ some seen)
      × Refuted e (e.meddle 80 t) who seen.row w t'
unfolding confirm_not_submitted
confirm_not_submitted-Refuted e id actor t w t' h = elim (Bool-cases (is_empty (trim id))) [
  | inl blank ↦ cc (rw (blank, if◌then◌else◌) at h)
  | inr given ↦
      let met = e.meddle 80 t in
      let (who, named, h1) =
        at_table_done (require_actor actor) t _ (rw (given, if◌then◌else◌) at h) in
      let (seen, found, h2) = with_unknown_done (find_unknown_submission (trim id) met) met _ h1 in
      let (cs, searched, h3) =
        at_table_done
          (find_submission_candidates (to_match_request seen.row) (e.context 80 seen.row.broker)
            e.history)
          met _ h2 in
      let (x, checked, h4) =
        at_table_done
          (check_context context_changed seen.row.broker seen.row.broker_environment
            seen.row.broker_account_hash (e.context 81 seen.row.broker))
          met _ h3 in
      let (c, again, same) = check_context_done context_changed _ _ _ _ checked in
      let (empty, resolved) = nil_done cs met h4 in
      (
        who,
        seen,
        named,
        found,
        refuted e seen.row who met cs c
            (find_submission_candidates-Searched (to_match_request seen.row) _ _ cs searched) again
            same empty resolved,
      )
]
