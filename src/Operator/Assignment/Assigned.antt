-- ===== src/Operator/Assignment/Assigned.antt =====
-- What an assignment of a context has checked and written.
use text.Mathlib.TextEquality.{eq_iff}
use mathlib.Core.Path.{subst}
use kis_trader_back.Common.{
  ◌≡◌, refl, sym, ap, ◌∙◌, String, true, false, not, Option, none, some, arith, is_none, ◌||◌, trim,
  str_eq,
}
use kis_trader_back.Model.{
  Broker, BrokerContext, submission_unknown, status_eq, CancellationStatus, cancellation_eq,
  legacy_context_assigned,
}
use kis_trader_back.Db.{World, audit}
use kis_trader_back.Recovery.TakeOver.{Table}
use kis_trader_back.Matcher.{done}
use kis_trader_back.Operator.Claim.{Recall, find_row, require_actor}
use kis_trader_back.Operator.Written.{Transacted, transact_done, at_table_done}
use kis_trader_back.Operator.Cancellation.Reading.{if_passed}
use kis_trader_back.Operator.Assignment.{
  matches_token, assign_update, assign_row, assign_in, assign_found, assign_current_context,
}

-- The row of the table got the context; it had none, and something of it was unknown.
pub record Assigned (id actor : String) (b : Broker) (c : BrokerContext) (t : Table) (w : World)
    (t' : Table) : Type 0 where
  pub status : _
  pub written :
      Transacted id
        (assign_update b c)
        (audit legacy_context_assigned actor (some status) (some status))
        t
        w
        t'
  pub had_no_context :
      (is_none written.before.row.broker_environment ≡ true)
      × (is_none written.before.row.broker_account_hash ≡ true)
  pub was_unknown :
      (status_eq written.before.row.status submission_unknown
        || cancellation_eq written.before.row.cancellation_status (some CancellationStatus.unknown))
      ≡ true
  pub got_context :
      (w.row.broker_environment ≡ some c.environment)
      × (w.row.broker_account_hash ≡ some c.account_hash)
  pub same_status : w.row.status ≡ written.before.row.status

assign_row_done :
    (id actor : String) (b : Broker) (c : BrokerContext) (t : Table) (o : Option World) {w : World}
    {t' : Table}
    → assign_row id b c actor t o ≡ (done w, t')
    → Assigned id actor b c t w t'
unfolding assign_row
assign_row_done id actor b c t none h = cc
assign_row_done id actor b c t (some v) h =
    let done_so =
      transact_done id (assign_update b c)
        (audit legacy_context_assigned actor (some v.row.status) (some v.row.status)) t (λ r. refl)
        h in
    let claimed = done_so.passed in
    record {
      status = v.row.status;
      written = done_so;
      had_no_context = (ground (arith, claimed), ground (arith, claimed));
      was_unknown = ground (arith, claimed);
      got_context = (
        ap (λ v. v.row.broker_environment) done_so.changed,
        ap (λ v. v.row.broker_account_hash) done_so.changed,
      );
      same_status = ap (λ v. v.row.status) done_so.changed;
    }

matches_token-eq :
    (bind : BrokerContext → String) (c : BrokerContext) (token : String)
    → not (matches_token bind c token) ≡ false
    → trim token ≡ bind c
unfolding matches_token
matches_token-eq bind c token h =
    (eq_iff (trim token) (bind c)).0
      (let same : str_eq (trim token) (bind c) ≡ true = ground arith in same)

assign_in_done :
    (bind : BrokerContext → String) (e : Recall) (id token actor : String) (b : Broker) (t : Table)
    (o : Option BrokerContext) {w : World} {t' : Table}
    → assign_in bind e id token actor b t o ≡ (done w, t')
    → (c : BrokerContext) × (o ≡ some c)
      × (trim token ≡ bind c)
      × Assigned id actor b c (e.meddle 91 t) w t'
unfolding assign_in
assign_in_done bind e id token actor b t none h = cc
assign_in_done bind e id token actor b t (some c) h =
    let (matched, h1) = if_passed (not (matches_token bind c token)) _ t _ h in
    (
      c,
      refl,
      matches_token-eq bind c token matched,
      assign_row_done id actor b c (e.meddle 91 t) (find_row id (e.meddle 91 t)) h1,
    )

assign_found_done :
    (bind : BrokerContext → String) (e : Recall) (id token actor : String) (t : Table)
    (o : Option World) {w : World} {t' : Table}
    → assign_found bind e id token actor t o ≡ (done w, t')
    → (target : World) × (o ≡ some target)
      × (c : BrokerContext) × (e.context 90 target.row.broker ≡ some c)
      × (trim token ≡ bind c)
      × Assigned id actor target.row.broker c (e.meddle 91 t) w t'
unfolding assign_found
assign_found_done bind e id token actor t none h = cc
assign_found_done bind e id token actor t (some target) h =
    let (c, current, matched, assigned) =
      assign_in_done bind e id token actor target.row.broker t (e.context 90 target.row.broker) h in
    (target, refl, c, current, matched, assigned)

-- If `assignCurrentContext` succeeds with the token of a preview, and the token of no other context
-- is the same, then the context that is assigned is the one that the operator saw in the preview,
-- and it was still the configured one. The record had no context and an unknown submission or
-- cancellation; it kept its status, with one audit entry, and the unique index holds of the table.
pub assign_current_context-Assigned :
    (bind : BrokerContext → String) (e : Recall) (id actor token : String) (preview : BrokerContext)
    (t : Table) (w : World) (t' : Table)
    → ((c : BrokerContext) → bind preview ≡ bind c → preview ≡ c)
    → trim token ≡ bind preview
    → assign_current_context bind e id token actor t ≡ (done w, t')
    → (who : String) × (target : World) × (require_actor actor ≡ done who)
      × (find_row id (e.meddle 90 t) ≡ some target)
      × (e.context 90 target.row.broker ≡ some preview)
      × Assigned id who target.row.broker preview (e.meddle 91 (e.meddle 90 t)) w t'
unfolding assign_current_context
assign_current_context-Assigned bind e id actor token preview t w t' apart seen h =
    let (who, named, h1) = at_table_done (require_actor actor) t _ h in
    let (target, found, c, current, matched, assigned) =
      assign_found_done bind e id token who (e.meddle 90 t) (find_row id (e.meddle 90 t)) h1 in
    let same = apart c (sym seen ∙ matched) in
    (
      who,
      target,
      named,
      found,
      subst (λ x. e.context 90 target.row.broker ≡ some x) (sym same) current,
      subst (λ x. Assigned id who target.row.broker x (e.meddle 91 (e.meddle 90 t)) w t') (sym same)
          assigned,
    )
