-- ===== src/Operator/Submission/Linking.antt =====
-- What a link that succeeded rests on.
use mathlib.Core.Path.{subst}
use kis_trader_back.Common.{
  ℕ, ◌≡◌, refl, ap, Bool, true, false, String, Option, none, some, List, [], ◌∷◌, any, find_first,
  All, arith, Bool-cases, inl, inr, opt_eq,
}
use kis_trader_back.Model.{
  status_eq, TradeRecord, BrokerOrder, BrokerContext, broker_order_linked, submission_unknown,
  pending,
}
use kis_trader_back.Db.{World, audit}
use kis_trader_back.Recovery.TakeOver.{Table}
use kis_trader_back.Matcher.{done, Candidate, is_context_of}
use kis_trader_back.Matcher.Sound.{ComesFrom}
use kis_trader_back.Operator.Written.{Transacted, transact_done, at_table_done, with_unknown_done}
use kis_trader_back.Operator.Claim.{Recall, require_actor, find_unknown_submission}
use kis_trader_back.Operator.Submission.{
  CandidateInput, to_match_request, normalize_identity, is_selected, link_update, review, link_row,
  link_unless, link_selected, link_candidate,
}
use kis_trader_back.Operator.Submission.Reviews.{is_taken, IsFree, Reviewed, review_done}

find_first_holds :
    (p : Candidate → Bool) (P : Candidate → Type 0) (cs : List Candidate) {c : Candidate}
    → All P cs
    → find_first p cs ≡ some c
    → (p c ≡ true) × P c
find_first_holds p P [] h e = cc
find_first_holds p P (x ∷ xs) {c} (h, hs) e = elim (Bool-cases (p x)) [
  | inl hit ↦
      let same : x ≡ c = cc (rw hit at e) in (subst (λ y. p y ≡ true) same hit, subst P same h)
  | inr miss ↦ find_first_holds p P xs hs (rw miss at e)
]

-- The record `seen` was linked to the candidate: what was read, and what was written.
pub record Linked (e : Recall) (met : Table) (actor : String) (seen : TradeRecord) (c : Candidate)
    (w : World) (t' : Table) : Type 0 where
  pub submitted : ℕ
  pub has_time : seen.submission_started_at ≡ some submitted
  pub orders : List BrokerOrder
  pub were_read : e.history ≡ some orders
  pub in_history : ComesFrom (to_match_request seen) submitted orders c
  pub not_taken : any (is_taken (to_match_request seen) c) (e.meddle 81 met) ≡ false
  pub context : BrokerContext
  pub read_again : e.context 81 seen.broker ≡ some context
  pub context_matches :
      is_context_of seen.broker seen.broker_environment seen.broker_account_hash context ≡ true
  pub written :
      Transacted seen.id
        (link_update seen c e.now actor)
        (audit broker_order_linked actor (some submission_unknown) (some pending))
        (e.meddle 83 met)
        w
        t'
  pub was_unknown : status_eq written.before.row.status submission_unknown ≡ true
  pub same_account : opt_eq written.before.row.broker_account_hash seen.broker_account_hash ≡ true
  pub is_pending : w.row.status ≡ pending
  pub has_number : w.row.order_no ≡ some c.order_no
  pub has_date : w.row.broker_order_date ≡ some c.order_date

link_unless_done :
    (o : Option String) (e : Recall) (seen : TradeRecord) (actor : String) (c : Candidate)
    (t : Table) {w : World} {t' : Table}
    → link_unless o e seen actor c t ≡ (done w, t')
    → (o ≡ none) × (link_row e seen actor c t ≡ (done w, t'))
unfolding link_unless
link_unless_done none e seen actor c t h = (refl, h)
link_unless_done (some id) e seen actor c t h = cc

link_selected_done :
    (found : Option Candidate) (e : Recall) (seen : TradeRecord) (actor : String) (t : Table)
    {w : World} {t' : Table}
    → link_selected e seen actor found t ≡ (done w, t')
    → (c : Candidate) × (found ≡ some c)
      × (c.existing_trade_record_id ≡ none)
      × (link_row e seen actor c t ≡ (done w, t'))
unfolding link_selected
link_selected_done none e seen actor t h = cc
link_selected_done (some c) e seen actor t h =
    let (unlinked, written) = link_unless_done c.existing_trade_record_id e seen actor c t h in
    (c, refl, unlinked, written)

link_row_done :
    (e : Recall) (seen : TradeRecord) (actor : String) (c : Candidate) (t : Table) {w : World}
    {t' : Table}
    → link_row e seen actor c t ≡ (done w, t')
    → Transacted seen.id
        (link_update seen c e.now actor)
        (audit broker_order_linked actor (some submission_unknown) (some pending))
        (e.meddle 83 t)
        w
        t'
unfolding link_row
link_row_done e seen actor c t h =
    transact_done seen.id (link_update seen c e.now actor)
      (audit broker_order_linked actor (some submission_unknown) (some pending)) (e.meddle 83 t)
      (λ r. refl) h

selected_done :
    (e : Recall) (seen : TradeRecord) (actor : String) (met : Table) (cs : List Candidate)
    (p : Candidate → Bool) {w : World} {t' : Table}
    → Reviewed e seen met cs
    → link_selected e seen actor (find_first p cs) met ≡ (done w, t')
    → (c : Candidate) × (p c ≡ true) × Linked e met actor seen c w t'
selected_done e seen actor met cs p r h =
    let (c, hit, unlinked, written) = link_selected_done (find_first p cs) e seen actor met h in
    let (selected, whole) =
      find_first_holds p
        (IsFree (to_match_request seen) r.search.submitted r.search.orders (e.meddle 81 met)) cs
        r.free hit in
    let (comes, clear) = whole.1 unlinked in
    let done_so = link_row_done e seen actor c met written in
    let claimed = done_so.passed in
    (
      c,
      selected,
      record {
        submitted = r.search.submitted;
        has_time = r.search.has_time;
        orders = r.search.orders;
        were_read = r.search.were_read;
        in_history = comes;
        not_taken = clear;
        context = r.context;
        read_again = r.read_again;
        context_matches = r.unchanged;
        written = done_so;
        was_unknown = ground (arith, claimed);
        same_account = ground (arith, claimed);
        is_pending = ap (λ v. v.row.status) done_so.changed;
        has_number = ap (λ v. v.row.order_no) done_so.changed;
        has_date = ap (λ v. v.row.broker_order_date) done_so.changed;
      },
    )

-- If `linkCandidate` succeeds, then the record that it names was SUBMISSION_UNKNOWN, and the
-- candidate is the one that the operator named by date, exchange and number: an order of the
-- broker's history of the record's exchange, stock, side and quantity within ten minutes of its
-- submission, which no other record of the same context had when that was looked up, the broker
-- context being still the record's own. When it was written, the row was still unresolved in that
-- context; it became PENDING under the candidate's number, date and time, with one audit entry, and
-- the unique index holds of the table.
pub link_candidate-Linked :
    (e : Recall) (input : CandidateInput) (actor : String) (t : Table) (w : World) (t' : Table)
    → link_candidate e input actor t ≡ (done w, t')
    → (identity : CandidateInput) × (who : String) × (seen : World) × (c : Candidate)
      × (normalize_identity input ≡ done identity)
      × (require_actor actor ≡ done who)
      × (find_unknown_submission identity.trade_record_id (e.meddle 80 t) ≡ some seen)
      × (is_selected identity c ≡ true)
      × Linked e (e.meddle 80 t) who seen.row c w t'
unfolding link_candidate
link_candidate-Linked e input actor t w t' h =
    let met = e.meddle 80 t in
    let (identity, normalized, h1) = at_table_done (normalize_identity input) t _ h in
    let (who, named, h2) = at_table_done (require_actor actor) t _ h1 in
    let (seen, found, h3) =
      with_unknown_done (find_unknown_submission identity.trade_record_id met) met _ h2 in
    let (cs, reviewed, h4) = at_table_done (review e seen.row met) met _ h3 in
    let (c, selected, linked) =
      selected_done e seen.row who met cs (is_selected identity)
        (review_done e seen.row met cs reviewed) h4 in
    (identity, who, seen, c, normalized, named, found, selected, linked)
