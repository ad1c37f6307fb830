-- ===== src/Operator/Cancellation/Reading.antt =====
-- What is read before an operator's resolution of an unknown cancellation is decided.
use kis_trader_back.Common.{
  ◌≡◌, refl, Bool, true, false, not, String, Option, none, some, List, arith, is_empty, trim,
  if◌then◌else◌,
}
use kis_trader_back.Model.{BrokerOrder, UnfilledOrder, BrokerContext}
use kis_trader_back.Db.{World}
use kis_trader_back.Recovery.TakeOver.{Table}
use kis_trader_back.Matcher.{
  Answer, Failure, failed, done, check_context, context_mismatch, is_context_of,
}
use kis_trader_back.Operator.Claim.{Recall, require_actor}
use kis_trader_back.Operator.Written.{at_table_done}
use kis_trader_back.Operator.Cancellation.{
  find_unknown_cancellation, has_stored_identity, with_reads, with_cancellation, with_broker_state,
}
use kis_trader_back.Operator.Submission.Reviews.{check_context_done}

with_cancellation_done :
    (o : Option World) (t : Table) (f : World → Answer World × Table) {w : World} {t' : Table}
    → with_cancellation o t f ≡ (done w, t')
    → (seen : World) × (o ≡ some seen) × (f seen ≡ (done w, t'))
with_cancellation_done none t f h = cc
with_cancellation_done (some seen) t f h = (seen, refl, h)

reads_done :
    (history : Option (List BrokerOrder)) (unfilled : Option (List UnfilledOrder)) (t : Table)
    (f : List BrokerOrder → List UnfilledOrder → Answer World × Table) {w : World} {t' : Table}
    → with_reads history unfilled t f ≡ (done w, t')
    → (orders : List BrokerOrder) × (listed : List UnfilledOrder) × (history ≡ some orders)
      × (unfilled ≡ some listed)
      × (f orders listed ≡ (done w, t'))
unfolding with_reads
reads_done none unfilled t f h = cc
reads_done (some orders) none t f h = cc
reads_done (some orders) (some listed) t f h = (orders, listed, refl, refl, h)

pub if_passed :
    (b : Bool) (why : Failure) (t : Table) (r : Answer World × Table) {w : World} {t' : Table}
    → (if b then (failed why, t) else r) ≡ (done w, t')
    → (b ≡ false) × (r ≡ (done w, t'))
if_passed true why t r h = cc
if_passed false why t r h = (refl, h)

-- What was read before the outcome was decided: the record, UNKNOWN and identified, both lists of its
-- orders, and its own context before and after them.
pub record Read (e : Recall) (id : String) (t : Table) (seen : World) (orders : List BrokerOrder)
    (listed : List UnfilledOrder) : Type 0 where
  pub found : find_unknown_cancellation (trim id) (e.meddle 84 t) ≡ some seen
  pub identified : has_stored_identity seen.row ≡ true
  pub history_read : e.history ≡ some orders
  pub open_read : e.unfilled ≡ some listed
  pub earlier : BrokerContext
  pub read_before : e.context 84 seen.row.broker ≡ some earlier
  pub earlier_matches :
      is_context_of seen.row.broker seen.row.broker_environment seen.row.broker_account_hash earlier
      ≡ true
  pub later : BrokerContext
  pub read_after : e.context 85 seen.row.broker ≡ some later
  pub later_matches :
      is_context_of seen.row.broker seen.row.broker_environment seen.row.broker_account_hash later
      ≡ true

pub double_not : {b : Bool} → not b ≡ false → b ≡ true
double_not h = ground arith

pub with_broker_state_done :
    (e : Recall) (id actor : String) (t : Table)
    (f : World → String → List BrokerOrder → List UnfilledOrder → Table → Answer World × Table)
    {w : World} {t' : Table}
    → with_broker_state e id actor t f ≡ (done w, t')
    → (who : String) × (seen : World) × (orders : List BrokerOrder) × (listed : List UnfilledOrder)
      × (require_actor actor ≡ done who)
      × Read e id t seen orders listed
      × (f seen who orders listed (e.meddle 84 t) ≡ (done w, t'))
unfolding with_broker_state
with_broker_state_done e id actor t f h =
    let met = e.meddle 84 t in
    let (given, h0) = if_passed (is_empty (trim id)) _ t _ h in
    let (who, named, h1) = at_table_done (require_actor actor) t _ h0 in
    let (seen, found, h2) =
      with_cancellation_done (find_unknown_cancellation (trim id) met) met _ h1 in
    let (identified, h3) = if_passed (not (has_stored_identity seen.row)) _ met _ h2 in
    let (x, checked, h4) =
      at_table_done
        (check_context context_mismatch seen.row.broker seen.row.broker_environment
          seen.row.broker_account_hash (e.context 84 seen.row.broker))
        met _ h3 in
    let (orders, listed, history_read, open_read, h5) = reads_done e.history e.unfilled met _ h4 in
    let (y, rechecked, h6) =
      at_table_done
        (check_context context_mismatch seen.row.broker seen.row.broker_environment
          seen.row.broker_account_hash (e.context 85 seen.row.broker))
        met _ h5 in
    let (earlier, read_before, before_same) = check_context_done context_mismatch _ _ _ _ checked in
    let (later, read_after, after_same) = check_context_done context_mismatch _ _ _ _ rechecked in
    (
      who,
      seen,
      orders,
      listed,
      named,
      record {
        found = found;
        identified = double_not identified;
        history_read = history_read;
        open_read = open_read;
        earlier = earlier;
        read_before = read_before;
        earlier_matches = before_same;
        later = later;
        read_after = read_after;
        later_matches = after_same;
      },
      h6,
    )
