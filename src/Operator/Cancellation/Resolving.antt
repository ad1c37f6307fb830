-- ===== src/Operator/Cancellation/Resolving.antt =====
-- What an operator's reading of an unknown cancellation rests on, and what it writes.
use kis_trader_back.Common.{
  ℕ, ◌≡◌, ◌≤◌, refl, ap, true, false, not, String, some, List, [], ◌∷◌, arith, Bool-cases, inl, inr,
  ◌⊎◌, if◌then◌else◌, any, every, keep, min, get_or, ltb,
}
use kis_trader_back.Model.{
  TradeRecord, BrokerOrder, UnfilledOrder, cancellation_reconciled, cancellation_not_accepted,
  cancellation_eq, CancellationStatus, status_eq, resolved,
}
use kis_trader_back.Db.{World, audit}
use kis_trader_back.Recovery.TakeOver.{Table}
use kis_trader_back.Matcher.{Answer, failed, done, ambiguous_execution}
use kis_trader_back.Operator.Claim.{Recall, require_actor, transact}
use kis_trader_back.Operator.Written.{Transacted, transact_done}
use kis_trader_back.Operator.Cancellation.{
  is_execution_of, is_open_order, is_plain, aggregate, status_after, close_update,
  not_accepted_update, write_closure, close_order, inspect_reads, refuse_reads,
  inspect_cancellation, confirm_cancellation_not_accepted,
}
use kis_trader_back.Operator.Cancellation.Reading.{
  if_passed, Read, double_not, with_broker_state_done,
}

-- The order is closed with what it executed.
pub record Closed (e : Recall) (met : Table) (actor : String) (seen : TradeRecord)
    (executions : List BrokerOrder) (w : World) (t' : Table) : Type 0 where
  pub first : BrokerOrder
  pub others : List BrokerOrder
  pub not_empty : executions ≡ first ∷ others
  pub plain : every (is_plain seen) executions ≡ true
  pub executed : ℕ
  pub executed_is : executed ≡ min seen.quantity (aggregate first others).filled_quantity
  pub no_less : get_or seen.executed_qty 0 ≤ executed
  pub bounded : executed ≤ seen.quantity
  pub written :
      Transacted seen.id
        (close_update seen (aggregate first others) executed e.now actor)
        (audit cancellation_reconciled actor
          (some seen.status)
          (some (status_after seen.quantity executed)))
        (e.meddle 87 met)
        w
        t'
  pub was_unknown :
      cancellation_eq written.before.row.cancellation_status (some CancellationStatus.unknown)
      ≡ true
  pub had_status : status_eq written.before.row.status seen.status ≡ true
  pub has_quantity : w.row.executed_qty ≡ some executed
  pub has_status : w.row.status ≡ status_after seen.quantity executed
  pub is_resolved : w.row.cancellation_status ≡ some resolved

write_closure_done :
    (e : Recall) (seen : TradeRecord) (actor : String) (o : BrokerOrder) (executed : ℕ) (t : Table)
    {w : World} {t' : Table}
    → write_closure e seen actor o executed t ≡ (done w, t')
    → Transacted seen.id
        (close_update seen o executed e.now actor)
        (audit cancellation_reconciled actor
          (some seen.status)
          (some (status_after seen.quantity executed)))
        (e.meddle 87 t)
        w
        t'
unfolding write_closure
write_closure_done e seen actor o executed t h =
    transact_done seen.id (close_update seen o executed e.now actor)
      (audit cancellation_reconciled actor (some seen.status)
        (some (status_after seen.quantity executed)))
      (e.meddle 87 t) (λ r. refl) h

min-≤ : (a b : ℕ) → min a b ≤ a
min-≤ a b = omega arith

not_ltb-≤ : (a b : ℕ) → ltb a b ≡ false → b ≤ a
not_ltb-≤ a b h = ground arith

close_order_done :
    (e : Recall) (seen : TradeRecord) (actor : String) (os : List BrokerOrder) (t : Table)
    {w : World} {t' : Table}
    → close_order e seen actor os t ≡ (done w, t')
    → Closed e t actor seen os w t'
unfolding close_order
close_order_done e seen actor [] t h = cc
close_order_done e seen actor (o ∷ os) t h =
    let executed = min seen.quantity (aggregate o os).filled_quantity in
    let (plain, h1) = if_passed (not (every (is_plain seen) (o ∷ os))) _ t _ h in
    let (no_less, h2) = if_passed (ltb executed (get_or seen.executed_qty 0)) _ t _ h1 in
    let done_so = write_closure_done e seen actor (aggregate o os) executed t h2 in
    let claimed = done_so.passed in
    record {
      first = o;
      others = os;
      not_empty = refl;
      plain = double_not plain;
      executed = executed;
      executed_is = refl;
      no_less = not_ltb-≤ executed (get_or seen.executed_qty 0) no_less;
      bounded = min-≤ seen.quantity (aggregate o os).filled_quantity;
      written = done_so;
      was_unknown = ground (arith, claimed);
      had_status = ground (arith, claimed);
      has_quantity = ap (λ v. v.row.executed_qty) done_so.changed;
      has_status = ap (λ v. v.row.status) done_so.changed;
      is_resolved = ap (λ v. v.row.cancellation_status) done_so.changed;
    }

-- The order is still open: the record is answered as it was read, and nothing is written.
pub record StillOpen (seen : World) (executions : List BrokerOrder) (met : Table) (w : World)
    (t' : Table) : Type 0 where
  pub plain : every (is_plain seen.row) executions ≡ true
  pub answered : w ≡ seen
  pub untouched : t' ≡ met

StillOpen-done :
    (seen : World) (executions : List BrokerOrder) (t : Table) {w : World} {t' : Table}
    → ◌≡◌ {A = Answer World × Table}
        (if every (is_plain seen.row) executions
          then (done seen, t)
          else (failed ambiguous_execution, t))
        (done w, t')
    → StillOpen seen executions t w t'
StillOpen-done seen executions t h = elim (Bool-cases (every (is_plain seen.row) executions)) [
  | inl plain ↦
      let same = rw (plain, if◌then◌else◌) at h in
      record { plain = plain; answered = cc; untouched = cc }
  | inr odd ↦ cc (rw (odd, if◌then◌else◌) at h)
]

inspect_reads_done :
    (e : Recall) (seen : World) (actor : String) (orders : List BrokerOrder)
    (listed : List UnfilledOrder) (t : Table) {w : World} {t' : Table}
    → inspect_reads e seen actor orders listed t ≡ (done w, t')
    → ((any (is_open_order seen.row) listed ≡ true)
        × StillOpen seen (keep (is_execution_of seen.row) orders) t w t')
      ⊎ ((any (is_open_order seen.row) listed ≡ false)
          × Closed e t actor seen.row (keep (is_execution_of seen.row) orders) w t')
unfolding inspect_reads
inspect_reads_done e seen actor orders listed t {w} {t'} h =
    elim (Bool-cases (any (is_open_order seen.row) listed)) [
      | inr gone ↦ inr (
        gone,
        close_order_done e seen.row actor (keep (is_execution_of seen.row) orders) t (rw gone at h),
      )
      | inl still ↦
          inl
            (still, StillOpen-done seen (keep (is_execution_of seen.row) orders) t (rw still at h))
    ]

-- If `inspectCancellation` succeeds, then the record's cancellation was UNKNOWN, both lists of its
-- orders were read completely, and the broker context was the record's own before and after. Either
-- the order is still open: then its executions are plain, the record is answered as it was, and
-- nothing is written. Or it is open no more: then its executions are plain and at least one, what
-- they executed is no less than what was known and no more than what was ordered, and the row, when
-- it was written, still had its unknown cancellation; it was closed with that quantity, with one
-- audit entry, and the unique index holds of the table.
pub inspect_cancellation-Resolved :
    (e : Recall) (id actor : String) (t : Table) (w : World) (t' : Table)
    → inspect_cancellation e id actor t ≡ (done w, t')
    → (who : String) × (seen : World) × (orders : List BrokerOrder) × (listed : List UnfilledOrder)
      × (require_actor actor ≡ done who)
      × Read e id t seen orders listed
      × (((any (is_open_order seen.row) listed ≡ true)
            × StillOpen seen (keep (is_execution_of seen.row) orders) (e.meddle 84 t) w t')
          ⊎ ((any (is_open_order seen.row) listed ≡ false)
              × Closed e
                  (e.meddle 84 t)
                  who
                  seen.row
                  (keep (is_execution_of seen.row) orders)
                  w
                  t'))
unfolding inspect_cancellation
inspect_cancellation-Resolved e id actor t w t' h =
    let (who, seen, orders, listed, named, read, h1) =
      with_broker_state_done e id actor t (inspect_reads e) h in
    (
      who,
      seen,
      orders,
      listed,
      named,
      read,
      inspect_reads_done e seen who orders listed (e.meddle 84 t) h1,
    )

-- The cancellation is marked as not accepted.
pub record Refused (e : Recall) (met : Table) (actor : String) (seen : TradeRecord) (w : World)
    (t' : Table) : Type 0 where
  pub written :
      Transacted seen.id
        (not_accepted_update seen e.now actor)
        (audit cancellation_not_accepted actor (some seen.status) (some seen.status))
        (e.meddle 87 met)
        w
        t'
  pub was_unknown :
      cancellation_eq written.before.row.cancellation_status (some CancellationStatus.unknown)
      ≡ true
  pub is_rejected : w.row.cancellation_status ≡ some CancellationStatus.rejected
  pub same_status : w.row.status ≡ written.before.row.status

mark_done :
    (e : Recall) (seen : TradeRecord) (actor : String) (t : Table) {w : World} {t' : Table}
    → transact seen.id
        (not_accepted_update seen e.now actor)
        (audit cancellation_not_accepted actor (some seen.status) (some seen.status))
        (e.meddle 87 t)
      ≡ (done w, t')
    → Refused e t actor seen w t'
mark_done e seen actor t h =
    let done_so =
      transact_done seen.id (not_accepted_update seen e.now actor)
        (audit cancellation_not_accepted actor (some seen.status) (some seen.status))
        (e.meddle 87 t) (λ r. refl) h in
    let claimed = done_so.passed in
    record {
      written = done_so;
      was_unknown = ground (arith, claimed);
      is_rejected = ap (λ v. v.row.cancellation_status) done_so.changed;
      same_status = ap (λ v. v.row.status) done_so.changed;
    }

refuse_reads_done :
    (e : Recall) (seen : World) (actor : String) (orders : List BrokerOrder)
    (listed : List UnfilledOrder) (t : Table) {w : World} {t' : Table}
    → refuse_reads e seen actor orders listed t ≡ (done w, t')
    → (every (is_plain seen.row) (keep (is_execution_of seen.row) orders) ≡ true)
      × (any (is_open_order seen.row) listed ≡ true)
      × Refused e t actor seen.row w t'
unfolding refuse_reads
refuse_reads_done e seen actor orders listed t h =
    let (plain, h1) =
      if_passed (not (every (is_plain seen.row) (keep (is_execution_of seen.row) orders))) _ t _
        h in
    let (still, h2) = if_passed (not (any (is_open_order seen.row) listed)) _ t _ h1 in
    (double_not plain, double_not still, mark_done e seen.row actor t h2)

-- If `confirmCancellationNotAccepted` succeeds, then the record's cancellation was UNKNOWN, both
-- lists of its orders were read completely in the record's own broker context, its executions are
-- plain and the order is still open. When it was written, the row still had its unknown
-- cancellation; the cancellation became REJECTED and the status stayed, with one audit entry, and
-- the unique index holds of the table.
pub confirm_cancellation_not_accepted-Refused :
    (e : Recall) (id actor : String) (t : Table) (w : World) (t' : Table)
    → confirm_cancellation_not_accepted e id actor t ≡ (done w, t')
    → (who : String) × (seen : World) × (orders : List BrokerOrder) × (listed : List UnfilledOrder)
      × (require_actor actor ≡ done who)
      × Read e id t seen orders listed
      × (every (is_plain seen.row) (keep (is_execution_of seen.row) orders) ≡ true)
      × (any (is_open_order seen.row) listed ≡ true)
      × Refused e (e.meddle 84 t) who seen.row w t'
unfolding confirm_cancellation_not_accepted
confirm_cancellation_not_accepted-Refused e id actor t w t' h =
    let (who, seen, orders, listed, named, read, h1) =
      with_broker_state_done e id actor t (refuse_reads e) h in
    let (plain, still, written) = refuse_reads_done e seen who orders listed (e.meddle 84 t) h1 in
    (who, seen, orders, listed, named, read, plain, still, written)
