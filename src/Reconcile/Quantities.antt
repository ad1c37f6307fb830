-- ===== src/Reconcile/Quantities.antt =====
-- What reconciliation does to the executed quantity of a record, and what it tells the strategy.
use mathlib.Core.Path.{subst}
use kis_trader_back.Common.{
  sym, ap, ◌∙◌, refl, Bool-cases, is_none, ◌||◌, inl, inr, ◌==◌, ℕ, ◌-◌, ◌≡◌, ◌≤◌, Bool, false,
  none, some, get_or, arith, List, Option, [], ◌∷◌, ltb, ◌&&◌, if◌then◌else◌,
}
use kis_trader_back.Model.{
  TradeRecord, BrokerOrder, OrderStatus, pending, partial, cancellation_eq, CancellationStatus,
  attempting, Signal, Side, filled, status_eq, is_buy,
}
use kis_trader_back.Db.{
  World, Effect, strategy_fill, strategy_failure, audit, log, alert_unknown, alert_failure,
  warn_persistence, mark_second_target, notify_fill, cancel_sent,
}
use kis_trader_back.Db.{update, Update, M, ◌>>=◌, pure}
use kis_trader_back.Reconcile.Strategy.{Links, has_strategy, shares_told}
use kis_trader_back.Reconcile.Fill.{total_executed, get_broker_order_status}
use kis_trader_back.Reconcile.Record.{
  Report, report_update, apply_report, reconcile_reported, apply_closure, closed_status,
  closure_update, reconcile_accepted_cancellation, is_news,
}
use kis_trader_back.Reconcile.Orders.{
  close_remainder_update, close_unfilled_update, close_vanished, reconcile_plain,
  reconcile_unreported, reconcile_record,
}

-- The fills that the strategy has been told, each with the quantity of its signal.
abbrev pub told : List Effect → List ℕ
told [] = []
told (strategy_fill before n ∷ es) = n ∷ told es
told (audit a who x y ∷ es) = told es
told (log e ∷ es) = told es
told (alert_unknown ∷ es) = told es
told (alert_failure ∷ es) = told es
told (warn_persistence ∷ es) = told es
told (mark_second_target ∷ es) = told es
told (strategy_failure ∷ es) = told es
told (notify_fill n ∷ es) = told es
told (cancel_sent n ∷ es) = told es

abbrev pub executed : World → ℕ
executed w = get_or w.row.executed_qty 0

abbrev pub with_due : Option ℕ → List ℕ → List ℕ
with_due none ns = ns
with_due (some n) ns = n ∷ ns

-- What the strategy is due of a change of its record: nothing, if no more is executed than before, or no
-- strategy, watched stock or signal is known; of a buy the new shares; of a sell the whole signal, if it is
-- FILLED, and else nothing.
abbrev of_signal : Side → OrderStatus → ℕ → Option Signal → Option ℕ
of_signal side status fresh none = none
of_signal side status fresh (some signal) =
    if is_buy side
    then some fresh
    else if status_eq status filled
    then some signal.quantity
    else none

abbrev pub due : Links → World → World → Option ℕ
due l w w' =
    if ltb (executed w) (executed w') && has_strategy w.row && l.watched
    then of_signal w.row.side w'.row.status (executed w' - executed w) l.signal
    else none

pub record Applied (l : Links) (next : OrderStatus) (fresh : ℕ) (w : World) (result : Bool × World)
    : Type 0 where
  pub told_now :
      told (result.1).effects
      ≡ with_due
          (if ltb 0 fresh && has_strategy w.row && l.watched
            then shares_told w.row l.signal next fresh
            else none)
          (told w.effects)
  pub row_stays : (result.1).row ≡ w.row
  pub flag : result.0 ≡ ltb 0 fresh

apply_report-told :
    (seen : TradeRecord) (p : Report) (next : OrderStatus) (total fresh : ℕ) (w : World)
    → Applied p.links next fresh w (apply_report seen p next total fresh w)
unfolding apply_report
apply_report-told seen p pending total fresh w = ground arith
apply_report-told seen p _ total fresh w = ground arith

apply_closure-told :
    (seen : TradeRecord) (p : Report) (next : OrderStatus) (fresh : ℕ) (w : World)
    → Applied p.links next fresh w (apply_closure seen p next fresh w)
unfolding apply_closure
apply_closure-told seen p pending fresh w = ground arith
apply_closure-told seen p _ fresh w = ground arith

-- The executed quantity never falls and never passes the order's quantity, the strategy is told exactly
-- what it is due, and the result says whether the quantity rose.
pub record IsExact (l : Links) (w : World) (result : Bool × World) : Type 0 where
  pub kept : result.1.row.quantity ≡ w.row.quantity
  pub grows : executed w ≤ executed (result.1)
  pub bounded : executed (result.1) ≤ w.row.quantity
  pub told_all : told (result.1).effects ≡ with_due (due l w (result.1)) (told w.effects)
  pub reported : result.0 ≡ ltb (executed w) (executed (result.1))

pub same-IsExact : (l : Links) (w : World) → executed w ≤ w.row.quantity → IsExact l w (false, w)
same-IsExact l w h = ground arith

-- A compare-and-set and what follows it is exact if that is exact where the set was made.
guarded-IsExact :
    (l : Links) (u : Update) (k : M Bool) (w : World)
    → executed w ≤ w.row.quantity
    → IsExact l w (k (record w { row = u.change w.row }))
    → IsExact l w ((do count ← update u; if count == 0 then pure false else k) w)
unfolding update
guarded-IsExact l u k w h e = elim (Bool-cases (u.guard w.row)) [
  | inl hit ↦ rw hit e
  | inr miss ↦ rw miss (same-IsExact _ w h)
]

shares_due :
    (r : TradeRecord) (signal : Option Signal) (next : OrderStatus) (before after : ℕ)
    (known watched : Bool)
    → before ≤ after
    → (if ltb 0 (after - before) && known && watched
        then shares_told r signal next (after - before)
        else none)
      ≡ (if ltb before after && known && watched
          then of_signal r.side next (after - before) signal
          else none)
unfolding shares_told
shares_due r none next before after known watched h = ground arith
shares_due r (some signal) next before after known watched h = ground arith

-- The row as the update leaves it, with so many shares executed.
record IsWritten (w : World) (next : OrderStatus) (total : ℕ) (r : TradeRecord) : Type 0 where
  pub quantity_is : r.quantity ≡ w.row.quantity
  pub executed_is : r.executed_qty ≡ some total
  pub side_is : r.side ≡ w.row.side
  pub strategy_is : r.strategy_name ≡ w.row.strategy_name
  pub status_is : r.status ≡ next

due_lem :
    (l : Links) (next : OrderStatus) (total : ℕ) (w after : World)
    → executed w ≤ total
    → IsWritten w next total after.row
    → (if ltb 0 (total - executed w) && has_strategy after.row && l.watched
        then shares_told after.row l.signal next (total - executed w)
        else none)
      ≡ due l w after
due_lem l next total w after h i =
    shares_due after.row l.signal next (executed w) total (has_strategy after.row) (l.watched) h
    ∙ rw (i.executed_is, i.side_is, i.strategy_is, i.status_is) refl

Applied-IsExact :
    (l : Links) (next : OrderStatus) (total : ℕ) (w : World) (r : TradeRecord)
    (result : Bool × World)
    → executed w ≤ total
    → total ≤ w.row.quantity
    → IsWritten w next total r
    → Applied l next (total - executed w) (record w { row = r }) result
    → IsExact l w result
Applied-IsExact l next total w r result low high i a =
    let j : IsWritten w next total (result.1).row =
      subst (IsWritten w next total) (sym a.row_stays) i in
    let now : executed (result.1) ≡ total = rw j.executed_is refl in
    let same = due_lem l next total w (result.1) low j in
    record {
      kept = j.quantity_is;
      grows = omega (arith, low, now);
      bounded = omega (arith, high, now);
      told_all =
          a.told_now
          ∙ ap (λ d. with_due d (told w.effects))
              (subst
                (λ x.
                  (if ltb 0 (total - executed w) && has_strategy x && l.watched
                    then shares_told x l.signal next (total - executed w)
                    else none)
                  ≡ due l w (result.1))
                a.row_stays same);
      reported = a.flag ∙ rw now (rises total (executed w));
    }
  where
    rises : (x y : ℕ) → ltb 0 (x - y) ≡ ltb y x
    rises x y = ground arith

total-bounds :
    (w : World) (o : BrokerOrder)
    → executed w ≤ w.row.quantity
    → (executed w ≤ total_executed w.row o) × (total_executed w.row o ≤ w.row.quantity)
total-bounds w o h = omega (arith, h)

reported_hit :
    (w : World) (o : BrokerOrder) (p : Report) (next : OrderStatus)
    → executed w ≤ w.row.quantity
    → let total = total_executed w.row o in
      IsExact p.links w (
        apply_report w.row p next total
          (total - executed w)
          (record w { row = (report_update w.row o p next).change w.row }))
reported_hit w o p next h =
    let total = total_executed w.row o in
    let (low, high) = total-bounds w o h in
    Applied-IsExact p.links next total w ((report_update w.row o p next).change w.row) _ low high
      (record {
        quantity_is = refl;
        executed_is = refl;
        side_is = refl;
        strategy_is = refl;
        status_is = refl;
      })
      (apply_report-told w.row p next total (total - executed w) _)

pub reconcile_reported-IsExact :
    (w : World) (o : BrokerOrder) (p : Report)
    → executed w ≤ w.row.quantity
    → IsExact p.links w (reconcile_reported w.row o p w)
unfolding reconcile_reported
reconcile_reported-IsExact w o p h =
    let next = get_broker_order_status w.row.quantity (total_executed w.row o) o in
    elim (Bool-cases (is_news w.row o next)) [
      | inl news ↦
          rw news
            (guarded-IsExact _ (report_update w.row o p next) _ w h (reported_hit w o p next h))
      | inr old ↦ rw old (same-IsExact _ w h)
    ]

closure_hit :
    (w : World) (o : BrokerOrder) (p : Report) (next : OrderStatus)
    → executed w ≤ w.row.quantity
    → IsExact p.links w (
        apply_closure w.row p next
          (total_executed w.row o - executed w)
          (record w { row = (closure_update w.row o p next).change w.row }))
unfolding closure_update
closure_hit w o p next h =
    let total = total_executed w.row o in
    let (low, high) = total-bounds w o h in
    Applied-IsExact p.links next total w ((closure_update w.row o p next).change w.row) _ low high
      (record {
        quantity_is = refl;
        executed_is = refl;
        side_is = refl;
        strategy_is = refl;
        status_is = refl;
      })
      (apply_closure-told w.row p next (total - executed w) _)

reconcile_accepted_cancellation-IsExact :
    (w : World) (found : Option BrokerOrder) (p : Report)
    → executed w ≤ w.row.quantity
    → IsExact p.links w (reconcile_accepted_cancellation w.row found p w)
unfolding reconcile_accepted_cancellation
reconcile_accepted_cancellation-IsExact w none p h = same-IsExact _ w h
reconcile_accepted_cancellation-IsExact w (some o) p h =
    let next = closed_status w.row.quantity (total_executed w.row o) in
    elim (Bool-cases (p.still_open || is_none w.row.order_no)) [
      | inl waits ↦ rw waits (same-IsExact _ w h)
      | inr gone ↦
          rw gone
            (guarded-IsExact _ (closure_update w.row o p next) _ w h (closure_hit w o p next h))
    ]

close_vanished-IsExact :
    (l : Links) (w : World) (seen : TradeRecord) (status : OrderStatus)
    → executed w ≤ w.row.quantity
    → IsExact l w (close_vanished l seen status w)
unfolding close_vanished
close_vanished-IsExact l w seen partial h =
    guarded-IsExact l (close_remainder_update seen) _ w h (ground arith)
close_vanished-IsExact l w seen pending h =
    guarded-IsExact l (close_unfilled_update seen) _ w h (ground arith)
close_vanished-IsExact l w seen _ h = same-IsExact _ w h

reconcile_unreported-IsExact :
    (w : World) (p : Report)
    → executed w ≤ w.row.quantity
    → IsExact p.links w (reconcile_unreported w.row p w)
unfolding reconcile_unreported
reconcile_unreported-IsExact w p h =
    grind (arith, close_vanished-IsExact p.links w w.row w.row.status h, same-IsExact p.links w h)

reconcile_plain-IsExact :
    (w : World) (found : Option BrokerOrder) (p : Report)
    → executed w ≤ w.row.quantity
    → IsExact p.links w (reconcile_plain w.row found p w)
unfolding reconcile_plain
reconcile_plain-IsExact w none p h = reconcile_unreported-IsExact w p h
reconcile_plain-IsExact w (some o) p h = reconcile_reported-IsExact w o p h

-- Whatever the broker reports of a record, a reconciliation run never lowers its executed quantity, never
-- raises it above the order's quantity, and returns true exactly if it rose; the order's quantity stays. If
-- it rose, and the strategy, the watched stock and the signal are known, then the strategy is told one
-- fill: of a buy exactly the shares by which it rose, of a sell the signal's quantity, provided that the
-- record has become FILLED. In every other case it is told none. The record was within its quantity before.
pub reconcile_record-IsExact :
    (w : World) (p : Report)
    → executed w ≤ w.row.quantity
    → IsExact p.links w (reconcile_record w.row p w)
unfolding reconcile_record
reconcile_record-IsExact w p h =
    let status = w.row.cancellation_status in
    let attempted =
      cancellation_eq status (some attempting)
      || cancellation_eq status (some CancellationStatus.unknown) in
    elim (Bool-cases attempted) [
      | inl busy ↦ rw busy (same-IsExact _ w h)
      | inr idle ↦
          rw idle (elim (Bool-cases (cancellation_eq status (some CancellationStatus.accepted))) [
            | inl taken ↦ rw taken (reconcile_accepted_cancellation-IsExact w p.order p h)
            | inr free ↦ rw free (reconcile_plain-IsExact w p.order p h)
          ])
    ]
