-- ===== src/Reconcile/Once.antt =====
-- Two runs of the reconciliation that read the same record and the same report.
use kis_trader_back.Common.{
  ◌&&◌, ◌==◌, ◌≤◌, if◌then◌else◌, refl, ◌≡◌, Bool, true, false, arith, inl, inr, Bool-cases,
}
use kis_trader_back.Model.{TradeRecord, BrokerOrder}
use kis_trader_back.Db.{World, update, Update, M, ◌>>=◌, pure}
use kis_trader_back.Reconcile.Fill.{total_executed, get_broker_order_status}
use kis_trader_back.Reconcile.Record.{Report, report_update, reconcile_reported, is_news, opt_ℕ_eq}
use kis_trader_back.Reconcile.Quantities.{executed, reconcile_reported-IsExact}

missed :
    (u : Update) (k : M Bool) (v : World)
    → u.guard v.row ≡ false
    → (do count ← update u; if count == 0 then pure false else k) v ≡ (false, v)
unfolding update
missed u k v h = rw h refl

and_false : (a b : Bool) → b ≡ false → (a && b) ≡ false
and_false a b h = ground arith

-- The compare-and-set of a report misses a row whose executed quantity has moved.
report_miss :
    (seen : TradeRecord) (o : BrokerOrder) (p : Report) (v : World)
    → opt_ℕ_eq v.row.executed_qty seen.executed_qty ≡ false
    → reconcile_reported seen o p v ≡ (false, v)
unfolding reconcile_reported
report_miss seen o p v h =
    let next = get_broker_order_status seen.quantity (total_executed seen o) o in
    elim (Bool-cases (is_news seen o next)) [
      | inl news ↦ rw news (missed (report_update seen o p next) _ v (and_false _ _ h))
      | inr old ↦ rw old refl
    ]

-- A run that found a fill has moved the executed quantity.
fill_moves :
    (w : World) (o : BrokerOrder) (p : Report)
    → (reconcile_reported w.row o p w).0 ≡ true
    → executed w ≤ w.row.quantity
    → opt_ℕ_eq (reconcile_reported w.row o p w).1.row.executed_qty w.row.executed_qty ≡ false
fill_moves w o p h within = ground (arith, reconcile_reported-IsExact w o p within)

-- Of two runs that read the same record and the same broker order, a fill is applied by one: once the
-- first has applied it, the second changes nothing, tells the strategy nothing and reports no fill,
-- whatever other tasks did to the record in between, as long as they left its executed quantity alone.
-- The record was within its quantity at the start.
pub reconcile_reported_once :
    (w v : World) (o : BrokerOrder) (first second : Report)
    → (reconcile_reported w.row o first w).0 ≡ true
    → executed w ≤ w.row.quantity
    → v.row.executed_qty ≡ (reconcile_reported w.row o first w).1.row.executed_qty
    → reconcile_reported w.row o second v ≡ (false, v)
reconcile_reported_once w v o first second h within same =
    report_miss w.row o second v (rw same (fill_moves w o first h within))
