-- ===== src/Lifecycle.antt =====
-- One trade record under all the tasks that may run on it at once: order executions, approval clicks,
-- cancellations, reconciliations, cold starts and operators' resolutions of src/trading. A step is one atomic compare-and-set of
-- one of them, or the sending of an order by a task that holds a claim. Tasks are counted, not named.
pub mod OnePost
use kis_trader_back.Common.{
  ◌⊎◌, ℕ, suc, String, Bool, true, ◌≡◌, Option, none, some, List, ◌==◌, ◌&&◌, is_none,
}
use kis_trader_back.Model.{
  TradeRecord, OrderResult, BrokerOrder, OrderStatus, Broker, submitting, cancelled,
  awaiting_approval, pending, partial, status_eq, SubmissionResolution, BrokerContext,
}
use kis_trader_back.Db.{Update, update_many}
use kis_trader_back.Recovery.{
  lose_submission_update, claim_cancellation_update, reject_cancellation_update,
  accept_cancellation_update, lose_cancellation_update,
}
use kis_trader_back.Recovery.TakeOver.{cancel_stale_update}
use kis_trader_back.Execution.{
  cancel_pre_submit_update, claim_submission_update, cancel_claimed_update,
  reject_submission_update, accept_submission_update,
}
use kis_trader_back.Approval.Execute.{claim_quantity_update}
use kis_trader_back.Matcher.{Candidate}
use kis_trader_back.Operator.Submission.{link_update, fail_update}
use kis_trader_back.Operator.Assignment.{assign_update}
use kis_trader_back.Operator.Cancellation.{close_update, not_accepted_update}
use kis_trader_back.Reconcile.Fill.{get_broker_order_status, total_executed}
use kis_trader_back.Reconcile.Record.{Report, report_update, closed_status, closure_update}
use kis_trader_back.Reconcile.Orders.{close_remainder_update, close_unfilled_update}

-- The half of `decide` that is on the trade record.
abbrev pub decide_update : OrderStatus → Update
decide_update next = record {
  guard = λ r. status_eq r.status awaiting_approval;
  change = λ r. record r { status = next };
}

-- The updates that neither take nor give up the right to send.
pub data Task : Type 0 where
  cancel_pre_submit : String → Task
  reject_submission : String → Task
  accept_submission : OrderResult → Task
  lose_submission : String → Task
  cancel_stale : Task
  approve_decision : Task
  close_decision : Task
  claim_cancellation : ℕ → Broker → Task
  reject_cancellation : ℕ → Broker → String → Task
  accept_cancellation : Broker → String → Task
  lose_cancellation : Broker → String → Task
  link_candidate : TradeRecord → Candidate → ℕ → String → Task
  fail_unknown : TradeRecord → SubmissionResolution → ℕ → String → Task
  close_cancelled : TradeRecord → BrokerOrder → ℕ → ℕ → String → Task
  refuse_cancelled : TradeRecord → ℕ → String → Task
  assign_context : Broker → BrokerContext → Task

unfoldable pub update_of : Task → Update
update_of (cancel_pre_submit m) = cancel_pre_submit_update m
update_of (reject_submission m) = reject_submission_update m
update_of (accept_submission r) = accept_submission_update r
update_of (lose_submission m) = lose_submission_update m
update_of cancel_stale = cancel_stale_update
update_of approve_decision = decide_update submitting
update_of close_decision = decide_update cancelled
update_of (claim_cancellation now b) = claim_cancellation_update now b
update_of (reject_cancellation now b m) = reject_cancellation_update now b m
update_of (accept_cancellation b m) = accept_cancellation_update b m
update_of (lose_cancellation b m) = lose_cancellation_update b m
update_of (link_candidate seen c now actor) = link_update seen c now actor
update_of (fail_unknown seen why now actor) = fail_update seen why now actor
update_of (close_cancelled seen o executed now actor) = close_update seen o executed now actor
update_of (refuse_cancelled seen now actor) = not_accepted_update seen now actor
update_of (assign_context b c) = assign_update b c

-- The reconciliation of a record that was read open, at some earlier time.
pub data Reconciled (seen : TradeRecord) : Update → Type 0 where
  reported :
      (o : BrokerOrder) (p : Report)
      → Reconciled seen
          (report_update seen o p (get_broker_order_status seen.quantity (total_executed seen o) o))
  closed :
      (o : BrokerOrder) (p : Report)
      → Reconciled seen
          (closure_update seen o p (closed_status seen.quantity (total_executed seen o)))
  remainder : Reconciled seen (close_remainder_update seen)
  unfilled : Reconciled seen (close_unfilled_update seen)

abbrev pub IsOpen : TradeRecord → Type 0
IsOpen seen = (status_eq seen.status pending ≡ true) ⊎ (status_eq seen.status partial ≡ true)

-- `claims` counts the tasks that won a claim and have neither sent nor given up.
pub record System : Type 0 where
  pub row : TradeRecord
  pub claims : ℕ
  pub posts : ℕ

abbrev pub apply : Update → TradeRecord → TradeRecord
apply u r = (update_many u r).1

pub data Step : System → System → Type 0 where
  claim :
      (s : System) (now : ℕ)
      → (update_many (claim_submission_update now) s.row).0 ≡ 1
      → Step s (record s { row = apply (claim_submission_update now) s.row; claims = suc s.claims })
  claim_quantity :
      (s : System) (quantity now : ℕ)
      → (update_many (claim_quantity_update quantity now) s.row).0 ≡ 1
      → Step s (record s {
        row = apply (claim_quantity_update quantity now) s.row;
        claims = suc s.claims;
      })
  send :
      (s : System) (n : ℕ)
      → s.claims ≡ suc n
      → Step s (record s { claims = n; posts = suc s.posts })
  give_up :
      (s : System) (n started : ℕ) (message : String)
      → s.claims ≡ suc n
      → Step s (record s { row = apply (cancel_claimed_update started message) s.row; claims = n })
  task : (s : System) (t : Task) → Step s (record s { row = apply (update_of t) s.row })
  reconcile :
      (s : System) (seen : TradeRecord) (u : Update)
      → IsOpen seen
      → Reconciled seen u
      → Step s (record s { row = apply u s.row })

pub data Reach (s : System) : System → Type 0 where
  here : Reach s s
  next : {t u : System} → Reach s t → Step t u → Reach s u
