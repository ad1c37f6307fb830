-- ===== src/Lifecycle/OnePost.antt =====
-- At most one order is sent for a trade record.
use kis_trader_back.Common.{
  ℕ, suc, ◌+◌, ◌≡◌, refl, ◌≤◌, ◌⊎◌, Bool, true, false, ◌&&◌, ◌||◌, is_none, String, arith, inl, inr,
}
use kis_trader_back.Model.{
  TradeRecord, submitting, awaiting_approval, status_eq, BrokerOrder, OrderStatus,
  SubmissionResolution,
}
use kis_trader_back.Db.{update_many, Update}
use kis_trader_back.Execution.{cancel_claimed_update, claim_submission_update}
use kis_trader_back.Approval.Execute.{claim_quantity_update}
use kis_trader_back.Reconcile.Fill.{get_broker_order_status, total_executed}
use kis_trader_back.Reconcile.Record.{Report, report_update, closed_status, closure_update}
use kis_trader_back.Reconcile.Orders.{close_remainder_update, close_unfilled_update}
use kis_trader_back.Operator.Submission.{fail_update}
use kis_trader_back.Operator.Assignment.{assign_update}
use kis_trader_back.Operator.Cancellation.{close_update, not_accepted_update, status_after}
use kis_trader_back.Lifecycle.{
  System, Step, claim, claim_quantity, send, give_up, task, reconcile, Reach, here, next, Task,
  fail_unknown, close_cancelled, refuse_cancelled, assign_context, update_of, apply, Reconciled,
  reported, closed, remainder, unfilled,
}

-- The record may still be claimed, now or after a decision.
abbrev is_claimable : TradeRecord → Bool
is_claimable r =
    status_eq r.status awaiting_approval
    || (status_eq r.status submitting && is_none r.submission_started_at)

-- No update but a claim makes a claim possible that was not.
abbrev Shuts : Update → Type 0
Shuts u = (r : TradeRecord) → is_claimable r ≡ false → is_claimable (apply u r) ≡ false

give_up-Shuts : (started : ℕ) (m : String) → Shuts (cancel_claimed_update started m)
unfolding update_many
give_up-Shuts started m r h = ground arith

-- A change of status to one that waits for nothing.
changed-Shuts : (u : Update) → ((r : TradeRecord) → is_claimable (u.change r) ≡ false) → Shuts u
unfolding update_many
changed-Shuts u c r h = ground (arith, c r)

abbrev waits : OrderStatus → Bool
waits s = status_eq s awaiting_approval || status_eq s submitting

get_broker_order_status-waits :
    (q e : ℕ) (o : BrokerOrder) → waits (get_broker_order_status q e o) ≡ false
unfolding get_broker_order_status
get_broker_order_status-waits q e o = ground arith

closed_status-waits : (q e : ℕ) → waits (closed_status q e) ≡ false
unfolding closed_status
closed_status-waits q e = ground arith

still :
    (s : OrderStatus) (b : Bool)
    → waits s ≡ false
    → (status_eq s awaiting_approval || (status_eq s submitting && b)) ≡ false
still s b h = ground arith

status_after-waits : (q e : ℕ) → waits (status_after q e) ≡ false
unfolding status_after
status_after-waits q e = ground arith

fail_update-Shuts :
    (seen : TradeRecord) (why : SubmissionResolution) (now : ℕ) (actor : String)
    → Shuts (fail_update seen why now actor)
unfolding fail_update
fail_update-Shuts seen why now actor = changed-Shuts _ λ r. ground arith

-- A change that leaves what a claim asks for as it was.
kept-Shuts :
    (u : Update) → ((r : TradeRecord) → is_claimable (u.change r) ≡ is_claimable r) → Shuts u
unfolding update_many
kept-Shuts u k r h = ground (arith, k r)

update_of-Shuts : (t : Task) → Shuts (update_of t)
unfolding update_of update_many
update_of-Shuts (Task.cancel_pre_submit m) r h = ground arith
update_of-Shuts (fail_unknown seen why now actor) r h = fail_update-Shuts seen why now actor r h
update_of-Shuts (close_cancelled seen o executed now actor) r h =
    changed-Shuts (close_update seen o executed now actor)
      (λ s.
        still (status_after seen.quantity executed) (is_none s.submission_started_at)
          (status_after-waits seen.quantity executed))
      r h
update_of-Shuts (refuse_cancelled seen now actor) r h =
    kept-Shuts (not_accepted_update seen now actor) (λ s. refl) r h
update_of-Shuts (assign_context b c) r h = kept-Shuts (assign_update b c) (λ s. refl) r h
update_of-Shuts _ r h = ground arith

report_update-Shuts :
    (seen : TradeRecord) (o : BrokerOrder) (p : Report) (after : OrderStatus)
    → waits after ≡ false
    → Shuts (report_update seen o p after)
report_update-Shuts seen o p after w =
    changed-Shuts _ λ r. still after (is_none r.submission_started_at) w

closure_update-Shuts :
    (seen : TradeRecord) (o : BrokerOrder) (p : Report) (after : OrderStatus)
    → waits after ≡ false
    → Shuts (closure_update seen o p after)
unfolding closure_update
closure_update-Shuts seen o p after w =
    changed-Shuts _ λ r. still after (is_none r.submission_started_at) w

close_remainder_update-Shuts : (seen : TradeRecord) → Shuts (close_remainder_update seen)
unfolding update_many
close_remainder_update-Shuts seen r h = ground arith

close_unfilled_update-Shuts : (seen : TradeRecord) → Shuts (close_unfilled_update seen)
close_unfilled_update-Shuts seen = changed-Shuts _ λ r. ground arith

Reconciled-Shuts : {seen : TradeRecord} {u : Update} → Reconciled seen u → Shuts u
Reconciled-Shuts {seen} (reported o p) =
    report_update-Shuts seen o p _
      (get_broker_order_status-waits seen.quantity (total_executed seen o) o)
Reconciled-Shuts {seen} (closed o p) =
    closure_update-Shuts seen o p _ (closed_status-waits seen.quantity (total_executed seen o))
Reconciled-Shuts {seen} remainder = close_remainder_update-Shuts seen
Reconciled-Shuts {seen} unfilled = close_unfilled_update-Shuts seen

-- Claims and posts are one at most together, and when there is one, the record cannot be claimed again.
pub record IsSound (s : System) : Type 0 where
  pub at_most_one : s.claims + s.posts ≤ 1
  pub shut : (s.claims + s.posts ≡ 0) ⊎ (is_claimable s.row ≡ false)

only_free : {n : ℕ} {b : Bool} → (n ≡ 0) ⊎ (b ≡ false) → b ≡ true → n ≡ 0
only_free h e = ground arith

-- A claim is won only on a record that can be claimed, and leaves it shut.
abbrev Wins : Update → Type 0
Wins u =
    (r : TradeRecord)
    → (update_many u r).0 ≡ 1
    → (is_claimable r ≡ true) × (is_claimable (apply u r) ≡ false)

claim_submission_update-Wins : (now : ℕ) → Wins (claim_submission_update now)
unfolding update_many
claim_submission_update-Wins now r hit = (ground arith, ground arith)

claim_quantity_update-Wins : (q now : ℕ) → Wins (claim_quantity_update q now)
unfolding update_many
claim_quantity_update-Wins q now r hit = (ground arith, ground arith)

claimed-IsSound :
    (u : Update) (s : System)
    → Wins u
    → (update_many u s.row).0 ≡ 1
    → IsSound s
    → IsSound (record s { row = apply u s.row; claims = suc s.claims })
claimed-IsSound u s w hit i =
    let won = w s.row hit in
    let free = only_free i.shut won.0 in
    record { at_most_one = ground (arith, free); shut = inr won.1 }

updated-IsSound :
    (u : Update) (s : System) → Shuts u → IsSound s → IsSound (record s { row = apply u s.row })
updated-IsSound u s k i = record {
  at_most_one = i.at_most_one;
  shut = elim i.shut [ inl z ↦ inl z | inr c ↦ inr (k s.row c) ];
}

give_up-IsSound :
    (u : Update) (s : System) (n : ℕ)
    → Shuts u
    → s.claims ≡ suc n
    → IsSound s
    → IsSound (record s { row = apply u s.row; claims = n })
give_up-IsSound u s n k e i =
    let m = i.at_most_one in
    record {
      at_most_one = omega arith;
      shut = elim i.shut [ inl z ↦ inl (omega arith) | inr c ↦ inr (k s.row c) ];
    }

Step-IsSound : {s t : System} → Step s t → IsSound s → IsSound t
Step-IsSound (claim s now hit) i =
    claimed-IsSound (claim_submission_update now) s (claim_submission_update-Wins now) hit i
Step-IsSound (claim_quantity s q now hit) i =
    claimed-IsSound (claim_quantity_update q now) s (claim_quantity_update-Wins q now) hit i
Step-IsSound (send s n e) i = ground arith
Step-IsSound (give_up s n started m e) i =
    give_up-IsSound (cancel_claimed_update started m) s n (give_up-Shuts started m) e i
Step-IsSound (task s t) i = updated-IsSound (update_of t) s (update_of-Shuts t) i
Step-IsSound (reconcile s seen u open_then c) i = updated-IsSound u s (Reconciled-Shuts c) i

Reach-IsSound : {s t : System} → Reach s t → IsSound s → IsSound t
Reach-IsSound here i = i
Reach-IsSound (next r t) i = Step-IsSound t (Reach-IsSound r i)

-- Whatever order executions, approval clicks, cancellations, reconciliations, cold starts and operators'
-- resolutions work on a trade record, and in whatever order their updates and their sending happen, at
-- most one order is sent for it, when none has been sent and no claim is held at the start.
pub Reach-one_post : {s t : System} → s.claims ≡ 0 → s.posts ≡ 0 → Reach s t → t.posts ≤ 1
Reach-one_post {s} {t} c p r =
    let i = Reach-IsSound r (record { at_most_one = omega arith; shut = inl (omega arith) }) in
    let b = i.at_most_one in omega arith
