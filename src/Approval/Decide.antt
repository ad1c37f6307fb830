-- ===== src/Approval/Decide.antt =====
-- `approve` and `reject` up to the committed decision: `authorizedActor` and `decide`.
use kis_trader_back.Common.{
  ℕ, String, Bool, true, false, not, ◌&&◌, Option, none, some, if◌then◌else◌, any, str_eq, trim,
  is_empty, is_blank, is_none, ltb, leb,
}
use kis_trader_back.Model.{
  OrderStatus, cancelled, awaiting_approval, submitting, status_eq, ApprovalStatus, waiting,
  approved, refused, expired, approval_eq,
}
use kis_trader_back.Approval.Defs.{
  Approval, Office, Reason, delivery_not_ready, trading_disabled, expired_reason, already_handled,
  broker_context_mismatch, broker_disabled, Result, D, await, context_matches,
  read_persisted_outcome,
}

-- The configured approver that a Slack user is, if any.
unfoldable pub authorized_actor : Office → String → Option String
unfolding trim
authorized_actor o slack_user_id =
    let actor = trim slack_user_id in
    elim o.approvers [
      | none ↦ none
      | some configured ↦
          if not (is_empty actor) && any (λ value. str_eq (trim value) actor) configured
          then some actor
          else none
    ]

pub data Choice : Type 0 where
  approve reject : Choice

abbrev pub is_approve : Choice → Bool
is_approve approve = true
is_approve reject = false

-- A compare-and-set on both rows in one transaction: both are changed or, by the rollback, none.
-- The first statement locks the approval, so what other tasks do to the record in between counts as before.
unfoldable pub claim_pair :
    Office → (Approval → Bool) → (Approval → Approval) → OrderStatus → D Bool
claim_pair o guard change next d =
    let seen = await o 31 d in
    if guard seen.approval && status_eq seen.world.row.status awaiting_approval
    then (
      true,
      record {
        world = record (seen.world) { row = record (seen.world.row) { status = next } };
        approval = change seen.approval;
      },
    )
    else (false, seen)

abbrev pub unclaimed : Reason → D Result
unclaimed reason d = (
  record {
    approval_status = some d.approval.status;
    trade_status = some d.world.row.status;
    claimed = false;
    submitted = false;
    reason = some reason;
  },
  d,
)

unfoldable pub expire_pair : Office → ℕ → D Result
unfolding claim_pair read_persisted_outcome
expire_pair o now d =
    let (done, d') =
      claim_pair o (λ a. approval_eq a.status waiting && leb a.expires_at now)
        (λ a. record a { status = expired }) cancelled d in
    if done
    then (
      record {
        approval_status = some expired;
        trade_status = some cancelled;
        claimed = false;
        submitted = false;
        reason = some expired_reason;
      },
      d',
    )
    else read_persisted_outcome o 32 d'

abbrev pub approval_after : Choice → ApprovalStatus
approval_after approve = approved
approval_after reject = refused

abbrev pub record_after : Choice → OrderStatus
record_after approve = submitting
record_after reject = cancelled

unfoldable pub answer_pair : Office → ℕ → Choice → String → D Result
unfolding claim_pair read_persisted_outcome
answer_pair o now choice actor d =
    let (done, d') =
      claim_pair o (λ a. approval_eq a.status waiting && ltb now a.expires_at)
        (λ a. record a {
          status = approval_after choice;
          responded_at = some now;
          responded_by = some actor;
        })
        (record_after choice) d in
    if done
    then (
      record {
        approval_status = some (approval_after choice);
        trade_status = some (record_after choice);
        claimed = true;
        submitted = false;
        reason = none;
      },
      d',
    )
    else read_persisted_outcome o 32 d'

-- The notification of the request reached Slack.
abbrev pub is_delivered : Approval → Bool
is_delivered a =
    not (is_none a.notified_at)
    && not (is_blank a.slack_message_ts)
    && not (is_blank a.slack_channel)

-- `decide` on rows that exist, as read in the transaction.
unfoldable pub decide : Office → Choice → String → D Result
unfolding expire_pair answer_pair
decide o choice actor start =
    let d = await o 30 start in
    let now = o.env.now 30 in
    if not (approval_eq d.approval.status waiting && status_eq d.world.row.status awaiting_approval)
    then unclaimed already_handled d
    else if leb d.approval.expires_at now
    then expire_pair o now d
    else if not (is_delivered d.approval)
    then unclaimed delivery_not_ready d
    else if is_approve choice && not (context_matches o 30 d.world.row)
    then unclaimed broker_context_mismatch d
    else if is_approve choice && not (o.env.live 30)
    then unclaimed trading_disabled d
    else if is_approve choice && not (o.env.active 30)
    then unclaimed broker_disabled d
    else answer_pair o now choice actor d
