-- ===== src/Approval/Defs.antt =====
-- The approval row beside its trade record, the surroundings of a decision, and its result.
use kis_trader_back.Common.{ℕ, String, Bool, false, Option, some, List}
use kis_trader_back.Model.{TradeRecord, Signal, Market, OrderStatus, ApprovalStatus}
use kis_trader_back.Db.{World, M}
use kis_trader_back.Env.{Env, quiet, matches_current_context}

-- A row of `stop_loss_approvals`, less the columns that only the Slack message shows.
pub record Approval : Type 0 where
  pub market : Market
  pub exchange_code : String
  pub stock_code : String
  pub signal : Signal
  pub status : ApprovalStatus
  pub slack_message_ts : Option String
  pub slack_channel : Option String
  pub expires_at : ℕ
  pub notified_at : Option ℕ
  pub responded_at : Option ℕ
  pub responded_by : Option String

-- The two rows that a decision is about.
pub record Desk : Type 0 where
  pub world : World
  pub approval : Approval

-- `approvers` is the configured `slack.approverUserIds`, absent if it is no list;
-- `has_watch_stock` says whether the stock is watched, and an execution log is written.
pub record Office : Type 0 where
  pub env : Env
  pub meddle_approval : ℕ → Approval → Approval
  pub approvers : Option (List String)
  pub has_watch_stock : Bool

pub data Reason : Type 0 where
  unauthorized not_found delivery_not_ready trading_disabled expired_reason : Reason
  already_handled refresh_failed no_holding submission_claim_lost : Reason
  broker_context_mismatch broker_disabled broker_rejected broker_unknown : Reason
  state_changed accepted_persistence_pending : Reason

-- `SellApprovalWorkflowResult`, less the two ids.
pub record Result : Type 0 where
  pub approval_status : Option ApprovalStatus
  pub trade_status : Option OrderStatus
  pub claimed : Bool
  pub submitted : Bool
  pub reason : Option Reason

abbrev pub D : Type 0 → Type 0
D A = Desk → A × Desk

infixl 5 ◌>>=◌ ◌>>◌
abbrev pub ◌>>=◌ : {A B : Type 0} → D A → (A → D B) → D B
◌>>=◌ m f d = let (a, d') = m d in f a d'

abbrev pub ◌>>◌ : {A B : Type 0} → D A → D B → D B
◌>>◌ m k d = let (a, d') = m d in k d'

abbrev pub pure : {A : Type 0} → A → D A
pure a d = (a, d)

-- A step on the trade record.
abbrev pub on_record : {A : Type 0} → M A → D A
on_record m d = let (a, w) = m d.world in (a, record d { world = w })

-- What other tasks did to the two rows before this step.
abbrev pub await : Office → ℕ → Desk → Desk
await o k d = record d {
  world = record (d.world) { row = o.env.meddle k d.world.row };
  approval = o.meddle_approval k d.approval;
}

-- `matchesCurrentBrokerContext` of the record.
abbrev pub context_matches : Office → ℕ → TradeRecord → Bool
context_matches o k r =
    matches_current_context o.env k r.broker r.broker_environment r.broker_account_hash

-- `readPersistedOutcome` of rows that exist.
unfoldable pub read_persisted_outcome : Office → ℕ → D Result
read_persisted_outcome o k d =
    let seen = await o k d in
    (
      record {
        approval_status = some seen.approval.status;
        trade_status = some seen.world.row.status;
        claimed = false;
        submitted = false;
        reason = some already_handled;
      },
      seen,
    )

-- The same office with no other task that touches the two rows.
abbrev pub quiet_office : Office → Office
quiet_office o = record o { env = quiet o.env; meddle_approval = λ k a. a }
