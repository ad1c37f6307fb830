-- ===== src/Model/Enums.antt =====
-- The enums of prisma/schema.prisma, each with the Boolean test `===` on its values.
use Prim.Native.Nat.{ℕ}
use Prim.Native.String.{String}
use mathlib.Core.Path.{◌≡◌}
use mathlib.Core.Bool.{Bool, true, false}
use mathlib.Core.Option.{Option, none, some}
use native.Mathlib.Omega.{arith}
use kis_trader_back.Common.Tests.{◌==◌}

pub data Broker : Type 0 where
  kis toss : Broker

pub data Market : Type 0 where
  domestic overseas : Market

pub data Side : Type 0 where
  buy sell : Side

pub data OrderType : Type 0 where
  market_order limit_order loc_order : OrderType

pub data OrderStatus : Type 0 where
  pending filled partial cancelled failed awaiting_approval submitting submission_unknown :
      OrderStatus

pub data BrokerEnvironment : Type 0 where
  paper prod : BrokerEnvironment

pub data SubmissionResolution : Type 0 where
  linked_broker_order confirmed_not_submitted matched_existing_trade_record : SubmissionResolution

-- `CancellationAttemptStatus`.
pub data CancellationStatus : Type 0 where
  attempting accepted rejected unknown resolved : CancellationStatus

pub data ApprovalStatus : Type 0 where
  waiting approved refused expired : ApprovalStatus

pub data Outcome : Type 0 where
  accepted rejected unknown : Outcome

-- `BrokerOrderRejectionState`.
pub data RejectionState : Type 0 where
  is_rejected not_rejected unclear : RejectionState

-- `BrokerOrderAction`, the kinds of audit entry.
pub data Action : Type 0 where
  unknown_detected legacy_context_assigned candidates_inspected broker_order_linked : Action
  action_not_submitted matched_existing cancellation_unknown cancellation_reconciled : Action
  cancellation_not_accepted : Action

-- The part of `WatchStockExecutionEventType` that the order path writes.
pub data EventType : Type 0 where
  order_submitted order_filled order_failed order_cancelled order_submission_unknown : EventType

abbrev broker_tag : Broker → ℕ
broker_tag kis = 0
broker_tag toss = 1

abbrev pub broker_eq : Broker → Broker → Bool
broker_eq a b = broker_tag a == broker_tag b

abbrev pub is_domestic : Market → Bool
is_domestic domestic = true
is_domestic overseas = false

abbrev pub market_eq : Market → Market → Bool
market_eq domestic m = is_domestic m
market_eq overseas domestic = false
market_eq overseas overseas = true

abbrev pub is_buy : Side → Bool
is_buy buy = true
is_buy sell = false

abbrev side_tag : Side → ℕ
side_tag buy = 0
side_tag sell = 1

abbrev pub side_eq : Side → Side → Bool
side_eq a b = side_tag a == side_tag b

abbrev status_tag : OrderStatus → ℕ
status_tag pending = 0
status_tag filled = 1
status_tag partial = 2
status_tag cancelled = 3
status_tag failed = 4
status_tag awaiting_approval = 5
status_tag submitting = 6
status_tag submission_unknown = 7

abbrev pub status_eq : OrderStatus → OrderStatus → Bool
status_eq a b = status_tag a == status_tag b

abbrev environment_tag : BrokerEnvironment → ℕ
environment_tag paper = 0
environment_tag prod = 1

-- A stored environment equals the current one; an absent one equals none.
abbrev pub environment_is : Option BrokerEnvironment → BrokerEnvironment → Bool
environment_is none e = false
environment_is (some d) e = environment_tag d == environment_tag e

-- Two stored environments are `===`.
abbrev pub opt_environment_eq : Option BrokerEnvironment → Option BrokerEnvironment → Bool
opt_environment_eq none none = true
opt_environment_eq a (some e) = environment_is a e
opt_environment_eq (some e) none = false

abbrev cancellation_tag : Option CancellationStatus → ℕ
cancellation_tag none = 0
cancellation_tag (some attempting) = 1
cancellation_tag (some CancellationStatus.accepted) = 2
cancellation_tag (some CancellationStatus.rejected) = 3
cancellation_tag (some CancellationStatus.unknown) = 4
cancellation_tag (some resolved) = 5

abbrev pub cancellation_eq : Option CancellationStatus → Option CancellationStatus → Bool
cancellation_eq a b = cancellation_tag a == cancellation_tag b

abbrev approval_tag : ApprovalStatus → ℕ
approval_tag waiting = 0
approval_tag approved = 1
approval_tag refused = 2
approval_tag expired = 3

abbrev pub approval_eq : ApprovalStatus → ApprovalStatus → Bool
approval_eq a b = approval_tag a == approval_tag b

abbrev outcome_tag : Outcome → ℕ
outcome_tag Outcome.accepted = 0
outcome_tag Outcome.rejected = 1
outcome_tag Outcome.unknown = 2

abbrev pub outcome_eq : Outcome → Outcome → Bool
outcome_eq a b = outcome_tag a == outcome_tag b

pub status_eq_sound : (a b : OrderStatus) → status_eq a b ≡ true → a ≡ b
status_eq_sound a b h = ground arith

abbrev pub broker_name : Broker → String
broker_name kis = "KIS"
broker_name toss = "TOSS"

abbrev pub market_name : Market → String
market_name domestic = "DOMESTIC"
market_name overseas = "OVERSEAS"
