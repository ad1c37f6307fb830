-- ===== src/Model.antt =====
-- The data that the trading services share: the enums and the trade record of prisma/schema.prisma, the
-- signals, broker answers and contexts of src/trading/types and src/common/types.
-- Times are milliseconds, quantities whole shares, prices whole units of the smallest price step.
pub mod Enums
pub use Enums.*
use kis_trader_back.Common.{ℕ, String, Bool, Option, none, some, List}

-- One row of `trade_records`; `updatedAt` is left out, nothing modelled reads it.
pub record TradeRecord : Type 0 where
  pub id : String
  pub broker : Broker
  pub market : Market
  pub exchange_code : String
  pub stock_code : String
  pub stock_name : String
  pub side : Side
  pub order_type : OrderType
  pub quantity : ℕ
  pub price : ℕ
  pub executed_price : Option ℕ
  pub executed_qty : Option ℕ
  pub executed_at : Option ℕ
  pub order_no : Option String
  pub status : OrderStatus
  pub strategy_name : Option String
  pub reason : Option String
  pub submission_started_at : Option ℕ
  pub broker_order_date : Option String
  pub broker_order_time : Option String
  pub broker_environment : Option BrokerEnvironment
  pub broker_account_hash : Option String
  pub broker_message : Option String
  pub submission_resolved_at : Option ℕ
  pub submission_resolved_by : Option String
  pub submission_resolution : Option SubmissionResolution
  pub cancellation_status : Option CancellationStatus
  pub cancellation_started_at : Option ℕ
  pub cancellation_resolved_at : Option ℕ
  pub cancellation_resolved_by : Option String
  pub cancellation_message : Option String
  pub created_at : ℕ

-- Of `metadata`, the one key that the modelled code reads.
pub record Signal : Type 0 where
  pub broker : Option Broker
  pub market : Market
  pub exchange_code : String
  pub stock_code : String
  pub side : Side
  pub quantity : ℕ
  pub price : Option ℕ
  pub reason : String
  pub order_division : Option String
  pub phase : Option String

-- `success` is left out: it is `outcome === 'ACCEPTED'` and nothing modelled reads it.
pub record OrderResult : Type 0 where
  pub outcome : Outcome
  pub order_no : Option String
  pub broker_order_date : Option String
  pub order_time : Option String
  pub message : String

pub record BrokerContext : Type 0 where
  pub broker : Broker
  pub environment : BrokerEnvironment
  pub account_hash : String

pub record BalanceItem : Type 0 where
  pub stock_code : String
  pub quantity : ℕ
  pub exchange_code : Option String

pub record UnfilledOrder : Type 0 where
  pub order_no : String
  pub stock_code : String
  pub side : Side
  pub quantity : ℕ
  pub price : ℕ
  pub exchange_code : Option String

-- An execution row of the broker's order history.
pub record BrokerOrder : Type 0 where
  pub order_no : String
  pub stock_code : String
  pub side : Side
  pub order_quantity : ℕ
  pub filled_quantity : ℕ
  pub remaining_quantity : ℕ
  pub filled_price : Option ℕ
  pub exchange_code : Option String
  pub order_date : Option String
  pub order_time : Option String
  pub order_price : Option ℕ
  pub rejection_state : Option RejectionState
  pub rejected : Bool
  pub rejected_reason : Option String
