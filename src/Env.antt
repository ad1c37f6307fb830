-- ===== src/Env.antt =====
-- What the order handlers meet on their way: configuration, clock, broker connection, other tasks. Each
-- place of a handler that asks has its own number, so that two readings may differ. The broker context
-- tests are those of src/trading/trading-broker-context.service.ts.
use kis_trader_back.Common.{
  ℕ, String, Bool, false, ◌&&◌, Option, none, some, List, ◌∷◌, str_eq, is_blank, not,
}
use kis_trader_back.Model.{
  TradeRecord, Signal, OrderResult, Broker, broker_eq, BrokerContext, BrokerEnvironment,
  environment_is, BalanceItem,
}
use kis_trader_back.Db.{Update, update, M}

-- What `submitOrder` of the broker ends with: an answer, or an exception with its message.
pub data Reply : Type 0 where
  answered : OrderResult → Reply
  thrown : String → Reply

pub record Env : Type 0 where
  -- `trading.enabled`, the registry's `isActive`, and the clock.
  pub live : ℕ → Bool
  pub active : ℕ → Bool
  pub now : ℕ → ℕ
  -- `getCurrentContext`; `none` is an exception.
  pub context : ℕ → Broker → Option BrokerContext
  -- What other tasks do to the row while the handler awaits.
  pub meddle : ℕ → TradeRecord → TradeRecord
  -- A database call that the handler guards by `try` fails, and leaves the row as it is.
  pub throws : ℕ → Bool
  -- `positionRefresh.refresh`; `none` is an exception.
  pub holdings : Option (List BalanceItem)
  -- The message of that exception.
  pub refresh_error : String
  pub submit : Signal → Reply
  -- `cancelOrder` of the broker, for so many shares.
  pub cancel : ℕ → Reply

-- The context that is configured now is the expected one.
abbrev same_context : BrokerContext → Option BrokerContext → Bool
same_context expected none = false
same_context expected (some current) =
    broker_eq current.broker expected.broker
    && environment_is (some current.environment) expected.environment
    && str_eq current.account_hash expected.account_hash

-- `matchesCurrentContext`, with the handlers' `try` around it.
unfoldable pub matches_current_context :
    Env → ℕ → Broker → Option BrokerEnvironment → Option String → Bool
matches_current_context env k broker environment none = false
matches_current_context env k broker none (some hash) = false
matches_current_context env k broker (some e) (some hash) =
    not (is_blank (some hash))
    && same_context (record { broker = broker; environment = e; account_hash = hash })
        (env.context k broker)

-- `isCurrentBrokerContext` of the order execution.
unfoldable pub is_current_broker_context : Env → ℕ → BrokerContext → Bool
is_current_broker_context env k expected = same_context expected (env.context k expected.broker)

-- An `updateMany` of a handler, after what other tasks did to the row in the meantime.
unfoldable pub update_at : Env → ℕ → Update → M ℕ
unfolding update
update_at env k u w = update u (record w { row = env.meddle k w.row })

-- `submit` sends the order.
abbrev pub post : Env → Signal → M Reply
post env signal w = (env.submit signal, record w { posts = signal ∷ w.posts })

-- The same surroundings with no other task that touches the record.
abbrev pub quiet : Env → Env
quiet env = record env { meddle = λ k r. r }
