-- ===== src/Db.antt =====
-- The database as the services use it. A row is addressed by its primary key and changed by
-- `updateMany`, one atomic compare-and-set: the change is made exactly if the row satisfies the `where`,
-- and the count says whether it was. A handler threads the row and the effects that it leaves behind.
use kis_trader_back.Common.{ℕ, String, Bool, Option, List, ◌∷◌, if◌then◌else◌}
use kis_trader_back.Model.{TradeRecord, Signal, OrderStatus, Action, EventType}

-- `guard` is the `where` without the primary key, `change` the `data`.
pub record Update : Type 0 where
  pub guard : TradeRecord → Bool
  pub change : TradeRecord → TradeRecord

unfoldable pub update_many : Update → TradeRecord → ℕ × TradeRecord
update_many u r = if u.guard r then (1, u.change r) else (0, r)

-- What a handler leaves behind beside the row: audit entries, execution logs, messages to operators.
pub data Effect : Type 0 where
  audit : Action → String → Option OrderStatus → Option OrderStatus → Effect
  log : EventType → Effect
  alert_unknown : Effect
  alert_failure : Effect
  warn_persistence : Effect
  mark_second_target : Effect
  -- `handleStrategySignalFill`: the shares held before, and the quantity of the signal that it gets.
  strategy_fill : ℕ → ℕ → Effect
  -- The quota of a buy that was not filled may be restored.
  strategy_failure : Effect
  notify_fill : ℕ → Effect
  -- A cancellation of so many shares is sent to the broker.
  cancel_sent : ℕ → Effect

-- `posts` are the orders sent to the broker, newest first, and so are `effects`.
pub record World : Type 0 where
  pub row : TradeRecord
  pub posts : List Signal
  pub effects : List Effect

abbrev pub M : Type 0 → Type 0
M A = World → A × World

infixl 5 ◌>>=◌ ◌>>◌
abbrev pub ◌>>=◌ : {A B : Type 0} → M A → (A → M B) → M B
◌>>=◌ m f w = let (a, w') = m w in f a w'

abbrev pub ◌>>◌ : {A B : Type 0} → M A → M B → M B
◌>>◌ m k w = let (a, w') = m w in k w'

abbrev pub pure : {A : Type 0} → A → M A
pure a w = (a, w)

-- `updateMany` with this record's id; the result is `count`.
unfoldable pub update : Update → M ℕ
unfolding update_many
update u w = let (n, r) = update_many u w.row in (n, record w { row = r })

abbrev pub emit : Effect → M (Unit {0})
emit e w = (tt, record w { effects = e ∷ w.effects })

-- `findUnique` with this record's id.
abbrev pub read : M TradeRecord
read w = (w.row, w)
