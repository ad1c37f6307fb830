-- ===== src/SellRequest.antt =====
-- src/trading/trading-sell-approval.service.ts, `requestApproval`: a protective sell becomes a record and an
-- approval that waits for a click in Slack. SellRequest has the two tables and their updates,
-- SellRequest/Expiry the closing of pairs, SellRequest/Flow the request.
pub mod Expiry
pub mod Flow
pub mod Closing
pub mod Settled
use kis_trader_back.Common.{
  ℕ, suc, ◌+◌, ◌-◌, ◌*◌, ◌≡◌, refl, String, Bool, true, false, ◌&&◌, ◌||◌, not, Option, none, some,
  List, [], ◌∷◌, any, if◌then◌else◌, str_eq, is_empty, trim, ltb, leb, every, ◌==◌, normalize, keep,
}
use kis_trader_back.Model.{
  TradeRecord, Signal, Broker, broker_eq, BrokerContext, Market, domestic, overseas, market_eq,
  ApprovalStatus, approval_eq, waiting,
}
use kis_trader_back.Dates.{codes, is_digit}
use kis_trader_back.Approval.Defs.{Approval}

-- A row of `stop_loss_approvals`: the columns that a decision reads, with the keys.
pub record Ticket : Type 0 where
  pub id : String
  pub trade_record_id : String
  pub approval : Approval
  pub requested_at : ℕ

pub record Counter : Type 0 where
  pub trades : List TradeRecord
  pub tickets : List Ticket

-- What Slack answers.
pub record Delivery : Type 0 where
  pub ts : String
  pub channel : String

-- The surroundings of a request. The clock is read at numbered places; `meddle` is what other tasks do to
-- the tables before a step; `instant` is the time in milliseconds of a decimal number of seconds, if it is
-- more than none and a date; the ids are generated.
pub record Booth : Type 0 where
  pub context : Broker → Option BrokerContext
  pub meddle : ℕ → Counter → Counter
  pub now : ℕ → ℕ
  pub slack_enabled : Bool
  pub delivery : Option Delivery
  pub instant : String → Option ℕ
  pub trade_id : String
  pub ticket_id : String

abbrev pub minute : ℕ
minute = 60 * 1000

abbrev pub provisional_approval_minutes : ℕ
provisional_approval_minutes = 2

abbrev pub approval_validity_minutes : ℕ
approval_validity_minutes = 10

abbrev pub successful_notification_cooldown_minutes : ℕ
successful_notification_cooldown_minutes = 30

unfoldable pub normalize_approval_signal : Signal → Signal
unfolding normalize
normalize_approval_signal s = record s {
  exchange_code = exchange_in s.market;
  stock_code = normalize s.stock_code;
}
  where
    exchange_in : Market → String
    exchange_in domestic = "KRX"
    exchange_in overseas = normalize s.exchange_code

-- `updateMany`: the rows that satisfy the `where`, and how many they are.
module _ {A : Type 0} (guard : A → Bool) (change : A → A) where
  unfoldable pub update_rows : List A → ℕ × List A
  update_rows [] = (0, [])
  update_rows (x ∷ xs) =
      let (n, ys) = update_rows xs in if guard x then (suc n, change x ∷ ys) else (n, x ∷ ys)

-- The market, exchange and stock of a signal.
abbrev pub is_of : Signal → Ticket → Bool
is_of s t =
    market_eq t.approval.market s.market
    && str_eq t.approval.exchange_code s.exchange_code
    && str_eq t.approval.stock_code s.stock_code

-- `tradeRecord: { broker }`.
unfoldable pub is_owned : Broker → Counter → Ticket → Bool
is_owned b c t = any (λ r. str_eq r.id t.trade_record_id && broker_eq r.broker b) c.trades

abbrev pub is_waiting : Ticket → Bool
is_waiting t = approval_eq t.approval.status waiting

-- `/^\d+(?:\.\d+)?$/`.
abbrev is_fraction : List ℕ → Bool
is_fraction [] = false
is_fraction (c ∷ cs) = every is_digit (c ∷ cs)

unfoldable after_digits : List ℕ → Bool
after_digits [] = true
after_digits (c ∷ cs) =
    let rest = after_digits cs in if is_digit c then rest else c == b'.' && is_fraction cs

unfoldable is_decimal : List ℕ → Bool
unfolding after_digits is_digit
is_decimal [] = false
is_decimal (c ∷ cs) = is_digit c && after_digits cs

pub record Notice : Type 0 where
  pub ts : String
  pub channel : String
  pub notified_at : ℕ

abbrev notice_at : String → String → ℕ → ℕ → Option ℕ → Option Notice
notice_at ts channel requested received none = none
notice_at ts channel requested received (some t) =
    if ltb t requested || ltb received t
    then none
    else some (record { ts = ts; channel = channel; notified_at = t })

-- `parseSlackDelivery`; no answer is `none`.
unfoldable pub parse_slack_delivery : (String → Option ℕ) → Option Delivery → ℕ → ℕ → Option Notice
unfolding trim codes is_decimal
parse_slack_delivery instant none requested received = none
parse_slack_delivery instant (some d) requested received =
    if is_empty (trim d.ts) || is_empty (trim d.channel) || not (is_decimal (codes (trim d.ts)))
    then none
    else notice_at (trim d.ts) (trim d.channel) requested received (instant (trim d.ts))

decimal_lem : is_decimal (codes "1784079000.25") ≡ true
unfolding is_decimal codes
decimal_lem = refl

no_decimal_lem : is_decimal (codes "1784079000.") ≡ false
unfolding is_decimal codes
no_decimal_lem = refl
