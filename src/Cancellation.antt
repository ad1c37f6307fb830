-- ===== src/Cancellation.antt =====
-- src/trading/trading-order-cancellation.service.ts: the automatic cancellation of an unfilled order, from
-- the broker's list of open orders to the broker's answer.
pub mod Sending
use kis_trader_back.Common.{
  ℕ, ◌-◌, String, Bool, true, false, ◌&&◌, ◌||◌, not, Option, none, some, List, [], ◌∷◌,
  if◌then◌else◌, ◌==◌, str_eq, opt_eq, normalize, trim, is_empty, is_blank, is_some, is_none,
  get_or, any,
}
use kis_trader_back.Model.{
  TradeRecord, UnfilledOrder, OrderResult, Outcome, Market, domestic, overseas, market_eq, Broker,
  broker_eq, BrokerContext, side_eq, status_eq, pending, partial, cancellation_eq, attempting,
  environment_is, opt_environment_eq,
}
use kis_trader_back.Db.{World, M, ◌>>=◌, ◌>>◌, pure, emit, read, cancel_sent}
use kis_trader_back.Env.{Env, Reply, answered, thrown, matches_current_context}
use kis_trader_back.Recovery.{
  claim_cancellation, release_cancellation_claim, mark_cancellation_accepted,
  mark_cancellation_rejected, mark_cancellation_unknown,
}
use kis_trader_back.Dates.{is_valid_broker_order_date}

-- The exchanges of `OVERSEAS_ORDER_TR_IDS`.
abbrev pub overseas_exchanges : List String
overseas_exchanges =
    "NASD" ∷ "NYSE" ∷ "AMEX" ∷ "SEHK" ∷ "SHAA" ∷ "SZAA" ∷ "TKSE" ∷ "HASE" ∷ "VNSE" ∷ []

exchange_for : Market → String → Option String
exchange_for domestic supplied =
    if not (is_empty supplied) && not (str_eq supplied "KRX") then none else some "KRX"
exchange_for overseas supplied =
    if any (str_eq supplied) overseas_exchanges then some supplied else none

-- `normalizeUnfilledOrder`; the exchange is set in the result.
unfoldable pub normalize_unfilled_order : Market → UnfilledOrder → Option UnfilledOrder
unfolding exchange_for normalize trim
normalize_unfilled_order market o =
    if is_empty (trim o.order_no) || is_empty (trim o.stock_code) || o.quantity == 0
    then none
    else elim (exchange_for market (normalize (get_or o.exchange_code ""))) [
      | none ↦ none
      | some exchange ↦ some (record o {
        order_no = trim o.order_no;
        stock_code = normalize o.stock_code;
        exchange_code = some exchange;
      })
    ]

-- The record that `findFirst` looks for.
abbrev is_record_of : BrokerContext → Broker → Market → UnfilledOrder → TradeRecord → Bool
is_record_of context broker market o r =
    broker_eq r.broker broker
    && environment_is r.broker_environment context.environment
    && opt_eq r.broker_account_hash (some context.account_hash)
    && market_eq r.market market
    && opt_eq (some r.exchange_code) o.exchange_code
    && str_eq r.stock_code o.stock_code
    && side_eq r.side o.side
    && opt_eq r.order_no (some o.order_no)
    && (status_eq r.status pending || status_eq r.status partial)

-- `hasCompleteCancellationIdentity`.
abbrev has_complete_identity : TradeRecord → UnfilledOrder → BrokerContext → Bool
has_complete_identity r o context =
    str_eq (trim (get_or r.order_no "")) o.order_no
    && broker_eq r.broker context.broker
    && is_valid_broker_order_date r.broker_order_date
    && environment_is r.broker_environment context.environment
    && opt_eq r.broker_account_hash (some context.account_hash)

abbrev pub remaining : TradeRecord → ℕ
remaining r = r.quantity - get_or r.executed_qty 0

-- Everything that is asked of the record before the claim.
unfoldable pub is_eligible : BrokerContext → Broker → Market → UnfilledOrder → TradeRecord → Bool
unfolding trim is_valid_broker_order_date
is_eligible context broker market o r =
    is_record_of context broker market o r
    && has_complete_identity r o context
    && o.quantity == remaining r

abbrev opt_ℕ_eq : Option ℕ → Option ℕ → Bool
opt_ℕ_eq none none = true
opt_ℕ_eq (some a) (some b) = a == b
opt_ℕ_eq _ _ = false

-- `isSameClaimedCancellationTarget`.
unfoldable pub is_same_target : TradeRecord → TradeRecord → Bool
is_same_target initial claimed =
    broker_eq claimed.broker initial.broker
    && cancellation_eq claimed.cancellation_status (some attempting)
    && opt_environment_eq claimed.broker_environment initial.broker_environment
    && opt_eq claimed.broker_account_hash initial.broker_account_hash
    && market_eq claimed.market initial.market
    && str_eq claimed.exchange_code initial.exchange_code
    && str_eq claimed.stock_code initial.stock_code
    && side_eq claimed.side initial.side
    && opt_eq claimed.order_no initial.order_no
    && opt_eq claimed.broker_order_date initial.broker_order_date
    && claimed.quantity == initial.quantity
    && opt_ℕ_eq claimed.executed_qty initial.executed_qty
    && claimed.price == initial.price
    && status_eq claimed.status initial.status

-- What other tasks did to the row before this step.
abbrev pub after_others : Env → ℕ → World → World
after_others env k w = record w { row = env.meddle k w.row }

abbrev release : Env → Broker → String → M Bool
release env broker message w =
    let (done, w') =
      release_cancellation_claim (env.now 71) broker message (after_others env 72 w) in
    (false, w')

-- The broker's answer is written to the record.
unfoldable pub settle_cancellation : Env → Broker → Reply → M Bool
settle_cancellation env broker (thrown message) = do
  mark_cancellation_unknown broker message true
  pure false
settle_cancellation env broker (answered result) = elim (result.outcome) [
  | Outcome.rejected ↦ (mark_cancellation_rejected (env.now 73) broker result.message >> pure false)
  | Outcome.unknown ↦ (mark_cancellation_unknown broker result.message true >> pure false)
  | Outcome.accepted ↦ (mark_cancellation_accepted broker result.message >> pure true)
]

-- `matchesCurrentContext` throws: it asks for the context only if the record names one.
abbrev context_is_unreadable : Env → Broker → TradeRecord → Bool
context_is_unreadable env broker r =
    is_some r.broker_environment
    && not (is_blank r.broker_account_hash)
    && is_none (env.context 72 broker)

-- The claimed record is the one that was read, and the conditions still hold: the cancellation is sent.
unfoldable pub cancel_claimed : Env → Broker → UnfilledOrder → TradeRecord → TradeRecord → M Bool
cancel_claimed env broker o initial claimed =
    if not (is_same_target initial claimed)
    then release env broker "취소 대상 주문 정보 변경"
    else if not (env.live 72)
    then release env broker "실거래 비활성화로 자동 주문 취소 중단"
    else if context_is_unreadable env broker claimed
    then release env broker "브로커 컨텍스트 확인 실패로 자동 주문 취소 중단"
    else if not (
        matches_current_context env 72 broker claimed.broker_environment
          claimed.broker_account_hash)
    then release env broker "브로커 컨텍스트 변경으로 자동 주문 취소 중단"
    else if not (env.active 72)
    then release env broker "브로커 비활성화로 자동 주문 취소 중단"
    else do emit (cancel_sent o.quantity); settle_cancellation env broker (env.cancel o.quantity)

unfoldable pub claim_and_cancel : Env → Broker → UnfilledOrder → TradeRecord → M Bool
claim_and_cancel env broker o initial w =
    let (claimed, met) = claim_cancellation (env.now 70) broker (after_others env 70 w) in
    let seen = after_others env 71 met in
    if claimed then cancel_claimed env broker o initial seen.row seen else (false, met)

unfoldable pub cancel_in_context :
    Env → Broker → Market → UnfilledOrder → Option BrokerContext → M (Option Bool)
cancel_in_context env broker market o none w = (none, w)
cancel_in_context env broker market o (some context) w =
    if is_eligible context broker market o w.row
    then (let (done, w') = claim_and_cancel env broker o w.row w in (some done, w'))
    else (some false, w)

unfoldable pub cancel_normalized : Env → Broker → Market → Option UnfilledOrder → M (Option Bool)
cancel_normalized env broker market none w = (some false, w)
cancel_normalized env broker market (some o) w =
    if env.active 70
    then cancel_in_context env broker market o (env.context 70 broker) w
    else (some false, w)

-- `cancelUnfilledOrder`, the state being the record that has the order's identity; `none` is the
-- exception of a broker context that cannot be read.
unfoldable pub cancel_unfilled_order : Env → Broker → Market → UnfilledOrder → M (Option Bool)
cancel_unfilled_order env broker market order w =
    if env.live 70
    then cancel_normalized env broker market (normalize_unfilled_order market order) w
    else (some false, w)
