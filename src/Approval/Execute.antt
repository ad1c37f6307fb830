-- ===== src/Approval/Execute.antt =====
-- `executeClaimedApproval` and `approve`: the approved sell from the committed decision to the answer.
use kis_trader_back.Common.{
  ℕ, String, Bool, true, false, ◌&&◌, ◌||◌, not, Option, none, some, List, if◌then◌else◌, ◌==◌, min,
  find_first, str_eq, normalize, get_or, is_none,
}
use Prim.Native.String
use kis_trader_back.Model.{
  TradeRecord, BalanceItem, is_domestic, submitting, status_eq, approved, approval_eq,
  order_submitted,
}
use kis_trader_back.Db.{Update, emit, log}
use kis_trader_back.Env.{update_at}
use kis_trader_back.Approval.Defs.{
  Approval, Office, trading_disabled, refresh_failed, no_holding, submission_claim_lost,
  broker_context_mismatch, broker_disabled, state_changed, unauthorized, Result, D, ◌>>=◌, ◌>>◌,
  pure, on_record, await, context_matches, read_persisted_outcome,
}
use kis_trader_back.Approval.Submit.{cancel_for, cancel_claimed_before_post, order_of, submit_order}
use kis_trader_back.Approval.Decide.{approve, reject, authorized_actor, decide}

-- `matchesHolding`.
unfoldable pub matches_holding : Approval → BalanceItem → Bool
unfolding normalize
matches_holding a item =
    (is_domestic a.market
      || str_eq (normalize a.exchange_code) (normalize (get_or item.exchange_code "")))
    && str_eq (normalize a.stock_code) (normalize item.stock_code)

-- The shares that the account holds of the approved stock.
unfoldable pub held_quantity : Approval → List BalanceItem → ℕ
held_quantity a items = elim (find_first (matches_holding a) items) [
  | none ↦ 0
  | some item ↦ item.quantity
]

abbrev pub claim_quantity_update : ℕ → ℕ → Update
claim_quantity_update quantity now = record {
  guard = λ r. status_eq r.status submitting && is_none r.submission_started_at;
  change = λ r. record r { quantity = quantity; submission_started_at = some now };
}

-- What `executeClaimedApproval` read at its start, and goes by.
pub record Snapshot : Type 0 where
  pub approval : Approval
  pub row : TradeRecord
  pub current : Result

-- After the execution log the conditions are looked at a last time, then the order goes out.
unfoldable pub post_logged : Office → Snapshot → ℕ → ℕ → D Result
post_logged o s quantity started =
    if not (o.env.live 34)
    then cancel_claimed_before_post o 56 s.current started
        "Live trading disabled after submission claim" trading_disabled
    else if not (context_matches o 34 s.row)
    then cancel_claimed_before_post o 58 s.current started
        "Broker context changed after submission claim" broker_context_mismatch
    else if not (o.env.active 34)
    then cancel_claimed_before_post o 60 s.current started "Broker disabled after submission claim"
        broker_disabled
    else submit_order o s.current (order_of s.approval s.row quantity)

unfoldable pub post_claimed : Office → Snapshot → ℕ → ℕ → D Result
post_claimed o s quantity started =
    if not (context_matches o 33 s.row)
    then cancel_claimed_before_post o 50 s.current started
        "Broker context changed after submission claim" broker_context_mismatch
    else if not (o.env.live 33)
    then cancel_claimed_before_post o 52 s.current started
        "Live trading disabled after submission claim" trading_disabled
    else if not (o.env.active 33)
    then cancel_claimed_before_post o 54 s.current started "Broker disabled after submission claim"
        broker_disabled
    else do
      if o.has_watch_stock then on_record (emit (log order_submitted)) else pure tt
      post_logged o s quantity started

unfoldable pub claim_and_post : Office → Snapshot → ℕ → D Result
unfolding update_at
claim_and_post o s quantity = do
  count ← on_record (update_at o.env 48 (claim_quantity_update quantity (o.env.now 33)))
  if count == 1
      then post_claimed o s quantity (o.env.now 33)
      else pure (record (s.current) { claimed = false; reason = some submission_claim_lost })

-- The clamped signal is stored in the approval, if that is still APPROVED.
unfoldable pub persist_signal : Office → ℕ → D Bool
persist_signal o quantity start =
    let d = await o 42 start in
    if o.env.throws 42
    then (false, start)
    else if approval_eq d.approval.status approved
    then (
      true,
      record d {
        approval = record (d.approval) {
          signal = record (d.approval.signal) { quantity = quantity };
        };
      },
    )
    else (false, d)

unfoldable pub persist_and_post : Office → Snapshot → ℕ → D Result
persist_and_post o s quantity = do
  stored ← persist_signal o quantity
  if not stored
      then cancel_for o 43 s.current "승인 주문 수량 저장 실패로 주문 취소" state_changed
      else if not (context_matches o 32 s.row)
      then cancel_for o 44 s.current "Broker context changed before submission"
          broker_context_mismatch
      else if not (o.env.active 32)
      then cancel_for o 46 s.current "Broker disabled before submission" broker_disabled
      else claim_and_post o s quantity

-- The account holds `held` shares of the stock; no more than that, nor than the record asks for, is sold.
unfoldable pub sell_held : Office → Snapshot → ℕ → D Result
sell_held o s held =
    if held == 0
    then cancel_for o 38 s.current "No matching broker holding" no_holding
    else if not (o.env.live 31)
    then cancel_for o 40 s.current "Live trading disabled before submission" trading_disabled
    else persist_and_post o s (min s.row.quantity held)

unfoldable pub sell_refreshed : Office → Snapshot → Option (List BalanceItem) → D Result
sell_refreshed o s none =
    cancel_for o 36 s.current (String.◌++◌ "Position refresh failed: " o.env.refresh_error)
      refresh_failed
sell_refreshed o s (some items) = sell_held o s (held_quantity s.approval items)

unfoldable pub execute_snapshot : Office → Snapshot → D Result
execute_snapshot o s =
    if not (context_matches o 31 s.row)
    then cancel_for o 34 s.current "Broker context changed before submission"
        broker_context_mismatch
    else if not (o.env.active 31)
    then cancel_for o 35 s.current "Broker disabled before submission" broker_disabled
    else sell_refreshed o s o.env.holdings

unfoldable pub execute_claimed_approval : Office → Result → D Result
unfolding read_persisted_outcome
execute_claimed_approval o current start =
    let d = await o 33 start in
    if approval_eq d.approval.status approved && status_eq d.world.row.status submitting
    then execute_snapshot o (record { approval = d.approval; row = d.world.row; current = current })
        d
    else read_persisted_outcome o 34 d

abbrev unauthorized_result : Result
unauthorized_result = record {
  approval_status = none;
  trade_status = none;
  claimed = false;
  submitted = false;
  reason = some unauthorized;
}

-- `approve` by the actor that the Slack user is, less the update of the Slack message.
unfoldable pub approve_as : Office → Option String → D Result
approve_as o none d = (unauthorized_result, d)
approve_as o (some actor) d =
    let (result, d') = decide o approve actor d in
    if result.claimed then execute_claimed_approval o result d' else (result, d')

unfoldable pub approve_sell : Office → String → D Result
unfolding approve_as
approve_sell o slack_user_id = approve_as o (authorized_actor o slack_user_id)

-- `reject`, less the update of the Slack message.
unfoldable pub reject_sell : Office → String → D Result
reject_sell o slack_user_id d = elim (authorized_actor o slack_user_id) [
  | none ↦ (unauthorized_result, d)
  | some actor ↦ decide o reject actor d
]
