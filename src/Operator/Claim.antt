-- ===== src/Operator/Claim.antt =====
-- The transaction in which an operator's decision is written: a compare-and-set of one row of the table
-- and an audit entry, both or none, under the unique index on the broker's identity of an order.
use kis_trader_back.Common.{
  ℕ, String, Bool, true, false, ◌&&◌, ◌||◌, not, Option, none, some, List, [], ◌∷◌, if◌then◌else◌,
  ◌==◌, str_eq, opt_eq, is_some, any, trim, is_empty,
}
use kis_trader_back.Model.{
  TradeRecord, BrokerContext, Broker, opt_environment_eq, market_eq, submission_unknown, status_eq,
  BrokerOrder, UnfilledOrder,
}
use kis_trader_back.Db.{World, Effect, Update, update, M, ◌>>=◌, ◌>>◌, pure, emit}
use kis_trader_back.Recovery.TakeOver.{Table}
use kis_trader_back.Matcher.{Answer, failed, done, state_changed, already_linked, actor_required}

-- `meddle` is what other tasks do to the table before a step.
pub record Recall : Type 0 where
  pub context : ℕ → Broker → Option BrokerContext
  pub history : Option (List BrokerOrder)
  pub unfilled : Option (List UnfilledOrder)
  pub meddle : ℕ → Table → Table
  pub now : ℕ

-- The row with a primary key.
unfoldable pub find_row : String → Table → Option World
find_row id [] = none
find_row id (w ∷ ws) = if str_eq w.row.id id then some w else find_row id ws

-- An operation on that row.
unfoldable pub at_row : String → M Bool → Table → Bool × Table
at_row id m [] = (false, [])
at_row id m (w ∷ ws) =
    let (later, ws') = at_row id m ws in
    let (changed, w') = m w in if str_eq w.row.id id then (changed, w' ∷ ws) else (later, w ∷ ws')

-- `trade_records_broker_identity_unique`: two rows of the index with one key.
abbrev pub same_key : TradeRecord → TradeRecord → Bool
same_key r s =
    is_some r.broker_environment
    && is_some r.broker_account_hash
    && is_some r.broker_order_date
    && is_some r.order_no
    && opt_environment_eq r.broker_environment s.broker_environment
    && opt_eq r.broker_account_hash s.broker_account_hash
    && market_eq r.market s.market
    && str_eq r.exchange_code s.exchange_code
    && opt_eq r.broker_order_date s.broker_order_date
    && opt_eq r.order_no s.order_no

unfoldable pub breaks_index : Table → Bool
breaks_index [] = false
breaks_index (w ∷ ws) = any (λ v. same_key w.row v.row) ws || breaks_index ws

unfoldable pub claim_and_audit : Update → Effect → M Bool
unfolding update
claim_and_audit u entry = do
  count ← update u
  if count == 0 then pure false else (emit entry >> pure true)

unfoldable pub transact : String → Update → Effect → Table → Answer World × Table
unfolding at_row claim_and_audit breaks_index find_row
transact id u entry t =
    let (changed, t') = at_row id (claim_and_audit u entry) t in
    if not changed
    then (failed state_changed, t)
    else if breaks_index t'
    then (failed already_linked, t)
    else elim (find_row id t') [ none ↦ (failed state_changed, t) | some w ↦ (done w, t') ]

-- `requireActor`.
unfoldable pub require_actor : String → Answer String
unfolding trim
require_actor actor = if is_empty (trim actor) then failed actor_required else done (trim actor)

-- `loadUnknownSubmission`.
unfoldable pub find_unknown_submission : String → Table → Option World
find_unknown_submission id [] = none
find_unknown_submission id (w ∷ ws) =
    if str_eq w.row.id id && status_eq w.row.status submission_unknown
    then some w
    else find_unknown_submission id ws
