-- ===== src/SellRequest/Flow.antt =====
-- `requestApproval`: expired pairs of the instrument are closed, the order is admitted, the message is
-- sent, and the pair is made final or closed. `requestApproval` returns false unless it throws; the result
-- says where it ended. What only the message shows is left out.
use kis_trader_back.Common.{
  ℕ, ◌+◌, ◌*◌, String, Bool, true, false, ◌&&◌, Option, none, some, ◌∷◌, any, if◌then◌else◌, str_eq,
  ltb, ◌==◌, get_or,
}
use kis_trader_back.Model.{
  TradeRecord, Signal, Broker, BrokerContext, OrderType, awaiting_approval, waiting,
}
use kis_trader_back.Guard.{Key, blocks, normalize_key, key_of}
use kis_trader_back.SellRequest.{
  Ticket, Counter, Booth, Notice, minute, provisional_approval_minutes, approval_validity_minutes,
  successful_notification_cooldown_minutes, normalize_approval_signal, update_rows, is_of, is_owned,
  is_waiting, parse_slack_delivery,
}
use kis_trader_back.SellRequest.Expiry.{expire_due_approval_pairs, expire_approval_pair}

-- The stock's name and the name of the strategy, and the type of the order.
pub record Labels : Type 0 where
  pub stock_name : String
  pub strategy_name : String
  pub order_type : OrderType

pub data Ending : Type 0 where
  no_broker threw busy cooling lost_race delivered undelivered : Ending

-- A notification of this broker and instrument within the cooldown.
unfoldable pub is_cooling : Broker → Signal → ℕ → Counter → Bool
unfolding is_owned
is_cooling b s requested c = any notified_lately c.tickets
  where
    after_cooldown : Option ℕ → Bool
    after_cooldown none = false
    after_cooldown (some t) = ltb requested (t + successful_notification_cooldown_minutes * minute)

    notified_lately : Ticket → Bool
    notified_lately t = is_owned b c t && is_of s t && after_cooldown t.approval.notified_at

-- `stop_loss_approvals_one_pending_per_instrument`, which has no broker.
abbrev pub is_pending_elsewhere : Signal → Counter → Bool
is_pending_elsewhere s c = any (λ t. is_of s t && is_waiting t) c.tickets

abbrev pub new_trade : Signal → Broker → Labels → BrokerContext → String → ℕ → TradeRecord
new_trade s b l context id created_at = record {
  id = id;
  broker = b;
  market = s.market;
  exchange_code = s.exchange_code;
  stock_code = s.stock_code;
  stock_name = l.stock_name;
  side = s.side;
  order_type = l.order_type;
  quantity = s.quantity;
  price = get_or s.price 0;
  executed_price = none;
  executed_qty = none;
  executed_at = none;
  order_no = none;
  status = awaiting_approval;
  strategy_name = some l.strategy_name;
  reason = some s.reason;
  submission_started_at = none;
  broker_order_date = none;
  broker_order_time = none;
  broker_environment = some context.environment;
  broker_account_hash = some context.account_hash;
  broker_message = none;
  submission_resolved_at = none;
  submission_resolved_by = none;
  submission_resolution = none;
  cancellation_status = none;
  cancellation_started_at = none;
  cancellation_resolved_at = none;
  cancellation_resolved_by = none;
  cancellation_message = none;
  created_at = created_at;
}

abbrev pub new_ticket : Signal → String → String → ℕ → Ticket
new_ticket s id trade_id requested = record {
  id = id;
  trade_record_id = trade_id;
  approval = record {
    market = s.market;
    exchange_code = s.exchange_code;
    stock_code = s.stock_code;
    signal = s;
    status = waiting;
    slack_message_ts = none;
    slack_channel = none;
    expires_at = requested + provisional_approval_minutes * minute;
    notified_at = none;
    responded_at = none;
    responded_by = none;
  };
  requested_at = requested;
}

-- The transaction of `admit`.
pub data Admitted : Type 0 where
  invalid_key unresolved cooling_down index_broken : Admitted
  pair_created : Counter → Admitted

unfoldable pub create_pair : Signal → Broker → Labels → BrokerContext → Booth → Counter → Admitted
create_pair s b l context e c =
    if is_pending_elsewhere s c
    then index_broken
    else pair_created (record {
      trades = new_trade s b l context e.trade_id (e.now 0) ∷ c.trades;
      tickets = new_ticket s e.ticket_id e.trade_id (e.now 0) ∷ c.tickets;
    })

unfoldable pub admit_pair :
    Signal → Broker → Labels → BrokerContext → Booth → Option Key → Counter → Admitted
unfolding is_cooling create_pair
admit_pair s b l context e none c = invalid_key
admit_pair s b l context e (some k) c =
    if any (blocks k) c.trades
    then unresolved
    else if is_cooling b s (e.now 0) c
    then cooling_down
    else create_pair s b l context e c

-- `reloadPendingApproval`.
unfoldable pub reload_pending_approval : Broker → Signal → Counter → Bool
unfolding is_owned
reload_pending_approval b s c = any (λ t. is_owned b c t && is_of s t && is_waiting t) c.tickets

abbrev pub finalize : Notice → Ticket → Ticket
finalize n t = record t {
  approval = record t.approval {
    notified_at = some n.notified_at;
    expires_at = n.notified_at + approval_validity_minutes * minute;
    slack_message_ts = some n.ts;
    slack_channel = some n.channel;
  };
}

abbrev pub is_open : Booth → Ticket → Bool
is_open e t =
    str_eq t.id e.ticket_id
    && str_eq t.trade_record_id e.trade_id
    && is_waiting t
    && ltb (e.now 2) t.approval.expires_at

-- The approval gets its message; the result says whether it was still open.
unfoldable pub finalize_ticket : Booth → Notice → Counter → Bool × Counter
unfolding update_rows
finalize_ticket e n c =
    let (count, tickets) = update_rows (is_open e) (finalize n) c.tickets in
    (count == 1, record c { tickets = tickets })

abbrev pub notice_of : Booth → Option Notice
notice_of e =
    if e.slack_enabled then parse_slack_delivery e.instant e.delivery (e.now 0) (e.now 1) else none

unfoldable pub send_request : Booth → Option Notice → Counter → Bool × Counter
unfolding finalize_ticket
send_request e none c = (false, c)
send_request e (some n) c = finalize_ticket e n (e.meddle 3 c)

abbrev pub closed : Option Counter → Counter → Ending × Counter
closed none c = (threw, c)
closed (some c') c = (undelivered, c')

-- A pair that got no message is closed.
unfoldable pub after_sending : Booth → Bool → Counter → Ending × Counter
unfolding expire_approval_pair
after_sending e true c = (delivered, c)
after_sending e false c =
    closed (expire_approval_pair e.ticket_id e.trade_id (e.meddle 4 c)) (e.meddle 4 c)

-- What follows the creation.
unfoldable pub deliver : Booth → Counter → Ending × Counter
unfolding send_request parse_slack_delivery after_sending
deliver e c = let (sent, c') = send_request e (notice_of e) c in after_sending e sent c'

abbrev pub after_admission : Booth → Broker → Signal → Counter → Admitted → Ending × Counter
after_admission e b s c invalid_key = (threw, c)
after_admission e b s c unresolved = (busy, c)
after_admission e b s c cooling_down = (cooling, c)
after_admission e b s c index_broken =
    (if reload_pending_approval b s (e.meddle 2 c) then lost_race else threw, e.meddle 2 c)
after_admission e b s c (pair_created c') = deliver e c'

unfoldable pub admit_and_deliver :
    Booth → Signal → Broker → Labels → Option BrokerContext → Counter → Ending × Counter
unfolding admit_pair normalize_key reload_pending_approval deliver
admit_and_deliver e s b l none c = (threw, c)
admit_and_deliver e s b l (some context) c =
    after_admission e b s (e.meddle 1 c)
      (admit_pair s b l context e (normalize_key (key_of b s)) (e.meddle 1 c))

abbrev pub after_expiry :
    Booth → Signal → Broker → Labels → Counter → Option Counter → Ending × Counter
after_expiry e s b l c none = (threw, c)
after_expiry e s b l c (some c') = admit_and_deliver e s b l (e.context b) c'

unfoldable pub request_in : Booth → Signal → Option Broker → Labels → Counter → Ending × Counter
unfolding expire_due_approval_pairs admit_and_deliver
request_in e s none l c = (no_broker, c)
request_in e s (some b) l c =
    after_expiry e s b l (e.meddle 0 c) (expire_due_approval_pairs b s (e.now 0) (e.meddle 0 c))

unfoldable pub request_approval : Booth → Signal → Labels → Counter → Ending × Counter
unfolding normalize_approval_signal request_in
request_approval e signal l c =
    let s = normalize_approval_signal signal in request_in e s s.broker l c
