-- ===== src/Examples/Data.antt =====
-- Concrete records, surroundings and reports for the examples.
use kis_trader_back.Common.{
  ℕ, String, true, false, Option, none, some, [], ◌∷◌, if◌then◌else◌, ◌==◌,
}
use kis_trader_back.Pagination.{Page}
use kis_trader_back.Model.{
  not_rejected, TradeRecord, Signal, OrderResult, Outcome, BrokerContext, BalanceItem,
  UnfilledOrder, BrokerOrder, kis, overseas, buy, sell, limit_order, submitting, partial, pending,
  awaiting_approval, paper, waiting,
}
use kis_trader_back.Db.{World}
use kis_trader_back.Env.{Env, answered}
use kis_trader_back.Execution.{Request}
use kis_trader_back.Approval.Defs.{Approval, Desk, Office}
use kis_trader_back.Reconcile.Strategy.{Links}
use kis_trader_back.Reconcile.Record.{Report}
use kis_trader_back.Reconcile.Orders.{Sync}

abbrev pub admitted : TradeRecord
admitted = record {
  id = "r1";
  broker = kis;
  market = overseas;
  exchange_code = "NASD";
  stock_code = "TQQQ";
  stock_name = "TQQQ";
  side = buy;
  order_type = limit_order;
  quantity = 10;
  price = 5000;
  executed_price = none;
  executed_qty = none;
  executed_at = none;
  order_no = none;
  status = submitting;
  strategy_name = some "infinite-buy";
  reason = none;
  submission_started_at = none;
  broker_order_date = none;
  broker_order_time = none;
  broker_environment = some paper;
  broker_account_hash = some "hash";
  broker_message = none;
  submission_resolved_at = none;
  submission_resolved_by = none;
  submission_resolution = none;
  cancellation_status = none;
  cancellation_started_at = none;
  cancellation_resolved_at = none;
  cancellation_resolved_by = none;
  cancellation_message = none;
  created_at = 1000;
}

-- Six shares of ten are filled.
abbrev pub half_filled : TradeRecord
half_filled = record admitted {
  status = partial;
  order_no = some "100";
  executed_qty = some 6;
  executed_price = some 4990;
  broker_order_date = some "20260715";
}

abbrev pub listed : TradeRecord
listed = record admitted {
  status = pending;
  order_no = some "101";
  broker_order_date = some "20260715";
}

abbrev pub in_world : TradeRecord → World
in_world r = record { row = r; posts = []; effects = [] }

abbrev pub buy_signal : Signal
buy_signal = record {
  broker = some kis;
  market = overseas;
  exchange_code = "NASD";
  stock_code = "TQQQ";
  side = buy;
  quantity = 10;
  price = some 5000;
  reason = "first buy";
  order_division = none;
  phase = none;
}

abbrev pub account : BrokerContext
account = record { broker = kis; environment = paper; account_hash = "hash" }

abbrev pub order_taken : OrderResult
order_taken = record {
  outcome = Outcome.accepted;
  order_no = some "100";
  broker_order_date = some "20260715";
  order_time = some "103000";
  message = "ok";
}

abbrev pub holding : BalanceItem
holding = record { stock_code = "TQQQ"; quantity = 7; exchange_code = some "NASD" }

-- Trading is on, the broker accepts what it is sent, and no other task is at the record.
abbrev pub calm : Env
calm = record {
  live = λ k. true;
  active = λ k. true;
  now = λ k. 2000;
  context = λ k b. some account;
  meddle = λ k r. r;
  throws = λ k. false;
  holdings = some (holding ∷ []);
  refresh_error = "";
  submit = λ s. answered order_taken;
  cancel = λ n. answered order_taken;
}

abbrev pub request : Request
request = record {
  signal = buy_signal;
  strategy_name = "infinite-buy";
  context = account;
  has_watch_stock = true;
  has_exit_plan = false;
}

abbrev pub asked : Approval
asked = record {
  market = overseas;
  exchange_code = "NASD";
  stock_code = "TQQQ";
  signal = record buy_signal { side = sell };
  status = waiting;
  slack_message_ts = some "1.2";
  slack_channel = some "C1";
  expires_at = 9000;
  notified_at = some 1500;
  responded_at = none;
  responded_by = none;
}

abbrev pub desk : Desk
desk = record {
  world = in_world (record admitted { side = sell; status = awaiting_approval });
  approval = asked;
}

abbrev pub office : Office
office = record {
  env = calm;
  meddle_approval = λ k a. a;
  approvers = some ("U1" ∷ []);
  has_watch_stock = true;
}

-- The broker's report of a full fill of an order.
abbrev pub full_fill : String → BrokerOrder
full_fill order_no = record {
  order_no = order_no;
  stock_code = "tqqq";
  side = buy;
  order_quantity = 10;
  filled_quantity = 10;
  remaining_quantity = 0;
  filled_price = some 4980;
  exchange_code = some "NASD";
  order_date = some "20260715";
  order_time = none;
  order_price = some 5000;
  rejection_state = some not_rejected;
  rejected = false;
  rejected_reason = none;
}

-- The stock of every record is watched, and the signal of every order is found.
abbrev pub linked : TradeRecord → Links
linked r = record { watched = true; signal = some buy_signal; slack_on = true }

abbrev pub report : Report
report = record {
  order = some (full_fill "100");
  details = λ s. some "filled";
  links = linked half_filled;
  still_open = false;
  held = 10;
  now = 5000;
}

abbrev pub sync : Sync
sync = record {
  context = account;
  market = overseas;
  positions =
      record { market = overseas; exchange_code = "NASD"; stock_code = "TQQQ"; quantity = 10 } ∷ [];
  unfilled = [];
  orders = full_fill "100" ∷ full_fill "101" ∷ [];
  details = λ o s. some "filled";
  links = linked;
  now = 5000;
}

-- What is left of the half filled order is still listed.
abbrev pub rest_listed : UnfilledOrder
rest_listed = record {
  order_no = "100";
  stock_code = "TQQQ";
  side = buy;
  quantity = 4;
  price = 5000;
  exchange_code = some "nasd";
}

abbrev pub identity_of : String → String
identity_of row = row

-- Two pages of order numbers; the second repeats one of the first.
abbrev pub page_of : ℕ → String → String → Option (Page String)
page_of page fk nk =
    if page == 1
    then some (record {
      rows = some ("100" ∷ "101" ∷ []);
      tr_cont = some "m";
      fk = some "f1";
      nk = some "n1";
    })
    else some
        (record { rows = some ("101" ∷ "102" ∷ []); tr_cont = some "D"; fk = none; nk = none })
