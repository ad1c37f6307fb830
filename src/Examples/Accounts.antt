-- ===== src/Examples/Accounts.antt =====
-- The theorems on positions, histories, contexts and requests for approval at concrete inputs.
use kis_trader_back.Common.{
  ℕ, ◌+◌, ◌*◌, ◌≡◌, refl, String, true, false, none, some, List, [], ◌∷◌, All,
}
use kis_trader_back.Model.{
  Broker, kis, toss, domestic, overseas, Signal, sell, buy, unclear, limit_order,
}
use kis_trader_back.Cash.{pos}
use kis_trader_back.Positions.{
  BalanceItem, PositionKey, Position, written, thrown, in_scope, is_unresolved_venue, same_listing,
  item_key, key_eq, sync_positions, read,
}
use kis_trader_back.Positions.Refined.{meant}
use kis_trader_back.Positions.Clash.{is_taken, is_clash}
use kis_trader_back.Positions.Outcome.{sync_positions-meant, sync_positions-clash}
use kis_trader_back.History.{Json, text, Row, Entry}
use kis_trader_back.History.Orders.{Sign, no_sign, ReportedOrder, ListedOrder}
use kis_trader_back.History.Requests.{Api, Account}
use kis_trader_back.History.Queries.{get_order_executions, get_unfilled_orders}
use kis_trader_back.History.Reported.{IsReported}
use kis_trader_back.History.Typed.{get_order_executions-IsReported}
use kis_trader_back.History.Listed.{AreListed, get_unfilled_orders-AreListed}
use kis_trader_back.SellRequest.{Counter, Booth, normalize_approval_signal}
use kis_trader_back.SellRequest.Flow.{Labels, request_approval}
use kis_trader_back.SellRequest.Settled.{Settled, request_approval-Settled}
use kis_trader_back.Context.{Config, get_current_context}
use kis_trader_back.Context.Configured.{get_current_context-joined}
use kis_trader_back.Examples.Data.{account}

abbrev item : String → ℕ → BalanceItem ℕ
item stock n = record {
  stock_code = stock;
  stock_name = stock;
  quantity = n;
  avg_price = 100;
  current_price = 120;
  profit_loss = 20;
  profit_rate = 20;
  exchange_code = some "NASD";
}

abbrev position : Broker → String → Position ℕ
position b stock = record {
  key = record { broker = b; market = overseas; exchange_code = "NASD"; stock_code = stock };
  stock_name = stock;
  quantity = 1;
  avg_price = 90;
  current_price = 90;
  profit_loss = 0;
  profit_rate = 0;
  total_invested = 90;
}

abbrev holdings : List (BalanceItem ℕ)
holdings = item "TQQQ" 7 ∷ item "SOXL" 3 ∷ []

abbrev stored : List (Position ℕ)
stored = position kis "TQQQ" ∷ position kis "UPRO" ∷ position toss "QLD" ∷ []

sync_positions-meant_example :
    (rows' : List (Position ℕ)) × (sync_positions (λ n p. n * p) kis overseas holdings stored
      ≡ written rows')
    × ((k : PositionKey)
        → read k rows' ≡ meant (λ n p. n * p) kis overseas holdings (λ j. read j stored) k)
unfolding is_taken is_unresolved_venue same_listing item_key
sync_positions-meant_example =
    sync_positions-meant (λ n p. n * p) kis overseas holdings stored refl (refl, (refl, tt))

sync_positions-clash_example :
    (rows' : List (Position ℕ)) × (sync_positions
        (λ n p. n * p)
        kis
        overseas
        (item "QLD" 5 ∷ holdings)
        stored
      ≡ thrown rows')
    × ((k : PositionKey) → in_scope kis overseas k ≡ false → read k rows' ≡ read k stored)
unfolding is_clash same_listing item_key key_eq
sync_positions-clash_example =
    sync_positions-clash (λ n p. n * p) kis overseas (item "QLD" 5 ∷ holdings) stored refl

abbrev settings : Config
settings = record {
  kis_account_no = none;
  kis_env = some "paper";
  kis_prod_code = none;
  toss_account_no = some "toss-1";
}

get_current_context-joined_example :
    get_current_context
      (λ s. s)
      (λ s. s)
      (record settings { kis_account_no = some "1234567801" })
      kis
    ≡ get_current_context
        (λ s. s)
        (λ s. s)
        (record settings { kis_account_no = some "12345678"; kis_prod_code = some "01" })
        kis
unfolding get_current_context
get_current_context-joined_example =
    get_current_context-joined (λ s. s) (λ s. s) settings "12345678" "01" refl refl

abbrev said : String → String → Entry
said n v = record { name = n; value = text v }

-- Seven of ten shares are executed; the rest can be cancelled.
abbrev order_row : Row
order_row =
    said "odno" "0000117057"
    ∷ said "pdno" "005930"
    ∷ said "sll_buy_dvsn_cd" "02"
    ∷ said "ord_qty" "10"
    ∷ said "tot_ccld_qty" "7"
    ∷ said "ord_dt" "20260715"
    ∷ said "ord_tmd" "103000"
    ∷ said "ovrs_excg_cd" "nasd"
    ∷ said "nccs_qty" "3"
    ∷ []

-- Every request is answered with one page of that row.
abbrev one_row : Api
one_row q page =
    some (record { outputs = λ key. some (order_row ∷ []); body = []; tr_cont = some "D" })

abbrev office_account : Account
office_account = record { account_no = "1234567801"; prod_code = "01"; is_paper = true }

-- Prices are texts here.
abbrev priced : Json → String
priced v = "0"

abbrev unsigned : String → Sign
unsigned s = no_sign

abbrev reported : ReportedOrder String
reported = record {
  order_no = "0000117057";
  stock_code = "005930";
  side = buy;
  order_quantity = some (pos 10);
  filled_quantity = some (pos 7);
  remaining_quantity = some (pos 3);
  order_price = none;
  filled_price = none;
  exchange_code = text "KRX";
  order_date = text "20260715";
  order_time = text "103000";
  rejection = record { state = unclear; rejected = none; reason = none };
}

get_order_executions-IsReported_example : All (IsReported domestic) (reported ∷ [])
unfolding get_order_executions
get_order_executions-IsReported_example =
    get_order_executions-IsReported priced one_row office_account unsigned domestic "20260701"
      "20260731" (reported ∷ []) refl

abbrev still_left : ListedOrder String
still_left = record {
  order_no = "0000117057";
  stock_code = "005930";
  side = buy;
  quantity = some (pos 3);
  price = "0";
  exchange_code = some "NASD";
}

get_unfilled_orders-AreListed_example : AreListed priced overseas (still_left ∷ [])
unfolding get_unfilled_orders
get_unfilled_orders-AreListed_example =
    get_unfilled_orders-AreListed priced one_row office_account overseas (still_left ∷ []) refl

abbrev protective_sell : Signal
protective_sell = record {
  broker = some kis;
  market = overseas;
  exchange_code = "nasd";
  stock_code = "TQQQ";
  side = sell;
  quantity = 7;
  price = some 4000;
  reason = "stop loss";
  order_division = none;
  phase = some "stop-loss";
}

-- Slack answers a second after the request.
abbrev booth : Booth
booth = record {
  context = λ b. some account;
  meddle = λ k c. c;
  now = λ k. 1784079000000 + k * 1000;
  slack_enabled = true;
  delivery = some (record { ts = "1784079000.5"; channel = "C1" });
  instant = λ s. some 1784079000500;
  trade_id = "r1";
  ticket_id = "a1";
}

abbrev labels : Labels
labels = record { stock_name = "TQQQ"; strategy_name = "infinite-buy"; order_type = limit_order }

abbrev no_rows : Counter
no_rows = record { trades = []; tickets = [] }

request_approval-Settled_example :
    Settled booth
      (normalize_approval_signal protective_sell)
      labels
      no_rows
      (request_approval booth protective_sell labels no_rows)
request_approval-Settled_example = request_approval-Settled booth protective_sell labels no_rows
