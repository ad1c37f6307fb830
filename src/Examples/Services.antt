-- ===== src/Examples/Services.antt =====
-- The theorems on the login, the cash balances and the synchronization at concrete inputs.
use kis_trader_back.Common.{
  String, opt_eq, ◌⊎◌, ℕ, ◌+◌, ◌≡◌, ◌≤◌, refl, true, false, Option, none, some, List, [], ◌∷◌, map,
  keep, arith, inr, any, if◌then◌else◌,
}
use kis_trader_back.Model.{Outcome, Broker, kis, toss, Market, domestic, overseas}
use kis_trader_back.Auth.{Admin, LoginAttempt, granted, too_many_requests, clear_expired, login}
use kis_trader_back.Auth.Lockout.{Try, failures, login_lockout, login_recovers}
use kis_trader_back.Cash.{
  pos, CashBalance, Settings, CashPort, cash_balances_of, refresh_market_cash, replace_cache,
  get_cache, shown, stamp, in_market,
}
use kis_trader_back.Cash.Settings.{find_setting}
use kis_trader_back.Cash.Views.{same_scope}
use kis_trader_back.Cash.Refreshed.{refresh_market_cash-get_cache, replace_cache-get_cache}
use kis_trader_back.Sync.Schedule.{Port, Setup, State, Options, ok, get_sync_interval_ms, sync_key}
use kis_trader_back.Sync.{
  sync_broker_market_orders, sync_market_orders, reconcile_market, map_unfilled_orders, context_for,
  wanted_ports, first_error,
}
use kis_trader_back.Sync.Interval.{get_sync_interval_ms-bounds, sync_throttled, sync_due}
use kis_trader_back.Sync.Brokers.{each_port, sync_market_orders-isolated, sync_market_orders-single}
use kis_trader_back.Sync.Unfilled.{get_market_unfilled_orders}
use kis_trader_back.Sync.Unfilled.Listed.{all_answered, get_market_unfilled_orders-answered}
use kis_trader_back.Mutation.{KisResponse, is_explicit_rejection, classify_kis_order_response}
use kis_trader_back.Mutation.Classified.{Accepted, classify_kis_order_response-Classified}
use kis_trader_back.Examples.Data.{half_filled, in_world, account, full_fill, linked}

abbrev admin : Admin
admin = record { username = "admin"; password = "secret" }

abbrev guess : ℕ → String → Try
guess t password = record { at = t; username = "admin"; password = password }

abbrev guesses : List Try
guesses =
    guess 5002000 "two" ∷ guess 5003000 "three" ∷ guess 5004000 "four" ∷ guess 5005000 "five" ∷ []

-- An attempt whose window has ended is kept at the start.
abbrev stale : LoginAttempt
stale = record { count = 2; first_attempt_at = 0; blocked_until = none }

login_lockout_example :
    let locked = failures admin (guess 5001000 "one" ∷ guesses) (some stale) in
    login admin 5006000 5006001 "admin" "secret" locked ≡ (too_many_requests, locked)
unfolding clear_expired
login_lockout_example =
    login_lockout admin (guess 5001000 "one") (guess 5002000 "two")
      (guess 5003000 "three" ∷ guess 5004000 "four" ∷ guess 5005000 "five" ∷ []) (some stale)
      5006000 5006001 "admin" "secret" refl refl (refl, (refl, (refl, (refl, (refl, tt))))) refl
      (
        (omega arith, omega arith),
        (
          (omega arith, omega arith),
          ((omega arith, omega arith), ((omega arith, omega arith), tt)),
        ),
      )
      (omega arith)

login_recovers_example :
    login admin 9000000 9000001 "admin" "secret" (failures admin guesses none) ≡ (granted, none)
login_recovers_example =
    login_recovers admin guesses 9000000 9000001 (refl, (refl, (refl, (refl, tt))))
      (omega arith, (omega arith, (omega arith, (omega arith, tt))))

abbrev dollars : CashBalance
dollars = record {
  broker = none;
  market = overseas;
  currency_code = "USD";
  currency_name = some "US dollar";
  amount = pos 120000;
  withdrawable_amount = none;
  orderable_amount = some (pos 90000);
  general_orderable_amount = none;
  integrated_orderable_amount = none;
  pending_buy_amount = none;
  pending_sell_amount = none;
  receivable_amount = none;
  margin_amount = none;
}

abbrev bank : CashPort
bank = record { domestic_cash = some (pos 5000000); overseas_cash = some (dollars ∷ []) }

refresh_market_cash-get_cache_example :
    (s' : Settings) × (refresh_market_cash bank kis overseas 7000 7001 [] ≡ some s')
    × (shown kis overseas (get_cache s') ≡ map (stamp kis overseas) (dollars ∷ []))
    × ((c : Broker) (k : Market)
        → same_scope kis overseas c k ≡ false
        → shown c k (get_cache s') ≡ shown c k (get_cache []))
unfolding cash_balances_of
refresh_market_cash-get_cache_example =
    refresh_market_cash-get_cache bank kis overseas 7000 7001 [] (dollars ∷ []) refl

replace_cache-get_cache_example :
    shown kis overseas
      (get_cache (replace_cache kis (dollars ∷ []) (domestic ∷ overseas ∷ []) (λ m. 7000) []))
    ≡ (if any (λ m. same_scope kis m kis overseas) (domestic ∷ overseas ∷ [])
        then map (stamp kis overseas) (keep (in_market overseas) (dollars ∷ []))
        else shown kis overseas (get_cache []))
replace_cache-get_cache_example =
    replace_cache-get_cache kis (dollars ∷ []) (domestic ∷ overseas ∷ []) (λ m. 7000) [] kis
      overseas

get_sync_interval_ms-bounds_example :
    (10000 ≤ get_sync_interval_ms domestic 130000 1)
    × (get_sync_interval_ms domestic 130000 1 ≤ 90000)
    × (get_sync_interval_ms domestic 130000 1 ≤ get_sync_interval_ms domestic 1000000 1)
get_sync_interval_ms-bounds_example =
    get_sync_interval_ms-bounds domestic 130000 1 1000000 1 (omega arith) (omega arith)

abbrev kis_port : Port
kis_port = record {
  broker = kis;
  executions = λ m start until. some (full_fill "100" ∷ []);
  unfilled = λ m. some [];
  cash = bank;
}

-- A broker that answers nothing.
abbrev toss_port : Port
toss_port = record {
  broker = toss;
  executions = λ m start until. none;
  unfilled = λ m. none;
  cash = record { domestic_cash = none; overseas_cash = none };
}

abbrev setup : List Port → Setup
setup ports = record {
  ports = ports;
  is_paper = true;
  context = λ b. some account;
  details = λ o s. some "filled";
  links = linked;
  format_kis_date = λ t. "20260715";
  day_before = λ t. t;
  now = λ b k. 200000;
}

abbrev unforced : Options
unforced = record { force = false; broker = none; fail_on_any_error = true }

abbrev synced_at : ℕ → State
synced_at t = record {
  table = in_world half_filled ∷ [];
  settings = [];
  last_synced_at = record { key = "KIS:OVERSEAS"; value = t } ∷ [];
}

sync_throttled_example :
    sync_broker_market_orders
      (setup (kis_port ∷ []))
      kis_port
      overseas
      []
      unforced
      (synced_at 195000)
    ≡ (ok tt, synced_at 195000)
unfolding find_setting sync_key
sync_throttled_example =
    sync_throttled (setup (kis_port ∷ [])) kis_port overseas [] unforced (synced_at 195000) 195000
      refl refl (omega arith)

sync_market_orders-isolated_example :
    let e = setup (toss_port ∷ kis_port ∷ []) in
    let (errors, after) = each_port e overseas [] unforced e.ports (synced_at 100) in
    sync_market_orders e overseas [] unforced (synced_at 100) ≡ (first_error errors, after)
sync_market_orders-isolated_example =
    sync_market_orders-isolated (setup (toss_port ∷ kis_port ∷ [])) overseas [] unforced
      (synced_at 100) refl (omega arith)

sync_market_orders-single_example :
    sync_market_orders (setup (kis_port ∷ [])) overseas [] unforced (synced_at 100)
    ≡ sync_broker_market_orders
        (setup (kis_port ∷ []))
        kis_port
        overseas
        []
        unforced
        (synced_at 100)
unfolding wanted_ports
sync_market_orders-single_example =
    sync_market_orders-single (setup (kis_port ∷ [])) overseas [] unforced kis_port (synced_at 100)
      refl

sync_due_example :
    let e = setup (kis_port ∷ []) in
    (sync_broker_market_orders e kis_port overseas [] unforced (synced_at 100) ≡ (
      ok tt,
      reconcile_market e kis_port overseas [] account (full_fill "100" ∷ []) [] (synced_at 100),
    ))
    × (find_setting
          (sync_key kis overseas)
          (sync_broker_market_orders e kis_port overseas [] unforced
            (synced_at 100)).1.last_synced_at
        ≡ some 200000)
unfolding map_unfilled_orders context_for find_setting sync_key
sync_due_example =
    sync_due (setup (kis_port ∷ [])) kis_port overseas [] unforced (synced_at 100)
      (full_fill "100" ∷ []) [] account refl (inr earlier) (λ w. refl) refl refl
  where
    earlier : (last : ℕ) → ◌≡◌ {A = Option ℕ} (some 100) (some last) → last + 90000 ≤ 200000
    earlier last ran = ground arith

get_market_unfilled_orders-answered_example :
    let e = setup (toss_port ∷ kis_port ∷ []) in
    get_market_unfilled_orders e overseas none (in_world half_filled ∷ [])
    ≡ ok (all_answered e overseas (in_world half_filled ∷ []) (wanted_ports e none))
unfolding wanted_ports
get_market_unfilled_orders-answered_example =
    get_market_unfilled_orders-answered (setup (toss_port ∷ kis_port ∷ [])) overseas
      (in_world half_filled ∷ []) (omega arith)

-- Answered at 2026-07-15 10:30:05 in Korea.
abbrev reply : KisResponse
reply = record {
  rt_cd = some "0";
  msg_cd = some "APBK0013";
  msg1 = some "ok";
  odno = some "0000117057";
  ord_tmd = some "103005";
}

classify_kis_order_response-Classified_example :
    let result = classify_kis_order_response reply (some 1784079000000) "order accepted" in
    ((result.outcome ≡ Outcome.accepted)
      × Accepted reply (some 1784079000000) "order accepted" result)
    ⊎ ((result.outcome ≡ Outcome.rejected)
        × (result.order_no ≡ none)
        × (opt_eq reply.rt_cd (some "0") ≡ false)
        × (is_explicit_rejection reply ≡ true))
    ⊎ ((result.outcome ≡ Outcome.unknown)
        × (result.order_no ≡ none)
        × ((opt_eq reply.rt_cd (some "0") ≡ true) ⊎ (is_explicit_rejection reply ≡ false)))
classify_kis_order_response-Classified_example =
    classify_kis_order_response-Classified reply (some 1784079000000) "order accepted"

-- The answer is accepted under the day and the time that it names.
reply_accepted :
    (classify_kis_order_response reply (some 1784079000000) "order accepted").broker_order_date
    ≡ some "20260715"
unfolding classify_kis_order_response
reply_accepted = refl
