-- ===== src/Sync/Interval.antt =====
-- How often the open orders of a broker's market are synchronized.
use kis_trader_back.Common.{
  ℕ, ◌+◌, ◌-◌, ◌≤◌, ◌<◌, ◌≡◌, refl, ap, ◌∙◌, ◌⊎◌, inl, inr, Bool, true, false, Option, none, some,
  List, [], ◌∷◌, arith, Bool-cases, keep, any,
}
use kis_trader_back.Model.{Market, domestic, overseas, BrokerOrder, UnfilledOrder, BrokerContext}
use kis_trader_back.Db.{World}
use kis_trader_back.Cash.Settings.{find_setting, find_setting-upsert}
use kis_trader_back.Sync.Schedule.{
  Port, ScopedPosition, Options, Setup, State, ok, Window, sync_key, is_open_at, window_of,
  get_open_order_window, get_sync_interval_ms, is_due, should_sync_now,
}
use kis_trader_back.Sync.{
  map_unfilled_orders, context_for, reconcile_market, in_context, with_unfilled, with_executions,
  in_window, sync_broker_market_orders,
}

-- The interval lies between ten and ninety seconds. It is no shorter for orders that are older and
-- no more.
pub get_sync_interval_ms-bounds :
    (m : Market) (age count older fewer : ℕ)
    → age ≤ older
    → fewer ≤ count
    → (10000 ≤ get_sync_interval_ms m age count)
      × (get_sync_interval_ms m age count ≤ 90000)
      × (get_sync_interval_ms m age count ≤ get_sync_interval_ms m older fewer)
unfolding get_sync_interval_ms
get_sync_interval_ms-bounds domestic age count older fewer a c =
    (ground arith, ground arith, ground arith)
get_sync_interval_ms-bounds overseas age count older fewer a c =
    (ground arith, ground arith, ground arith)

not_due :
    (m : Market) (now last : ℕ) (w : Window)
    → now < last + 10000
    → is_due m now w (some last) ≡ false
unfolding is_due
not_due m now last w h =
    let b =
      get_sync_interval_ms-bounds m (now - w.newest_created_at) w.open_order_count
        (now - w.newest_created_at) w.open_order_count (omega arith) (omega arith) in
    ground (arith, b)

skipped :
    (e : Setup) (p : Port) (m : Market) (positions : List ScopedPosition) (o : Options) (s : State)
    (last : ℕ)
    → o.force ≡ false
    → find_setting (sync_key p.broker m) s.last_synced_at ≡ some last
    → e.now p.broker 1 < last + 10000
    → (w : Option Window) → in_window e p m positions o s w ≡ (ok tt, s)
unfolding in_window should_sync_now
skipped e p m positions o s last unforced ran soon none = refl
skipped e p m positions o s last unforced ran soon (some w) =
    rw (unforced, ran, not_due m (e.now p.broker 1) last w soon) refl

-- Within ten seconds of a run, another that is not forced leaves everything as it is.
pub sync_throttled :
    (e : Setup) (p : Port) (m : Market) (positions : List ScopedPosition) (o : Options) (s : State)
    (last : ℕ)
    → o.force ≡ false
    → find_setting (sync_key p.broker m) s.last_synced_at ≡ some last
    → e.now p.broker 1 < last + 10000
    → sync_broker_market_orders e p m positions o s ≡ (ok tt, s)
unfolding sync_broker_market_orders
sync_throttled e p m positions o s last unforced ran soon =
    skipped e p m positions o s last unforced ran soon (get_open_order_window e p.broker m s.table)

due :
    (m : Market) (now last : ℕ) (w : Window)
    → last + 90000 ≤ now
    → is_due m now w (some last) ≡ true
unfolding is_due
due m now last w h =
    let b =
      get_sync_interval_ms-bounds m (now - w.newest_created_at) w.open_order_count
        (now - w.newest_created_at) w.open_order_count (omega arith) (omega arith) in
    ground (arith, b)

is_due_lem :
    (m : Market) (now : ℕ) (w : Window) (ran : Option ℕ)
    → ((last : ℕ) → ran ≡ some last → last + 90000 ≤ now)
    → is_due m now w ran ≡ true
unfolding is_due
is_due_lem m now w none h = refl
is_due_lem m now w (some last) h = due m now last w (h last refl)

window_found :
    (e : Setup) (now : ℕ) (p : World → Bool) (t : List World)
    → any p t ≡ true
    → (w : Window) × (window_of e now (keep p t) ≡ some w)
unfolding window_of
window_found e now p [] h = cc
window_found e now p (x ∷ xs) h = elim (Bool-cases (p x)) [
  | inl hit ↦ rw hit (_, refl)
  | inr miss ↦ rw miss (window_found e now p xs (rw miss at h))
]

should :
    (e : Setup) (p : Port) (m : Market) (o : Options) (s : State) (w : Window)
    → (o.force ≡ true)
      ⊎ ((last : ℕ)
          → find_setting (sync_key p.broker m) s.last_synced_at ≡ some last
          → last + 90000 ≤ e.now p.broker 1)
    → should_sync_now e p.broker m w o s ≡ true
unfolding should_sync_now
should e p m o s w (inl forced) = rw forced refl
should e p m o s w (inr old) =
    let d =
      is_due_lem m (e.now p.broker 1) w (find_setting (sync_key p.broker m) s.last_synced_at) old in
    ground (arith, d)

synced :
    (e : Setup) (p : Port) (m : Market) (positions : List ScopedPosition) (o : Options) (s : State)
    (orders : List BrokerOrder) (unfilled : List UnfilledOrder) (c : BrokerContext) (w : Window)
    → should_sync_now e p.broker m w o s ≡ true
    → p.executions m w.start_date w.end_date ≡ some orders
    → map_unfilled_orders e p m orders ≡ some unfilled
    → context_for e p.broker ≡ some c
    → in_window e p m positions o s (some w)
      ≡ (ok tt, reconcile_market e p m positions c orders unfilled s)
unfolding in_window with_executions with_unfilled in_context
synced e p m positions o s orders unfilled c w due answered mapped current =
    rw (due, answered, mapped, current) refl

remembered :
    (e : Setup) (p : Port) (m : Market) (positions : List ScopedPosition) (c : BrokerContext)
    (orders : List BrokerOrder) (unfilled : List UnfilledOrder) (s : State)
    → find_setting
        (sync_key p.broker m)
        (reconcile_market e p m positions c orders unfilled s).last_synced_at
      ≡ some (e.now p.broker 5)
unfolding reconcile_market
remembered e p m positions c orders unfilled s =
    find_setting-upsert (sync_key p.broker m) _ s.last_synced_at

-- If a broker has an open order in the table, it answers the executions and the unfilled orders,
-- its context is the configured one, and the last run, if there was one, lies ninety seconds back
-- or a run is forced, then the open orders of the market are reconciled, and the run is remembered.
pub sync_due :
    (e : Setup) (p : Port) (m : Market) (positions : List ScopedPosition) (o : Options) (s : State)
    (orders : List BrokerOrder) (unfilled : List UnfilledOrder) (c : BrokerContext)
    → any (is_open_at p.broker m) s.table ≡ true
    → (o.force ≡ true)
      ⊎ ((last : ℕ)
          → find_setting (sync_key p.broker m) s.last_synced_at ≡ some last
          → last + 90000 ≤ e.now p.broker 1)
    → ((w : Window) → p.executions m w.start_date w.end_date ≡ some orders)
    → map_unfilled_orders e p m orders ≡ some unfilled
    → context_for e p.broker ≡ some c
    → (sync_broker_market_orders e p m positions o s
        ≡ (ok tt, reconcile_market e p m positions c orders unfilled s))
      × (find_setting
            (sync_key p.broker m)
            (sync_broker_market_orders e p m positions o s).1.last_synced_at
          ≡ some (e.now p.broker 5))
unfolding sync_broker_market_orders get_open_order_window
sync_due e p m positions o s orders unfilled c listed old answered mapped current =
    let (w, found) = window_found e (e.now p.broker 0) (is_open_at p.broker m) s.table listed in
    let run =
      ap (in_window e p m positions o s) found
      ∙ synced e p m positions o s orders unfilled c w (should e p m o s w old) (answered w) mapped
          current in
    (
      run,
      ap (λ r. find_setting (sync_key p.broker m) r.1.last_synced_at) run
          ∙ remembered e p m positions c orders unfilled s,
    )
