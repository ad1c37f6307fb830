-- ===== src/Sync/Brokers.antt =====
-- What a failing broker does to the synchronization of the others.
use kis_trader_back.Common.{
  ℕ, ◌≤◌, ◌≡◌, refl, ◌∙◌, Bool, true, false, ◌&&◌, ◌||◌, none, List, [], ◌∷◌, ◌++◌, arith, length,
  ◌==◌, if◌then◌else◌, is_some, append_nil,
}
use kis_trader_back.Model.{Market}
use kis_trader_back.Sync.Schedule.{
  Port, ScopedPosition, Options, Setup, State, SyncError, SyncResult, ok, thrown,
}
use kis_trader_back.Sync.{
  sync_broker_market_orders, wanted_ports, add_error, is_thrown, first_error, sync_ports,
  sync_market_orders,
}

-- Every broker in turn, whatever the others ended with.
unfoldable pub each_port :
    Setup → Market → List ScopedPosition → Options → List Port → State → List SyncError × State
each_port e m positions o [] s = ([], s)
each_port e m positions o (p ∷ ps) s =
    let (r, s') = sync_broker_market_orders e p m positions o s in
    let (errors, after) = each_port e m positions o ps s' in (add_error r [] ++ errors, after)

module _ (e : Setup) (m : Market) (positions : List ScopedPosition) (o : Options) where
  add_error_first :
      (r : SyncResult (Unit {0})) (before after : List SyncError)
      → add_error r before ++ after ≡ before ++ (add_error r [] ++ after)
  add_error_first (ok x) before after = refl
  add_error_first (thrown f) before after = shift before
    where
      shift : (xs : List SyncError) → (xs ++ (f ∷ [])) ++ after ≡ xs ++ (f ∷ after)
      shift [] = refl
      shift (x ∷ xs) = rw (shift xs) refl

  and_not : (b : Bool) → (b && false) ≡ false
  and_not b = ground arith

  sync_ports_lem :
      (ps : List Port) (errors : List SyncError) (s : State)
      → sync_ports e m positions o false ps errors s ≡ (
        (if o.fail_on_any_error
            then first_error (errors ++ (each_port e m positions o ps s).0)
            else ok tt),
        (each_port e m positions o ps s).1,
      )
  unfolding sync_ports each_port
  sync_ports_lem [] errors s = rw (append_nil errors) refl
  sync_ports_lem (p ∷ ps) errors s =
      let r = sync_broker_market_orders e p m positions o s in
      rw (and_not (is_thrown r.0)) (
        sync_ports_lem ps (add_error r.0 errors) r.1
        ∙ rw (add_error_first r.0 errors (each_port e m positions o ps r.1).0) refl)

  not_zero : (n : ℕ) → 2 ≤ n → (n == 0) ≡ false
  not_zero n h = ground arith

  not_one : (n : ℕ) → 2 ≤ n → (n == 1) ≡ false
  not_one n h = ground arith

  keep_every : (ps : List Port) → wanted_ports (record e { ports = ps }) none ≡ ps
  unfolding wanted_ports
  keep_every [] = refl
  keep_every (p ∷ ps) = rw (keep_every ps) refl

  -- With two active brokers or more and none named, a broker that fails stops no other: every broker
  -- is synchronized in turn, and what is thrown, when that is asked for, is the first failure.
  pub sync_market_orders-isolated :
      (s : State)
      → o.broker ≡ none
      → 2 ≤ length e.ports
      → sync_market_orders e m positions o s ≡ (
        (if o.fail_on_any_error
            then first_error (each_port e m positions o e.ports s).0
            else ok tt),
        (each_port e m positions o e.ports s).1,
      )
  unfolding sync_market_orders each_port
  sync_market_orders-isolated s unnamed several =
      rw
        (
          unnamed,
          keep_every e.ports,
          not_one (length e.ports) several,
          not_zero (length e.ports) several,
          and_not o.fail_on_any_error,
        )
        (sync_ports_lem e.ports [] s)

  ended :
      (b : Bool) (r : SyncResult (Unit {0}) × State)
      → (if is_thrown r.0 && true
          then r
          else ((if b then first_error (add_error r.0 []) else ok tt), r.1))
        ≡ r
  ended true (ok x, after) = refl
  ended false (ok x, after) = refl
  ended b (thrown f, after) = refl

  or_always : (b : Bool) → (b || true) ≡ true
  or_always b = ground arith

  -- A single active broker's failure is thrown, and so is its success returned, with the state it left.
  pub sync_market_orders-single :
      (p : Port) (s : State)
      → wanted_ports e o.broker ≡ p ∷ []
      → sync_market_orders e m positions o s ≡ sync_broker_market_orders e p m positions o s
  unfolding sync_market_orders sync_ports
  sync_market_orders-single p s one =
      rw (one, and_not o.fail_on_any_error, or_always (is_some o.broker))
        (ended o.fail_on_any_error (sync_broker_market_orders e p m positions o s))
