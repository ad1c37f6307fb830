-- ===== src/Sync/Unfilled/Listed.antt =====
-- A failing broker in the list of unfilled orders.
use mathlib.Core.List.{append_assoc}
use kis_trader_back.Common.{
  ℕ, ◌≤◌, ◌≡◌, refl, ap, ◌∙◌, false, none, List, [], ◌∷◌, ◌++◌, arith, length, ◌==◌, append_nil,
}
use kis_trader_back.Model.{Market}
use kis_trader_back.Db.{World}
use kis_trader_back.Sync.Schedule.{Port, Setup, SyncResult, ok, thrown}
use kis_trader_back.Sync.{wanted_ports}
use kis_trader_back.Sync.Unfilled.{
  ScopedUnfilledOrder, after_listing, list_port, list_ports, get_market_unfilled_orders,
}

abbrev pub answered : SyncResult (List ScopedUnfilledOrder) → List ScopedUnfilledOrder
answered (ok orders) = orders
answered (thrown f) = []

-- What the brokers that answer list, one after another.
unfoldable pub all_answered : Setup → Market → List World → List Port → List ScopedUnfilledOrder
all_answered e m t [] = []
all_answered e m t (p ∷ ps) = answered (list_port e m t p) ++ all_answered e m t ps

module _ (e : Setup) (m : Market) (t : List World) where
  turn_lem :
      (r : SyncResult (List ScopedUnfilledOrder)) (found later : List ScopedUnfilledOrder)
      (rest : List ScopedUnfilledOrder → SyncResult (List ScopedUnfilledOrder))
      → ((xs : List ScopedUnfilledOrder) → rest xs ≡ ok (xs ++ later))
      → after_listing false found r rest ≡ ok (found ++ (answered r ++ later))
  turn_lem (ok orders) found later rest h =
      h (found ++ orders) ∙ ap ok (append_assoc found orders later)
  turn_lem (thrown f) found later rest h = h found

  list_ports_lem :
      (ps : List Port) (found : List ScopedUnfilledOrder)
      → list_ports e m t false ps found ≡ ok (found ++ all_answered e m t ps)
  unfolding list_ports all_answered
  list_ports_lem [] found = rw (append_nil found) refl
  list_ports_lem (p ∷ ps) found =
      turn_lem (list_port e m t p) found (all_answered e m t ps) (list_ports e m t false ps)
        (λ xs. list_ports_lem ps xs)

  not_one : (n : ℕ) → 2 ≤ n → (n == 1) ≡ false
  not_one n h = ground arith

  -- With two active brokers or more and none named, the list of unfilled orders is always given: it
  -- holds what the brokers that answer list, in their order, and a broker that fails takes nothing
  -- away from the others.
  pub get_market_unfilled_orders-answered :
      2 ≤ length (wanted_ports e none)
      → get_market_unfilled_orders e m none t ≡ ok (all_answered e m t (wanted_ports e none))
  unfolding get_market_unfilled_orders
  get_market_unfilled_orders-answered several =
      rw (not_one (length (wanted_ports e none)) several) (list_ports_lem (wanted_ports e none) [])
