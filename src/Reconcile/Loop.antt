-- ===== src/Reconcile/Loop.antt =====
-- The whole run of `reconcileOpenOrders` over the table.
use mathlib.Core.Path.{ap₂}
use kis_trader_back.Common.{
  ℕ, ◌+◌, ◌≡◌, refl, ◌≤◌, List, [], ◌∷◌, arith, All, ltb, inl, inr, Bool-cases, ◌||◌, ◌∙◌,
}
use kis_trader_back.Db.{World}
use kis_trader_back.Reconcile.Orders.{
  Sync, is_open_record, report_of, reconcile_turn, reconcile_open_orders,
}
use kis_trader_back.Reconcile.Quantities.{
  told, executed, with_due, due, IsExact, same-IsExact, reconcile_record-IsExact,
}

-- The shares executed over a table.
abbrev pub executed_all : List World → ℕ
executed_all [] = 0
executed_all (w ∷ ws) = executed w + executed_all ws

abbrev pub IsWithin : World → Type 0
IsWithin w = executed w ≤ w.row.quantity

-- Row by row: within its quantity, no less executed, and the strategy told what it is due.
abbrev pub AreSettled : Sync → List World → List World → Type 0
AreSettled s [] [] = Unit
AreSettled s (w ∷ ws) (v ∷ vs) =
    IsWithin v
    × (v.row.quantity ≡ w.row.quantity)
    × (executed w ≤ executed v)
    × (told v.effects ≡ with_due (due (s.links w.row) w v) (told w.effects))
    × AreSettled s ws vs
AreSettled s _ _ = ⊥

reconcile_turn-IsExact :
    (s : Sync) (w : World) → IsWithin w → IsExact (s.links w.row) w (reconcile_turn s w)
unfolding reconcile_turn report_of
reconcile_turn-IsExact s w h = elim (Bool-cases (is_open_record s w.row)) [
  | inl open_now ↦ rw open_now (reconcile_record-IsExact w (report_of s w.row) h)
  | inr closed ↦ rw closed (same-IsExact _ w h)
]

or_ltb : (a b c d : ℕ) → a ≤ b → c ≤ d → (ltb a b || ltb c d) ≡ ltb (a + c) (b + d)
or_ltb a b c d p q = ground arith

-- If no record of the table is executed beyond its quantity, then after a run none is. Of no record less
-- is executed than before, and its strategy has been told one more fill, if more is and its strategy, watched
-- stock and signal are known: of a buy the shares by which it rose, of a sell the signal's quantity,
-- provided that the record has become FILLED; and in every other case none. `hasNewFill` is true exactly if
-- more is executed over the whole table.
pub reconcile_open_orders-exact :
    (s : Sync) (t : List World)
    → All IsWithin t
    → let (fresh, after) = reconcile_open_orders s t in
      AreSettled s t after
      × (executed_all t ≤ executed_all after)
      × (fresh ≡ ltb (executed_all t) (executed_all after))
unfolding reconcile_open_orders
reconcile_open_orders-exact s [] h = (tt, omega arith, refl)
reconcile_open_orders-exact s (w ∷ ws) (h, hs) =
    let (settled, rises, flag) = reconcile_open_orders-exact s ws hs in
    let e = reconcile_turn-IsExact s w h in
    (
      (omega (arith, e.bounded, e.kept), e.kept, e.grows, e.told_all, settled),
      omega (arith, e.grows, rises),
      ap₂ ◌||◌ e.reported flag ∙ or_ltb _ _ _ _ e.grows rises,
    )
