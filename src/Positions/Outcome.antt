-- ===== src/Positions/Outcome.antt =====
-- When `syncPositions` writes the positions and when the index without the broker refuses one.
use kis_trader_back.Common.{
  ℕ, ◌≡◌, refl, ◌∙◌, true, false, Option, none, some, List, [], ◌∷◌, ◌++◌, map, any, All,
  Bool-cases, inl, inr, arith,
}
use kis_trader_back.Model.{Broker, Market}
use kis_trader_back.Positions.{
  BalanceItem, PositionKey, Position, written, thrown, in_scope, item_key, is_at, created,
  update_row, upsert_position, next_item, upsert_positions, delete_others, has_unresolved_venue,
  sync_positions, read,
}
use kis_trader_back.Positions.Refined.{meant, delete_others-meant, upsert_position-elsewhere}
use kis_trader_back.Positions.Clash.{
  is_taken, is_clash, not_listed, is_taken-upsert_position, is_clash-upsert_position, clash_refused,
}

module _ {Price : Type 0} where
  module _ (times : ℕ → Price → Price) where
    taken_goes_on :
        (b : Broker) (m : Market) (x : BalanceItem Price) (rows : List (Position Price))
        → is_taken b m rows x ≡ false
        → (rows' : List (Position Price)) × (upsert_position times b m x rows ≡ some rows')
    unfolding upsert_position
    taken_goes_on b m x rows h = elim (Bool-cases (any (is_at (item_key b m x)) rows)) [
      | inl there ↦ (map (update_row times b m x) rows, rw there refl)
      | inr new ↦ (rows ++ (created times b m x ∷ []), rw (new, not_listed b m x rows new h) refl)
    ]

    upsert_positions_written :
        (b : Broker) (m : Market) (items : List (BalanceItem Price)) (rows : List (Position Price))
        → All (λ x. is_taken b m rows x ≡ false) items
        → (rows' : List (Position Price)) × (upsert_positions times b m items rows ≡ written rows')
    unfolding upsert_positions
    upsert_positions_written b m [] rows h = (rows, refl)
    upsert_positions_written b m (x ∷ xs) rows (h, hs) =
        let (rows1, e) = taken_goes_on b m x rows h in
        let (rows', g) = upsert_positions_written b m xs rows1 (still xs e hs) in (rows', rw e g)
      where
        still :
            {rows1 : List (Position Price)} (ys : List (BalanceItem Price))
            → upsert_position times b m x rows ≡ some rows1
            → All (λ y. is_taken b m rows y ≡ false) ys
            → All (λ y. is_taken b m rows1 y ≡ false) ys
        still {rows1} [] e a = tt
        still {rows1} (y ∷ ys) e (a, later) =
            (is_taken-upsert_position times b m x y rows rows1 e ∙ a, still ys e later)

    upsert_positions_thrown :
        (b : Broker) (m : Market) (items : List (BalanceItem Price)) (rows : List (Position Price))
        → any (is_clash b m rows) items ≡ true
        → (rows' : List (Position Price)) × (upsert_positions times b m items rows ≡ thrown rows')
          × ((k : PositionKey) → in_scope b m k ≡ false → read k rows' ≡ read k rows)
    unfolding upsert_positions
    upsert_positions_thrown b m [] rows h = ground arith
    upsert_positions_thrown b m (x ∷ xs) rows h =
        by_step (upsert_position times b m x rows) refl (upsert_positions_thrown b m xs)
      where
        refused_lem :
            {r : List (Position Price)}
            → upsert_position times b m x rows ≡ some r
            → upsert_position times b m x rows ≡ none
            → any (is_clash b m rows) xs ≡ true
        refused_lem e r = cc

        still :
            {r : List (Position Price)} (ys : List (BalanceItem Price))
            → upsert_position times b m x rows ≡ some r
            → any (is_clash b m rows) ys ≡ true
            → any (is_clash b m r) ys ≡ true
        still {r} [] e g = ground arith
        still {r} (y ∷ ys) e g = elim (Bool-cases (is_clash b m rows y)) [
          | inl clash ↦ rw (is_clash-upsert_position times b m x y rows r e clash) refl
          | inr fine ↦ elim (Bool-cases (is_clash b m r y)) [
            | inl now ↦ rw now refl
            | inr never ↦ rw never (still ys e (rw fine at g))
          ]
        ]

        not_this :
            {r : List (Position Price)}
            → upsert_position times b m x rows ≡ some r
            → any (is_clash b m rows) xs ≡ true
        not_this e = elim (Bool-cases (is_clash b m rows x)) [
          | inl clash ↦ refused_lem e (clash_refused times b m x rows clash)
          | inr fine ↦ rw fine at h
        ]

        by_step :
            (o : Option (List (Position Price)))
            → upsert_position times b m x rows ≡ o
            → ((r : List (Position Price))
                → any (is_clash b m r) xs ≡ true
                → (rows' : List (Position Price)) × (upsert_positions times b m xs r ≡ thrown rows')
                  × ((k : PositionKey) → in_scope b m k ≡ false → read k rows' ≡ read k r))
            → (rows' : List (Position Price)) × (next_item (upsert_positions times b m xs) rows o
                ≡ thrown rows')
              × ((k : PositionKey) → in_scope b m k ≡ false → read k rows' ≡ read k rows)
        by_step none e later = (rows, refl, λ k out. refl)
        by_step (some rows1) e later =
            let (rows', g, others) = later rows1 (still xs e (not_this e)) in
            (
              rows',
              g,
              λ k out. others k out ∙ upsert_position-elsewhere times b m x rows rows1 k e out,
            )

    -- If every overseas venue is resolved, and no other broker has a position in the market, the exchange
    -- and the stock of an item, then `syncPositions` writes the table; and under every key the table then
    -- reads as it is meant: in the account and market that was read, the last item under the key or
    -- nothing, and everywhere else what was there.
    pub sync_positions-meant :
        (b : Broker) (m : Market) (items : List (BalanceItem Price)) (rows : List (Position Price))
        → has_unresolved_venue m items ≡ false
        → All (λ x. is_taken b m rows x ≡ false) items
        → (rows' : List (Position Price)) × (sync_positions times b m items rows ≡ written rows')
          × ((k : PositionKey) → read k rows' ≡ meant times b m items (λ j. read j rows) k)
    unfolding sync_positions
    sync_positions-meant b m items rows v h =
        let (rows1, e) = upsert_positions_written b m items rows h in
        (
          delete_others b m items rows1,
          rw (v, e) refl,
          λ k. delete_others-meant times b m items rows rows1 k e,
        )

    -- If another broker has a position in the market, the exchange and the stock of an item for which this
    -- account has none yet, then `syncPositions` ends in an exception, whatever the other items are, and
    -- under no key outside the account and market does the table change.
    pub sync_positions-clash :
        (b : Broker) (m : Market) (items : List (BalanceItem Price)) (rows : List (Position Price))
        → any (is_clash b m rows) items ≡ true
        → (rows' : List (Position Price)) × (sync_positions times b m items rows ≡ thrown rows')
          × ((k : PositionKey) → in_scope b m k ≡ false → read k rows' ≡ read k rows)
    unfolding sync_positions
    sync_positions-clash b m items rows h = elim (Bool-cases (has_unresolved_venue m items)) [
      | inl unresolved ↦ (rows, rw unresolved refl, λ k out. refl)
      | inr resolved ↦
          let (rows', e, others) = upsert_positions_thrown b m items rows h in
          (rows', rw (resolved, e) refl, others)
    ]
