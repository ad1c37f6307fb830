-- ===== src/Positions/Upserted.antt =====
-- What the loop of `syncPositions` over the items leaves under each key of the table.
use kis_trader_back.Common.{
  ℕ, ◌≡◌, refl, sym, true, false, Option, none, some, List, [], ◌∷◌, ◌++◌, map, any, if◌then◌else◌,
  or_else, Bool-cases, inl, inr, arith, ap,
}
use kis_trader_back.Model.{Broker, Market}
use kis_trader_back.Positions.{
  BalanceItem, PositionKey, Position, written, key_eq, item_key, is_at, is_listed, created,
  update_row, upsert_position, next_item, upsert_positions, read,
}
use kis_trader_back.Positions.Written.{
  key_eq_sound, key-created, read-update_row_own, read-update_row_other, read-append,
}

or_else-none : {A : Type 0} (o : Option A) → or_else o none ≡ o
or_else-none none = refl
or_else-none (some x) = refl

or_else_assoc : {A : Type 0} (o p q : Option A) → or_else o (or_else p q) ≡ or_else (or_else o p) q
or_else_assoc none p q = refl
or_else_assoc (some x) p q = refl

module _ {Price : Type 0} where
  module _ (times : ℕ → Price → Price) where
    -- The item's position, if the key is the item's.
    unfoldable pub own : Broker → Market → PositionKey → BalanceItem Price → Option (Position Price)
    own b m k x = if key_eq (item_key b m x) k then some (created times b m x) else none

    -- The position of the last item under a key.
    unfoldable pub newest :
        Broker → Market → List (BalanceItem Price) → PositionKey → Option (Position Price)
    unfolding own
    newest b m [] k = none
    newest b m (x ∷ xs) k = or_else (newest b m xs k) (own b m k x)

    read-none :
        (j k : PositionKey) (rows : List (Position Price))
        → any (is_at j) rows ≡ false
        → key_eq j k ≡ true
        → read k rows ≡ none
    read-none j k [] h e = refl
    read-none j k (p ∷ ps) h e =
        let other : is_at k p ≡ false = rw (key_eq_sound j k e) at (miss h) in
        rw other (read-none j k ps (rest h) e)
      where
        miss : (any (is_at j) (p ∷ ps) ≡ false) → is_at j p ≡ false
        miss g = ground arith

        rest : (any (is_at j) (p ∷ ps) ≡ false) → any (is_at j) ps ≡ false
        rest g = ground arith

    pub upsert_position-read :
        (b : Broker) (m : Market) (x : BalanceItem Price) (rows rows' : List (Position Price))
        (k : PositionKey)
        → upsert_position times b m x rows ≡ some rows'
        → read k rows' ≡ or_else (own b m k x) (read k rows)
    unfolding upsert_position own
    upsert_position-read b m x rows rows' k h =
        elim (Bool-cases (any (is_at (item_key b m x)) rows)) [
          | inl there ↦
              let e : rows' ≡ map (update_row times b m x) rows = some_lem (rw there at h) in
              elim (Bool-cases (key_eq (item_key b m x) k)) [
                | inl mine ↦ rw (e, mine) (read-update_row_own times b m x k rows mine there)
                | inr others ↦ rw (e, others) (read-update_row_other times b m x k rows others)
              ]
          | inr new ↦ elim (Bool-cases (any (is_listed (item_key b m x)) rows)) [
            | inl clash ↦ absurd_lem (rw (new, clash) at h)
            | inr free ↦
                let e : rows' ≡ rows ++ (created times b m x ∷ []) =
                  some_lem (rw (new, free) at h) in
                elim (Bool-cases (key_eq (item_key b m x) k)) [
                  | inl mine ↦
                      rw
                        (
                          e,
                          read-append times k (created times b m x) rows,
                          key-created times b m x,
                          mine,
                          read-none (item_key b m x) k rows new mine,
                        )
                        refl
                  | inr others ↦
                      rw
                        (
                          e,
                          read-append times k (created times b m x) rows,
                          key-created times b m x,
                          others,
                          or_else-none (read k rows),
                        )
                        refl
                ]
          ]
        ]
      where
        some_lem : {y z : List (Position Price)} → some y ≡ some z → z ≡ y
        some_lem g = cc

        absurd_lem : none ≡ some rows' → read k rows' ≡ or_else (own b m k x) (read k rows)
        absurd_lem g = cc

    -- What the loop writes under every key.
    pub upsert_positions-read :
        (b : Broker) (m : Market) (items : List (BalanceItem Price))
        (rows rows' : List (Position Price)) (k : PositionKey)
        → upsert_positions times b m items rows ≡ written rows'
        → read k rows' ≡ or_else (newest b m items k) (read k rows)
    unfolding upsert_positions newest
    upsert_positions-read b m [] rows rows' k h = ap (read k) (sym (written_lem h))
      where
        written_lem : written rows ≡ written rows' → rows ≡ rows'
        written_lem g = cc
    upsert_positions-read b m (x ∷ xs) rows rows' k h =
        by_step (upsert_position times b m x rows) refl
          (λ r. upsert_positions-read b m xs r rows' k) h
      where
        by_step :
            (o : Option (List (Position Price)))
            → upsert_position times b m x rows ≡ o
            → ((r : List (Position Price))
                → upsert_positions times b m xs r ≡ written rows'
                → read k rows' ≡ or_else (newest b m xs k) (read k r))
            → next_item (upsert_positions times b m xs) rows o ≡ written rows'
            → read k rows' ≡ or_else (newest b m (x ∷ xs) k) (read k rows)
        by_step none e later g = cc
        by_step (some rows1) e later g =
            rw (later rows1 g, upsert_position-read b m x rows rows1 k e)
              (or_else_assoc (newest b m xs k) (own b m k x) (read k rows))
