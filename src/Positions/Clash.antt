-- ===== src/Positions/Clash.antt =====
-- Positions of another broker in the way of an upsert, and that an upsert leaves them there.
use kis_trader_back.Common.{
  ℕ, ◌≡◌, refl, ◌∙◌, Bool, true, false, ◌&&◌, ◌||◌, not, none, some, List, [], ◌∷◌, ◌++◌, map, any,
  Bool-cases, inl, inr, arith, ap,
}
use kis_trader_back.Model.{Broker, broker_eq, Market}
use kis_trader_back.Positions.{
  BalanceItem, PositionKey, Position, same_listing, key_eq, item_key, is_at, is_listed, created,
  update_row, upsert_position,
}
use kis_trader_back.Positions.Written.{
  key_eq_sound, broker_eq_refl, key-created, update_row-hit, update_row-miss,
}

module _ {Price : Type 0} where
  -- Another broker has a position in the item's market, exchange and stock.
  unfoldable pub is_taken : Broker → Market → List (Position Price) → BalanceItem Price → Bool
  is_taken b m rows x =
      any (λ p. is_listed (item_key b m x) p && not (broker_eq p.key.broker b)) rows

  -- Another broker has one, and this account has none yet.
  unfoldable pub is_clash : Broker → Market → List (Position Price) → BalanceItem Price → Bool
  unfolding is_taken
  is_clash b m rows x = is_taken b m rows x && not (any (is_at (item_key b m x)) rows)

  pub not_listed :
      (b : Broker) (m : Market) (x : BalanceItem Price) (rows : List (Position Price))
      → any (is_at (item_key b m x)) rows ≡ false
      → is_taken b m rows x ≡ false
      → any (is_listed (item_key b m x)) rows ≡ false
  unfolding is_taken key_eq item_key
  not_listed b m x [] h g = refl
  not_listed b m x (p ∷ ps) h g = ground (arith, not_listed b m x ps)

  listed :
      (b : Broker) (m : Market) (x : BalanceItem Price) (rows : List (Position Price))
      → is_taken b m rows x ≡ true
      → any (is_listed (item_key b m x)) rows ≡ true
  unfolding is_taken
  listed b m x [] g = ground arith
  listed b m x (p ∷ ps) g = ground (arith, listed b m x ps)

  any-append :
      (q : Position Price → Bool) (rows : List (Position Price)) (c : Position Price)
      → any q (rows ++ (c ∷ [])) ≡ (any q rows || q c)
  any-append q [] c = ground arith
  any-append q (p ∷ ps) c = ground (arith, any-append q ps c)

  clash_parts :
      (b : Broker) (m : Market) (rows : List (Position Price)) (x : BalanceItem Price)
      → is_clash b m rows x ≡ true
      → (is_taken b m rows x ≡ true) × (any (is_at (item_key b m x)) rows ≡ false)
  unfolding is_clash
  clash_parts b m rows x h = (ground arith, ground arith)

  module _ (times : ℕ → Price → Price) where
    -- An update leaves the keys.
    any-update_row :
        (b : Broker) (m : Market) (x : BalanceItem Price) (q : PositionKey → Bool)
        (rows : List (Position Price))
        → any (λ p. q p.key) (map (update_row times b m x) rows) ≡ any (λ p. q p.key) rows
    any-update_row b m x q [] = refl
    any-update_row b m x q (p ∷ ps) = elim (Bool-cases (is_at (item_key b m x) p)) [
      | inl hit ↦
          rw
            (
              update_row-hit times b m x p hit,
              key-created times b m x,
              key_eq_sound p.key (item_key b m x) hit,
              any-update_row b m x q ps,
            )
            refl
      | inr miss ↦ rw (update_row-miss times b m x p miss, any-update_row b m x q ps) refl
    ]

    -- What an upsert changes of the keys in the table.
    upsert_position-any :
        (b : Broker) (m : Market) (x : BalanceItem Price) (q : PositionKey → Bool)
        (rows rows' : List (Position Price))
        → upsert_position times b m x rows ≡ some rows'
        → q (item_key b m x) ≡ false
        → any (λ p. q p.key) rows' ≡ any (λ p. q p.key) rows
    unfolding upsert_position
    upsert_position-any b m x q rows rows' h e =
        elim (Bool-cases (any (is_at (item_key b m x)) rows)) [
          | inl there ↦
              let r : rows' ≡ map (update_row times b m x) rows = some_lem (rw there at h) in
              rw r (any-update_row b m x q rows)
          | inr new ↦ elim (Bool-cases (any (is_listed (item_key b m x)) rows)) [
            | inl clash ↦ absurd_lem (rw (new, clash) at h)
            | inr free ↦
                let r : rows' ≡ rows ++ (created times b m x ∷ []) =
                  some_lem (rw (new, free) at h) in
                rw
                  (
                    r,
                    any-append (λ p. q p.key) rows (created times b m x),
                    key-created times b m x,
                    e,
                  )
                  (or_false (any (λ p. q p.key) rows))
          ]
        ]
      where
        some_lem : {y z : List (Position Price)} → some y ≡ some z → z ≡ y
        some_lem g = cc

        absurd_lem : none ≡ some rows' → any (λ p. q p.key) rows' ≡ any (λ p. q p.key) rows
        absurd_lem g = cc

        or_false : (c : Bool) → (c || false) ≡ c
        or_false true = refl
        or_false false = refl

    pub is_taken-upsert_position :
        (b : Broker) (m : Market) (x y : BalanceItem Price) (rows rows' : List (Position Price))
        → upsert_position times b m x rows ≡ some rows'
        → is_taken b m rows' y ≡ is_taken b m rows y
    unfolding is_taken item_key
    is_taken-upsert_position b m x y rows rows' h =
        upsert_position-any b m x
          (λ k. same_listing k (item_key b m y) && not (broker_eq k.broker b)) rows rows' h
          (own_lem b (same_listing (item_key b m x) (item_key b m y)))
      where
        own_lem : (c : Broker) (a : Bool) → (a && not (broker_eq c c)) ≡ false
        own_lem c true = rw (broker_eq_refl c) refl
        own_lem c false = refl

    pub clash_refused :
        (b : Broker) (m : Market) (x : BalanceItem Price) (rows : List (Position Price))
        → is_clash b m rows x ≡ true
        → upsert_position times b m x rows ≡ none
    unfolding upsert_position
    clash_refused b m x rows h =
        let (t, n) = clash_parts b m rows x h in rw (n, listed b m x rows t) refl

    pub is_clash-upsert_position :
        (b : Broker) (m : Market) (x y : BalanceItem Price) (rows rows' : List (Position Price))
        → upsert_position times b m x rows ≡ some rows'
        → is_clash b m rows y ≡ true
        → is_clash b m rows' y ≡ true
    unfolding is_clash is_taken
    is_clash-upsert_position b m x y rows rows' h g =
        elim (Bool-cases (key_eq (item_key b m x) (item_key b m y))) [
          | inl same ↦
              let again : is_clash b m rows x ≡ true =
                ap
                  (λ k.
                    any (λ p. is_listed k p && not (broker_eq p.key.broker b)) rows
                    && not (any (is_at k) rows))
                  (key_eq_sound (item_key b m x) (item_key b m y) same)
                ∙ g in
              refused_lem (clash_refused b m x rows again)
          | inr other ↦
              let (t, n) = clash_parts b m rows y g in
              rw
                (
                  is_taken-upsert_position b m x y rows rows' h,
                  t,
                  upsert_position-any b m x (λ k. key_eq k (item_key b m y)) rows rows' h other,
                  n,
                )
                refl
        ]
      where
        refused_lem : upsert_position times b m x rows ≡ none → is_clash b m rows' y ≡ true
        refused_lem r = cc
