-- ===== src/Positions/Written.antt =====
-- What `syncPositions` leaves under each key of the table.
use text.Mathlib.TextEquality.{eq_iff}
use kis_trader_back.Common.{
  ℕ, ◌≡◌, refl, ap, String, true, false, none, some, List, [], ◌∷◌, ◌++◌, map, any, if◌then◌else◌,
  str_eq, or_else, Bool-cases, inl, inr, arith,
}
use kis_trader_back.Model.{Broker, kis, toss, broker_eq, Market, domestic, overseas, market_eq}
use kis_trader_back.Positions.{
  BalanceItem, PositionKey, Position, same_listing, key_eq, item_key, is_at, created, updated,
  update_row, read,
}

pub broker_eq_sound : (a b : Broker) → broker_eq a b ≡ true → a ≡ b
broker_eq_sound kis kis h = refl
broker_eq_sound kis toss h = ground arith
broker_eq_sound toss kis h = ground arith
broker_eq_sound toss toss h = refl

pub market_eq_sound : (a b : Market) → market_eq a b ≡ true → a ≡ b
market_eq_sound domestic domestic h = refl
market_eq_sound domestic overseas h = ground arith
market_eq_sound overseas domestic h = ground arith
market_eq_sound overseas overseas h = refl

pub broker_eq_refl : (b : Broker) → broker_eq b b ≡ true
broker_eq_refl kis = refl
broker_eq_refl toss = refl

pub market_eq_refl : (m : Market) → market_eq m m ≡ true
market_eq_refl domestic = refl
market_eq_refl overseas = refl

pub str_eq_comm : (s t : String) → str_eq s t ≡ str_eq t s
str_eq_comm s t = elim (Bool-cases (str_eq s t)) [
  | inl same ↦ rw ((eq_iff s t).0 same) refl
  | inr other ↦ elim (Bool-cases (str_eq t s)) [
    | inl same ↦ rw ((eq_iff t s).0 same) refl
    | inr other' ↦ rw (other, other') refl
  ]
]

pub key_eq_sound : (j k : PositionKey) → key_eq j k ≡ true → j ≡ k
unfolding key_eq same_listing
key_eq_sound j k h =
    let b = broker_eq_sound j.broker k.broker (ground arith) in
    let m = market_eq_sound j.market k.market (ground arith) in
    let e = (eq_iff j.exchange_code k.exchange_code).0 (ground arith) in
    let s = (eq_iff j.stock_code k.stock_code).0 (ground arith) in rw (b, m, e, s) refl

module _ {Price : Type 0} where
  module _ (times : ℕ → Price → Price) where
    pub updated-created :
        (b : Broker) (m : Market) (x : BalanceItem Price) (p : Position Price)
        → is_at (item_key b m x) p ≡ true
        → updated times m x p ≡ created times b m x
    unfolding updated created item_key
    updated-created b m x p h =
        let same = key_eq_sound p.key (item_key b m x) h in
        let owner : p.key.broker ≡ b = ap (λ k. k.broker) same in
        let place : p.key.market ≡ m = ap (λ k. k.market) same in
        let stock : p.key.stock_code ≡ x.stock_code = ap (λ k. k.stock_code) same in
        rw (owner, place, stock) refl

    pub key-created :
        (b : Broker) (m : Market) (x : BalanceItem Price)
        → (created times b m x).key ≡ item_key b m x
    unfolding created
    key-created b m x = refl

    pub update_row-hit :
        (b : Broker) (m : Market) (x : BalanceItem Price) (p : Position Price)
        → is_at (item_key b m x) p ≡ true
        → update_row times b m x p ≡ created times b m x
    unfolding update_row
    update_row-hit b m x p h = rw h (updated-created b m x p h)

    pub update_row-miss :
        (b : Broker) (m : Market) (x : BalanceItem Price) (p : Position Price)
        → is_at (item_key b m x) p ≡ false
        → update_row times b m x p ≡ p
    unfolding update_row
    update_row-miss b m x p h = rw h refl

    -- Under the item's own key `update_row` puts the item; under another it changes nothing.
    pub read-update_row_own :
        (b : Broker) (m : Market) (x : BalanceItem Price) (k : PositionKey)
        (rows : List (Position Price))
        → key_eq (item_key b m x) k ≡ true
        → any (is_at (item_key b m x)) rows ≡ true
        → read k (map (update_row times b m x) rows) ≡ some (created times b m x)
    read-update_row_own b m x k [] e h = ground arith
    read-update_row_own b m x k (p ∷ ps) e h = elim (Bool-cases (is_at (item_key b m x) p)) [
      | inl hit ↦ rw (update_row-hit b m x p hit, key-created b m x, e) refl
      | inr miss ↦
          let other : is_at k p ≡ false = rw (key_eq_sound (item_key b m x) k e) at miss in
          rw (update_row-miss b m x p miss, other) (read-update_row_own b m x k ps e (ground arith))
    ]

    pub read-update_row_other :
        (b : Broker) (m : Market) (x : BalanceItem Price) (k : PositionKey)
        (rows : List (Position Price))
        → key_eq (item_key b m x) k ≡ false
        → read k (map (update_row times b m x) rows) ≡ read k rows
    read-update_row_other b m x k [] h = refl
    read-update_row_other b m x k (p ∷ ps) h = elim (Bool-cases (is_at (item_key b m x) p)) [
      | inl hit ↦
          let others : is_at k p ≡ false = rw (key_eq_sound p.key (item_key b m x) hit) h in
          rw (update_row-hit b m x p hit, key-created b m x, h, others)
            (read-update_row_other b m x k ps h)
      | inr miss ↦ rw (update_row-miss b m x p miss, read-update_row_other b m x k ps h) refl
    ]

    pub read-append :
        (k : PositionKey) (c : Position Price) (rows : List (Position Price))
        → read k (rows ++ (c ∷ [])) ≡ or_else (read k rows) (if is_at k c then some c else none)
    read-append k c [] = refl
    read-append k c (p ∷ ps) = elim (Bool-cases (is_at k p)) [
      | inl mine ↦ rw mine refl
      | inr others ↦ rw others (read-append k c ps)
    ]
