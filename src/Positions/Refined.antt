-- ===== src/Positions/Refined.antt =====
-- `syncPositions` against the map from keys to positions that it is meant to put in place.
use kis_trader_back.Common.{
  ℕ, ◌≡◌, refl, sym, ◌∙◌, Bool, true, false, ◌&&◌, ◌||◌, not, Option, none, some, List, [], ◌∷◌,
  keep, if◌then◌else◌, str_eq, or_else, is_some, Bool-cases, inl, inr, arith, ap,
}
use kis_trader_back.Model.{Broker, Market}
use kis_trader_back.Positions.{
  BalanceItem, PositionKey, Position, written, same_listing, key_eq, in_scope, item_key, is_at,
  created, upsert_position, upsert_positions, is_held, delete_others, read, exchange_of,
}
use kis_trader_back.Positions.Written.{
  broker_eq_sound, market_eq_sound, broker_eq_refl, market_eq_refl, str_eq_comm, key_eq_sound,
}
use kis_trader_back.Positions.Upserted.{own, newest, upsert_position-read, upsert_positions-read}

module _ {Price : Type 0} where
  module _ (times : ℕ → Price → Price) where
    -- Rows that are kept by their key.
    read-keep :
        (q : PositionKey → Bool) (k : PositionKey) (rows : List (Position Price))
        → read k (keep (λ p. q p.key) rows) ≡ (if q k then read k rows else none)
    read-keep q k [] = elim (Bool-cases (q k)) [ inl t ↦ rw t refl | inr f ↦ rw f refl ]
    read-keep q k (p ∷ ps) = elim (Bool-cases (is_at k p)) [
      | inl mine ↦ elim (Bool-cases (q k)) [
        | inl t ↦
            let t' : q p.key ≡ true = rw (key_eq_sound p.key k mine) t in rw (t', t, mine) refl
        | inr f ↦
            let f' : q p.key ≡ false = rw (key_eq_sound p.key k mine) f in
            rw (f', f) (rw f at (read-keep q k ps))
      ]
      | inr others ↦ elim (Bool-cases (q p.key)) [
        | inl t ↦ rw (t, others) (read-keep q k ps)
        | inr f ↦ rw (f, others) (read-keep q k ps)
      ]
    ]

    delete_others-read :
        (b : Broker) (m : Market) (items : List (BalanceItem Price)) (rows : List (Position Price))
        (k : PositionKey)
        → read k (delete_others b m items rows)
          ≡ (if not (in_scope b m k && not (is_held m items k)) then read k rows else none)
    unfolding delete_others is_held
    delete_others-read b m [] rows k =
        rw (read-keep (λ j. not (in_scope b m j)) k rows)
          (elim (Bool-cases (in_scope b m k)) [ inl t ↦ rw t refl | inr f ↦ rw f refl ])
    delete_others-read b m (x ∷ xs) rows k =
        read-keep (λ j. not (in_scope b m j && not (is_held m (x ∷ xs) j))) k rows

    own-in_scope :
        (b : Broker) (m : Market) (x : BalanceItem Price) (k : PositionKey)
        → in_scope b m k ≡ true
        → is_some (own times b m k x)
          ≡ (str_eq k.exchange_code (exchange_of m x) && str_eq k.stock_code x.stock_code)
    unfolding own item_key in_scope key_eq same_listing
    own-in_scope b m x k h =
        let owner = broker_eq_sound k.broker b (ground arith) in
        let place = market_eq_sound k.market m (ground arith) in
        rw
          (
            owner,
            place,
            broker_eq_refl b,
            market_eq_refl m,
            str_eq_comm k.exchange_code (exchange_of m x),
            str_eq_comm k.stock_code x.stock_code,
          )
          (if_some (str_eq (exchange_of m x) k.exchange_code && str_eq x.stock_code k.stock_code))
      where
        if_some : (c : Bool) → is_some (if c then some (created times b m x) else none) ≡ c
        if_some true = refl
        if_some false = refl

    own-other_scope :
        (b : Broker) (m : Market) (x : BalanceItem Price) (k : PositionKey)
        → in_scope b m k ≡ false
        → own times b m k x ≡ none
    unfolding own item_key in_scope key_eq
    own-other_scope b m x k h = elim (Bool-cases (key_eq (item_key b m x) k)) [
      | inl same ↦
          let inside : in_scope b m (item_key b m x) ≡ true =
            rw (broker_eq_refl b, market_eq_refl m) refl in
          absurd_lem (ap (in_scope b m) (sym (key_eq_sound (item_key b m x) k same)) ∙ inside)
      | inr other ↦ rw other refl
    ]
      where
        absurd_lem : in_scope b m k ≡ true → own times b m k x ≡ none
        absurd_lem g = cc

    pub upsert_position-elsewhere :
        (b : Broker) (m : Market) (x : BalanceItem Price) (rows rows' : List (Position Price))
        (k : PositionKey)
        → upsert_position times b m x rows ≡ some rows'
        → in_scope b m k ≡ false
        → read k rows' ≡ read k rows
    upsert_position-elsewhere b m x rows rows' k h out =
        rw (upsert_position-read times b m x rows rows' k h, own-other_scope b m x k out) refl

    is_some-or_else :
        {A : Type 0} (o p : Option A) → is_some (or_else o p) ≡ (is_some p || is_some o)
    is_some-or_else none none = refl
    is_some-or_else none (some y) = refl
    is_some-or_else (some x) none = refl
    is_some-or_else (some x) (some y) = refl

    newest-is_held :
        (b : Broker) (m : Market) (items : List (BalanceItem Price)) (k : PositionKey)
        → in_scope b m k ≡ true
        → is_some (newest times b m items k) ≡ is_held m items k
    unfolding newest is_held
    newest-is_held b m [] k h = refl
    newest-is_held b m (x ∷ xs) k h =
        rw
          (
            is_some-or_else (newest times b m xs k) (own times b m k x),
            own-in_scope b m x k h,
            newest-is_held b m xs k h,
          )
          refl

    newest-other_scope :
        (b : Broker) (m : Market) (items : List (BalanceItem Price)) (k : PositionKey)
        → in_scope b m k ≡ false
        → newest times b m items k ≡ none
    unfolding newest
    newest-other_scope b m [] k h = refl
    newest-other_scope b m (x ∷ xs) k h =
        rw (newest-other_scope b m xs k h, own-other_scope b m x k h) refl

    -- What a run leaves under a key: the newest item in the account, what was there elsewhere.
    unfoldable pub meant :
        Broker
        → Market
        → List (BalanceItem Price)
        → (PositionKey → Option (Position Price))
        → PositionKey
        → Option (Position Price)
    meant b m items before k = if in_scope b m k then newest times b m items k else before k

    pub delete_others-meant :
        (b : Broker) (m : Market) (items : List (BalanceItem Price))
        (rows rows' : List (Position Price)) (k : PositionKey)
        → upsert_positions times b m items rows ≡ written rows'
        → read k (delete_others b m items rows') ≡ meant b m items (λ j. read j rows) k
    unfolding meant
    delete_others-meant b m items rows rows' k h = elim (Bool-cases (in_scope b m k)) [
      | inl inside ↦
          let held = newest-is_held b m items k inside in
          rw
            (
              delete_others-read b m items rows' k,
              inside,
              upsert_positions-read times b m items rows rows' k h,
            )
            (by_newest (newest times b m items k) held)
      | inr outside ↦
          rw
            (
              delete_others-read b m items rows' k,
              outside,
              upsert_positions-read times b m items rows rows' k h,
              newest-other_scope b m items k outside,
            )
            refl
    ]
      where
        by_newest :
            (o : Option (Position Price))
            → is_some o ≡ is_held m items k
            → (if not (not (is_held m items k)) then or_else o (read k rows) else none) ≡ o
        by_newest none e = rw (sym e) refl
        by_newest (some p) e = rw (sym e) refl
