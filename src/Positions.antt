-- ===== src/Positions.antt =====
-- src/trading/trading-position-sync.service.ts and trading-position-refresh.service.ts: the positions of a
-- broker's account, written over the rows of `positions` that were kept of it. Prices and their product
-- with a quantity are parameters; a row's `id` and `updatedAt`, which the database makes, are left out.
pub mod Written
pub mod Upserted
pub mod Refined
pub mod Clash
pub mod Outcome
use mathlib.Core.Option
use kis_trader_back.Common.{
  ℕ, String, Bool, true, false, ◌&&◌, ◌||◌, not, Option, none, some, List, [], ◌∷◌, ◌++◌, map, keep,
  any, if◌then◌else◌, str_eq, is_empty, find_first,
}
use kis_trader_back.Model.{Broker, broker_eq, Market, domestic, overseas, market_eq}

pub record BalanceItem (Price : Type 0) : Type 0 where
  pub stock_code : String
  pub stock_name : String
  pub quantity : ℕ
  pub avg_price : Price
  pub current_price : Price
  pub profit_loss : Price
  pub profit_rate : Price
  pub exchange_code : Option String

-- The fields of the row's second unique index.
pub record PositionKey : Type 0 where
  pub broker : Broker
  pub market : Market
  pub exchange_code : String
  pub stock_code : String

pub record Position (Price : Type 0) : Type 0 where
  pub key : PositionKey
  pub stock_name : String
  pub quantity : ℕ
  pub avg_price : Price
  pub current_price : Price
  pub profit_loss : Price
  pub profit_rate : Price
  pub total_invested : Price

-- The market, the exchange and the stock, the fields of the row's first unique index, which is older than
-- the second broker.
unfoldable pub same_listing : PositionKey → PositionKey → Bool
same_listing j k =
    market_eq j.market k.market
    && str_eq j.exchange_code k.exchange_code
    && str_eq j.stock_code k.stock_code

unfoldable pub key_eq : PositionKey → PositionKey → Bool
unfolding same_listing
key_eq j k = broker_eq j.broker k.broker && same_listing j k

unfoldable pub in_scope : Broker → Market → PositionKey → Bool
in_scope b m k = broker_eq k.broker b && market_eq k.market m

-- What a table becomes; an exception leaves what was written before it.
pub data SyncResult (Price : Type 0) : Type 0 where
  written : List (Position Price) → SyncResult Price
  thrown : List (Position Price) → SyncResult Price

module _ {Price : Type 0} where
  unfoldable pub is_unresolved_venue : BalanceItem Price → Bool
  is_unresolved_venue x = elim x.exchange_code [
    | none ↦ true
    | some e ↦ is_empty e || str_eq e "US"
  ]

  unfoldable pub exchange_of : Market → BalanceItem Price → String
  exchange_of domestic x = Option.get_or x.exchange_code "KRX"
  exchange_of overseas x = Option.get_or x.exchange_code ""

  unfoldable pub item_key : Broker → Market → BalanceItem Price → PositionKey
  unfolding exchange_of
  item_key b m x = record {
    broker = b;
    market = m;
    exchange_code = exchange_of m x;
    stock_code = x.stock_code;
  }

  abbrev pub is_at : PositionKey → Position Price → Bool
  is_at k p = key_eq p.key k

  abbrev pub is_listed : PositionKey → Position Price → Bool
  is_listed k p = same_listing p.key k

  -- The loop over the items goes on only from a table that was written.
  abbrev pub next_item :
      (List (Position Price) → SyncResult Price)
      → List (Position Price)
      → Option (List (Position Price))
      → SyncResult Price
  next_item rest rows none = thrown rows
  next_item rest rows (some rows') = rest rows'

  unfoldable pub is_held : Market → List (BalanceItem Price) → PositionKey → Bool
  unfolding exchange_of
  is_held m items k =
      any (λ x. str_eq k.exchange_code (exchange_of m x) && str_eq k.stock_code x.stock_code) items

  -- `deleteMany` of what is not held.
  unfoldable pub delete_others :
      Broker → Market → List (BalanceItem Price) → List (Position Price) → List (Position Price)
  unfolding is_held in_scope
  delete_others b m [] rows = keep (λ p. not (in_scope b m p.key)) rows
  delete_others b m (x ∷ xs) rows =
      keep (λ p. not (in_scope b m p.key && not (is_held m (x ∷ xs) p.key))) rows

  abbrev pub then_delete :
      Broker → Market → List (BalanceItem Price) → SyncResult Price → SyncResult Price
  then_delete b m items (thrown rows) = thrown rows
  then_delete b m items (written rows) = written (delete_others b m items rows)

  abbrev pub has_unresolved_venue : Market → List (BalanceItem Price) → Bool
  has_unresolved_venue domestic items = false
  has_unresolved_venue overseas items = any is_unresolved_venue items

  -- The position that a table holds under a key.
  abbrev pub read : PositionKey → List (Position Price) → Option (Position Price)
  read k rows = find_first (is_at k) rows

  module _ (times : ℕ → Price → Price) where
    unfoldable pub created : Broker → Market → BalanceItem Price → Position Price
    unfolding item_key
    created b m x = record {
      key = item_key b m x;
      stock_name = x.stock_name;
      quantity = x.quantity;
      avg_price = x.avg_price;
      current_price = x.current_price;
      profit_loss = x.profit_loss;
      profit_rate = x.profit_rate;
      total_invested = times x.quantity x.avg_price;
    }

    unfoldable pub updated : Market → BalanceItem Price → Position Price → Position Price
    unfolding exchange_of
    updated m x p = record p {
      key = record p.key { exchange_code = exchange_of m x };
      stock_name = x.stock_name;
      quantity = x.quantity;
      avg_price = x.avg_price;
      current_price = x.current_price;
      profit_loss = x.profit_loss;
      profit_rate = x.profit_rate;
      total_invested = times x.quantity x.avg_price;
    }

    unfoldable pub update_row :
        Broker → Market → BalanceItem Price → Position Price → Position Price
    unfolding updated item_key key_eq
    update_row b m x p = if is_at (item_key b m x) p then updated m x p else p

    -- `upsert`: a row that is new must keep both unique indexes.
    unfoldable pub upsert_position :
        Broker → Market → BalanceItem Price → List (Position Price) → Option (List (Position Price))
    unfolding update_row created item_key key_eq same_listing
    upsert_position b m x rows =
        if any (is_at (item_key b m x)) rows
        then some (map (update_row b m x) rows)
        else if any (is_listed (item_key b m x)) rows
        then none
        else some (rows ++ (created b m x ∷ []))

    unfoldable pub upsert_positions :
        Broker → Market → List (BalanceItem Price) → List (Position Price) → SyncResult Price
    unfolding upsert_position
    upsert_positions b m [] rows = written rows
    upsert_positions b m (x ∷ xs) rows =
        next_item (upsert_positions b m xs) rows (upsert_position b m x rows)

    unfoldable pub sync_positions :
        Broker → Market → List (BalanceItem Price) → List (Position Price) → SyncResult Price
    unfolding is_unresolved_venue upsert_positions delete_others
    sync_positions b m items rows =
        if has_unresolved_venue m items
        then thrown rows
        else then_delete b m items (upsert_positions b m items rows)

    -- `refresh`: the snapshot that `getBalance` answers, `none` an exception, is returned once it was
    -- written.
    unfoldable pub refresh :
        Option (List (BalanceItem Price))
        → Broker
        → Market
        → List (Position Price)
        → SyncResult Price × Option (List (BalanceItem Price))
    unfolding sync_positions
    refresh none b m rows = (thrown rows, none)
    refresh (some snapshot) b m rows = returned (sync_positions b m snapshot rows)
      where
        returned : SyncResult Price → SyncResult Price × Option (List (BalanceItem Price))
        returned (thrown rows') = (thrown rows', none)
        returned (written rows') = (written rows', some snapshot)
