-- ===== src/Cash.antt =====
-- src/trading/trading-account-cash-sync.service.ts: the cash balances of each broker and market, as
-- they are kept in `app_settings`, and the older entry that KIS shares among its markets.
-- `currencyName` and amounts that are absent are `null` in the database and `none` here.
pub mod Settings
pub mod Views
pub mod Refreshed
use kis_trader_back.Common.{
  ℕ, String, Bool, true, false, ◌&&◌, not, Option, none, some, List, [], ◌∷◌, ◌++◌, map, keep,
  or_else, max,
}
use kis_trader_back.Model.{
  Broker, kis, toss, broker_eq, broker_name, Market, domestic, overseas, market_eq, market_name,
}
use kis_trader_back.Cash.Settings.{Setting, find_setting, upsert}
use Prim.Native.String
use mathlib.Core.Option

-- An amount of money in the smallest unit of its currency, which may be owed.
pub data ℤ : Type 0 where
  pos negsuc : ℕ → ℤ

pub record CashBalance : Type 0 where
  pub broker : Option Broker
  pub market : Market
  pub currency_code : String
  pub currency_name : Option String
  pub amount : ℤ
  pub withdrawable_amount : Option ℤ
  pub orderable_amount : Option ℤ
  pub general_orderable_amount : Option ℤ
  pub integrated_orderable_amount : Option ℤ
  pub pending_buy_amount : Option ℤ
  pub pending_sell_amount : Option ℤ
  pub receivable_amount : Option ℤ
  pub margin_amount : Option ℤ

-- `AccountStatusCache`.
pub record StatusCache : Type 0 where
  pub cash_balances : List CashBalance
  pub last_synced_at : ℕ

abbrev pub Settings : Type 0
Settings = List (Setting StatusCache)

abbrev pub account_status_cache_key : String
account_status_cache_key = "account_status_cache"

unfoldable pub cache_key : Broker → Market → String
cache_key b m =
    String.◌++◌ account_status_cache_key
      (String.◌++◌ ":" (String.◌++◌ (broker_name b) (String.◌++◌ ":" (market_name m))))

-- `toJsonCashBalance` and `toLegacyJsonCashBalance`.
abbrev pub to_json_cash_balance : Broker → CashBalance → CashBalance
to_json_cash_balance b x = record x { broker = some b }

abbrev pub to_legacy_json_cash_balance : CashBalance → CashBalance
to_legacy_json_cash_balance x = record x { broker = none }

abbrev pub in_market : Market → CashBalance → Bool
in_market m x = market_eq x.market m

abbrev pub balances_in : Option StatusCache → List CashBalance
balances_in none = []
balances_in (some c) = c.cash_balances

-- What the entry that KIS shares becomes: its other markets stay.
abbrev pub legacy_value : Market → List CashBalance → ℕ → Settings → StatusCache
legacy_value m items now s = record {
  cash_balances =
      keep (λ x. not (in_market m x)) (balances_in (find_setting account_status_cache_key s))
      ++ map to_legacy_json_cash_balance items;
  last_synced_at = now;
}

-- `writeCache`, one transaction; the times are the two readings of the clock.
unfoldable pub write_cache : Broker → Market → List CashBalance → ℕ → ℕ → Settings → Settings
unfolding cache_key find_setting upsert
write_cache b m items now later s =
    let scoped =
      upsert (cache_key b m)
        (record { cash_balances = map (to_json_cash_balance b) items; last_synced_at = now }) s in
    elim b [
      | kis ↦ upsert account_status_cache_key (legacy_value m items later scoped) scoped
      | toss ↦ scoped
    ]

-- `replaceCache`, at a clock that is read for every market.
unfoldable pub replace_cache :
    Broker → List CashBalance → List Market → (Market → ℕ) → Settings → Settings
unfolding write_cache
replace_cache b items [] now s = s
replace_cache b items (m ∷ ms) now s =
    replace_cache b items ms now (write_cache b m (keep (in_market m) items) (now m) (now m) s)

-- What the broker answers, or an exception: `getDomesticBuyableAmount().cashAvailable` and the
-- `cashBalances` of `getOverseasAccountSnapshot`.
pub record CashPort : Type 0 where
  pub domestic_cash : Option ℤ
  pub overseas_cash : Option (List CashBalance)

abbrev domestic_balance : ℤ → CashBalance
domestic_balance cash = record {
  broker = none;
  market = domestic;
  currency_code = "KRW";
  currency_name = some "원화";
  amount = cash;
  withdrawable_amount = some cash;
  orderable_amount = some cash;
  general_orderable_amount = none;
  integrated_orderable_amount = none;
  pending_buy_amount = none;
  pending_sell_amount = none;
  receivable_amount = none;
  margin_amount = none;
}

abbrev overseas_balance : CashBalance → CashBalance
overseas_balance x = record x { broker = none; market = overseas }

-- `getDomesticCashBalances` and `getOverseasCashBalances`.
unfoldable pub cash_balances_of : CashPort → Market → Option (List CashBalance)
cash_balances_of p domestic = Option.map (λ cash. domestic_balance cash ∷ []) p.domestic_cash
cash_balances_of p overseas = Option.map (map overseas_balance) p.overseas_cash

-- `refreshMarketCash`; `none` is an exception of the broker.
unfoldable pub refresh_market_cash : CashPort → Broker → Market → ℕ → ℕ → Settings → Option Settings
unfolding cash_balances_of write_cache
refresh_market_cash p b m now later s =
    Option.map (λ items. write_cache b m items now later s) (cash_balances_of p m)

abbrev pub legacy_for : Broker → Settings → Option StatusCache
legacy_for kis s = find_setting account_status_cache_key s
legacy_for toss s = none

-- The entry of a broker and a market, and for KIS the shared one in its place.
unfoldable pub cache_of : Broker → Market → Settings → Option StatusCache
unfolding cache_key find_setting
cache_of b m s = or_else (find_setting (cache_key b m) s) (legacy_for b s)

unfoldable pub balances_of : Broker → Market → Settings → List CashBalance
unfolding cache_of
balances_of b m s = keep (in_market m) (balances_in (cache_of b m s))

abbrev pub stamp : Broker → Market → CashBalance → CashBalance
stamp b m x = record x { broker = some b; market = m }

abbrev pub scope_rows : Broker → Market → Settings → List CashBalance
scope_rows b m s = map (stamp b m) (balances_of b m s)

-- The time that a scope contributes to `syncedAt`; an entry without balances has none.
abbrev synced_at : Broker → Market → Settings → ℕ
synced_at b m s = elim (balances_of b m s) [
  | [] ↦ 0
  | x ∷ xs ↦ elim (cache_of b m s) [ none ↦ 0 | some c ↦ c.last_synced_at ]
]

unfoldable pub all_rows : Settings → List CashBalance
all_rows s =
    scope_rows kis domestic s
    ++ (scope_rows kis overseas s ++ (scope_rows toss domestic s ++ scope_rows toss overseas s))

abbrev pub status_of : List CashBalance → ℕ → Option StatusCache
status_of [] now = none
status_of (x ∷ xs) now = some (record { cash_balances = x ∷ xs; last_synced_at = now })

-- `getCache`. ISO times are sorted as texts, which is by time.
unfoldable pub get_cache : Settings → Option StatusCache
unfolding all_rows balances_of cache_of
get_cache s = status_of (all_rows s) (
    max (max (synced_at kis domestic s) (synced_at kis overseas s))
      (max (synced_at toss domestic s) (synced_at toss overseas s)))

-- The balances of a broker and a market in what `getCache` answers.
abbrev pub is_scope : Broker → Market → CashBalance → Bool
is_scope b m x = elim (x.broker) [ none ↦ false | some c ↦ broker_eq c b && market_eq x.market m ]

abbrev pub shown : Broker → Market → Option StatusCache → List CashBalance
shown b m c = keep (is_scope b m) (balances_in c)
