-- ===== src/Cash/Views.antt =====
-- The entries of a broker and a market after a write.
use kis_trader_back.Common.{
  ℕ, ◌≡◌, refl, ap, ◌∙◌, Bool, true, false, ◌&&◌, not, Option, none, some, List, [], ◌∷◌, ◌++◌, map,
  keep, All, keep-append, keep-All, keep_none, keep-keep, append_nil, or_else, Bool-cases, inl, inr,
  str_eq,
}
use kis_trader_back.Model.{Broker, kis, toss, broker_eq, Market, domestic, overseas, market_eq}
use kis_trader_back.Cash.Settings.{
  find_setting, upsert, find_setting-upsert, find_setting-upsert_other,
}
use kis_trader_back.Cash.{
  CashBalance, StatusCache, Settings, cache_key, account_status_cache_key, to_json_cash_balance,
  to_legacy_json_cash_balance, in_market, balances_in, write_cache, cache_of, balances_of,
  legacy_value, legacy_for,
}

pub All-map_in :
    (m : Market) (f : CashBalance → CashBalance) (xs : List CashBalance)
    → ((x : CashBalance) → (f x).market ≡ x.market)
    → All (λ x. in_market m x ≡ true) xs
    → All (λ x. in_market m x ≡ true) (map f xs)
All-map_in m f [] k h = tt
All-map_in m f (x ∷ xs) k (h, hs) = (rw (k x) h, All-map_in m f xs k hs)

other_market :
    (m n k : Market) → market_eq m n ≡ false → market_eq k m ≡ true → market_eq k n ≡ false
other_market domestic domestic k apart h = cc
other_market domestic overseas domestic apart h = refl
other_market domestic overseas overseas apart h = cc
other_market overseas domestic domestic apart h = cc
other_market overseas domestic overseas apart h = refl
other_market overseas overseas k apart h = cc

others_out :
    (m k : Market)
    → market_eq m k ≡ false
    → (xs : List CashBalance) → All (λ x. in_market m x ≡ true) xs
    → All (λ x. in_market k x ≡ false) xs
others_out m k apart [] h = tt
others_out m k apart (x ∷ xs) (h, hs) =
    (other_market m k x.market apart h, others_out m k apart xs hs)

not_both :
    (m k n : Market) → market_eq m k ≡ false → market_eq n k ≡ true → not (market_eq n m) ≡ true
not_both m k n apart h = elim (Bool-cases (market_eq n m)) [
  | inl both ↦ let no = other_market m k n apart both in cc
  | inr one ↦ rw one refl
]

abbrev pub same_scope : Broker → Market → Broker → Market → Bool
same_scope b m c k = broker_eq b c && market_eq m k

keys_apart :
    (b : Broker) (m : Market) (c : Broker) (k : Market)
    → same_scope b m c k ≡ false
    → str_eq (cache_key b m) (cache_key c k) ≡ false
unfolding cache_key
keys_apart kis domestic kis domestic h = cc
keys_apart kis domestic kis overseas h = refl
keys_apart kis domestic toss domestic h = refl
keys_apart kis domestic toss overseas h = refl
keys_apart kis overseas kis domestic h = refl
keys_apart kis overseas kis overseas h = cc
keys_apart kis overseas toss domestic h = refl
keys_apart kis overseas toss overseas h = refl
keys_apart toss domestic kis domestic h = refl
keys_apart toss domestic kis overseas h = refl
keys_apart toss domestic toss domestic h = cc
keys_apart toss domestic toss overseas h = refl
keys_apart toss overseas kis domestic h = refl
keys_apart toss overseas kis overseas h = refl
keys_apart toss overseas toss domestic h = refl
keys_apart toss overseas toss overseas h = cc

legacy_apart : (b : Broker) (m : Market) → str_eq account_status_cache_key (cache_key b m) ≡ false
unfolding cache_key
legacy_apart kis domestic = refl
legacy_apart kis overseas = refl
legacy_apart toss domestic = refl
legacy_apart toss overseas = refl

scoped_apart : (b : Broker) (m : Market) → str_eq (cache_key b m) account_status_cache_key ≡ false
unfolding cache_key
scoped_apart kis domestic = refl
scoped_apart kis overseas = refl
scoped_apart toss domestic = refl
scoped_apart toss overseas = refl

module _ (m : Market) (items : List CashBalance) (now later : ℕ) (s : Settings) where
  find_setting-write_cache :
      (b : Broker)
      → find_setting (cache_key b m) (write_cache b m items now later s)
        ≡ some (record { cash_balances = map (to_json_cash_balance b) items; last_synced_at = now })
  unfolding write_cache
  find_setting-write_cache toss = find_setting-upsert _ _ s
  find_setting-write_cache kis =
      find_setting-upsert_other _ (cache_key kis m) _ _ (legacy_apart kis m)
      ∙ find_setting-upsert _ _ s

  find_setting-write_cache_other :
      (b c : Broker) (k : Market)
      → same_scope b m c k ≡ false
      → find_setting (cache_key c k) (write_cache b m items now later s)
        ≡ find_setting (cache_key c k) s
  unfolding write_cache
  find_setting-write_cache_other toss c k h =
      find_setting-upsert_other _ (cache_key c k) _ s (keys_apart toss m c k h)
  find_setting-write_cache_other kis c k h =
      find_setting-upsert_other _ (cache_key c k) _ _ (legacy_apart c k)
      ∙ find_setting-upsert_other _ (cache_key c k) _ s (keys_apart kis m c k h)

  legacy-write_cache_toss :
      find_setting account_status_cache_key (write_cache toss m items now later s)
      ≡ find_setting account_status_cache_key s
  unfolding write_cache
  legacy-write_cache_toss =
      find_setting-upsert_other _ account_status_cache_key _ s (scoped_apart toss m)

  legacy-write_cache_kis :
      balances_in (find_setting account_status_cache_key (write_cache kis m items now later s))
      ≡ keep (λ x. not (in_market m x)) (balances_in (find_setting account_status_cache_key s))
        ++ map to_legacy_json_cash_balance items
  unfolding write_cache
  legacy-write_cache_kis =
      let value : StatusCache = record {
        cash_balances = map (to_json_cash_balance kis) items;
        last_synced_at = now;
      } in
      let scoped = upsert (cache_key kis m) value s in
      ap balances_in
        (find_setting-upsert account_status_cache_key (legacy_value m items later scoped) scoped)
      ∙ ap
          (λ c.
            keep (λ x. not (in_market m x)) (balances_in c)
            ++ map to_legacy_json_cash_balance items)
          (find_setting-upsert_other (cache_key kis m) account_status_cache_key value s
            (scoped_apart kis m))

  -- A broker and a market that is written shows what was written.
  pub balances_of-write_cache :
      (b : Broker)
      → All (λ x. in_market m x ≡ true) items
      → balances_of b m (write_cache b m items now later s) ≡ map (to_json_cash_balance b) items
  unfolding balances_of cache_of
  balances_of-write_cache b inside = rw (find_setting-write_cache b) (
      keep-All (in_market m) (map (to_json_cash_balance b) items)
        (All-map_in m (to_json_cash_balance b) items (λ x. refl) inside))

  legacy_view :
      (k : Market)
      → market_eq m k ≡ false
      → All (λ x. in_market m x ≡ true) items
      → keep (in_market k) (balances_in (legacy_for kis (write_cache kis m items now later s)))
        ≡ keep (in_market k) (balances_in (legacy_for kis s))
  legacy_view k apart inside =
      let old = balances_in (find_setting account_status_cache_key s) in
      ap (keep (in_market k)) legacy-write_cache_kis
      ∙ keep-append (in_market k) (keep (λ x. not (in_market m x)) old)
          (map to_legacy_json_cash_balance items)
      ∙ ap (λ ys. keep (in_market k) (keep (λ x. not (in_market m x)) old) ++ ys)
          (keep_none (in_market k) (map to_legacy_json_cash_balance items) (
            others_out m k apart (map to_legacy_json_cash_balance items)
              (All-map_in m to_legacy_json_cash_balance items (λ x. refl) inside)))
      ∙ append_nil (keep (in_market k) (keep (λ x. not (in_market m x)) old))
      ∙ keep-keep (in_market k) (λ x. not (in_market m x)) old
          (λ x h. not_both m k x.market apart h)

  entry_view :
      (b c : Broker) (k : Market)
      → keep (in_market k) (balances_in (legacy_for c (write_cache b m items now later s)))
        ≡ keep (in_market k) (balances_in (legacy_for c s))
      → (o : Option StatusCache)
      → keep
          (in_market k)
          (balances_in (or_else o (legacy_for c (write_cache b m items now later s))))
        ≡ keep (in_market k) (balances_in (or_else o (legacy_for c s)))
  entry_view b c k same (some x) = refl
  entry_view b c k same none = same

  -- Another broker or market shows what it did.
  pub balances_of-write_cache_other :
      (b c : Broker) (k : Market)
      → same_scope b m c k ≡ false
      → All (λ x. in_market m x ≡ true) items
      → balances_of c k (write_cache b m items now later s) ≡ balances_of c k s
  unfolding balances_of cache_of
  balances_of-write_cache_other b c k h inside =
      rw (find_setting-write_cache_other b c k h)
        (entry_view b c k (shared b c k h) (find_setting (cache_key c k) s))
    where
      shared :
          (b c : Broker) (k : Market)
          → same_scope b m c k ≡ false
          → keep (in_market k) (balances_in (legacy_for c (write_cache b m items now later s)))
            ≡ keep (in_market k) (balances_in (legacy_for c s))
      shared b toss k h = refl
      shared toss kis k h = ap (λ c. keep (in_market k) (balances_in c)) legacy-write_cache_toss
      shared kis kis k h = legacy_view k h inside
