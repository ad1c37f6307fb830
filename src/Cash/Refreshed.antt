-- ===== src/Cash/Refreshed.antt =====
-- What `getCache` answers after the balances of a broker were refreshed or replaced.
use mathlib.Core.Option
use mathlib.Core.Path.{subst}
use kis_trader_back.Common.{
  ℕ, ◌≡◌, refl, sym, ap, ◌∙◌, Bool, true, false, ◌||◌, Option, none, some, List, [], ◌∷◌, ◌++◌, map,
  keep, All, keep-append, keep-All, keep_none, append_nil, Bool-cases, inl, inr, arith,
  if◌then◌else◌, any,
}
use kis_trader_back.Model.{Broker, kis, toss, Market, domestic, overseas}
use kis_trader_back.Cash.{
  CashBalance, Settings, to_json_cash_balance, in_market, balances_in, write_cache, replace_cache,
  CashPort, cash_balances_of, refresh_market_cash, balances_of, stamp, scope_rows, all_rows,
  get_cache, status_of, is_scope, shown,
}
use kis_trader_back.Cash.Views.{same_scope, balances_of-write_cache, balances_of-write_cache_other}

scope_self : (b : Broker) (m : Market) → same_scope b m b m ≡ true
scope_self kis domestic = refl
scope_self kis overseas = refl
scope_self toss domestic = refl
scope_self toss overseas = refl

All-stamp :
    (p : CashBalance → Bool) (v : Bool) (b : Broker) (m : Market) (xs : List CashBalance)
    → ((x : CashBalance) → p (stamp b m x) ≡ v)
    → All (λ x. p x ≡ v) (map (stamp b m) xs)
All-stamp p v b m [] h = tt
All-stamp p v b m (x ∷ xs) h = (h x, All-stamp p v b m xs h)

rows_in :
    (b : Broker) (m : Market) (s : Settings)
    → keep (is_scope b m) (scope_rows b m s) ≡ scope_rows b m s
rows_in b m s =
    keep-All (is_scope b m) (scope_rows b m s)
      (All-stamp (is_scope b m) true b m (balances_of b m s) (λ x. scope_self b m))

rows_out :
    (b : Broker) (m : Market) (c : Broker) (k : Market) (s : Settings)
    → same_scope c k b m ≡ false
    → keep (is_scope b m) (scope_rows c k s) ≡ []
rows_out b m c k s h =
    keep_none (is_scope b m) (scope_rows c k s)
      (All-stamp (is_scope b m) false c k (balances_of c k s) (λ x. h))

keep_four :
    (p : CashBalance → Bool) (a b c d : List CashBalance)
    → keep p (a ++ (b ++ (c ++ d))) ≡ keep p a ++ (keep p b ++ (keep p c ++ keep p d))
keep_four p a b c d =
    keep-append p a (b ++ (c ++ d))
    ∙ ap (λ ys. keep p a ++ ys)
        (keep-append p b (c ++ d) ∙ ap (λ ys. keep p b ++ ys) (keep-append p c d))

balances_in-status_of : (xs : List CashBalance) (now : ℕ) → balances_in (status_of xs now) ≡ xs
balances_in-status_of [] now = refl
balances_in-status_of (x ∷ xs) now = refl

shown_rows :
    (b : Broker) (m : Market) (s : Settings) → keep (is_scope b m) (all_rows s) ≡ scope_rows b m s
unfolding all_rows
shown_rows b m s =
    keep_four (is_scope b m) (scope_rows kis domestic s) (scope_rows kis overseas s)
      (scope_rows toss domestic s) (scope_rows toss overseas s)
    ∙ parts b m
  where
    parts :
        (b : Broker) (m : Market)
        → keep (is_scope b m) (scope_rows kis domestic s)
            ++ (keep (is_scope b m) (scope_rows kis overseas s)
                ++ (keep (is_scope b m) (scope_rows toss domestic s)
                    ++ keep (is_scope b m) (scope_rows toss overseas s)))
          ≡ scope_rows b m s
    parts kis domestic =
        rw
          (
            rows_in kis domestic s,
            rows_out kis domestic kis overseas s refl,
            rows_out kis domestic toss domestic s refl,
            rows_out kis domestic toss overseas s refl,
          )
          (append_nil (scope_rows kis domestic s))
    parts kis overseas =
        rw
          (
            rows_in kis overseas s,
            rows_out kis overseas kis domestic s refl,
            rows_out kis overseas toss domestic s refl,
            rows_out kis overseas toss overseas s refl,
          )
          (append_nil (scope_rows kis overseas s))
    parts toss domestic =
        rw
          (
            rows_in toss domestic s,
            rows_out toss domestic kis domestic s refl,
            rows_out toss domestic kis overseas s refl,
            rows_out toss domestic toss overseas s refl,
          )
          (append_nil (scope_rows toss domestic s))
    parts toss overseas =
        rw
          (
            rows_in toss overseas s,
            rows_out toss overseas kis domestic s refl,
            rows_out toss overseas kis overseas s refl,
            rows_out toss overseas toss domestic s refl,
          )
          refl

shown-get_cache :
    (b : Broker) (m : Market) (s : Settings) → shown b m (get_cache s) ≡ scope_rows b m s
unfolding get_cache
shown-get_cache b m s =
    ap (keep (is_scope b m)) (balances_in-status_of (all_rows s) _) ∙ shown_rows b m s

-- The broker's own label on what is written does not show.
stamp-to_json :
    (b : Broker) (m : Market) (xs : List CashBalance)
    → map (stamp b m) (map (to_json_cash_balance b) xs) ≡ map (stamp b m) xs
stamp-to_json b m [] = refl
stamp-to_json b m (x ∷ xs) = rw (stamp-to_json b m xs) refl

write_cache-shown :
    (m : Market) (items : List CashBalance) (now later : ℕ) (s : Settings) (b : Broker)
    → All (λ x. in_market m x ≡ true) items
    → shown b m (get_cache (write_cache b m items now later s)) ≡ map (stamp b m) items
write_cache-shown m items now later s b inside =
    shown-get_cache b m (write_cache b m items now later s)
    ∙ ap (map (stamp b m)) (balances_of-write_cache m items now later s b inside)
    ∙ stamp-to_json b m items

write_cache-shown_other :
    (m : Market) (items : List CashBalance) (now later : ℕ) (s : Settings) (b c : Broker)
    (k : Market)
    → same_scope b m c k ≡ false
    → All (λ x. in_market m x ≡ true) items
    → shown c k (get_cache (write_cache b m items now later s)) ≡ shown c k (get_cache s)
write_cache-shown_other m items now later s b c k h inside =
    shown-get_cache c k (write_cache b m items now later s)
    ∙ ap (map (stamp c k)) (balances_of-write_cache_other m items now later s b c k h inside)
    ∙ sym (shown-get_cache c k s)

All-overseas :
    (f : CashBalance → CashBalance) (xs : List CashBalance)
    → ((x : CashBalance) → (f x).market ≡ overseas)
    → All (λ x. in_market overseas x ≡ true) (map f xs)
All-overseas f [] h = tt
All-overseas f (x ∷ xs) h = (rw (h x) refl, All-overseas f xs h)

answered_in :
    {A : Type 0} (m : Market) (o : Option A) (f : A → List CashBalance) {items : List CashBalance}
    → ((a : A) → All (λ x. in_market m x ≡ true) (f a))
    → Option.map f o ≡ some items
    → All (λ x. in_market m x ≡ true) items
answered_in m none f h e = cc
answered_in m (some a) f {items} h e =
    subst (All (λ x. in_market m x ≡ true)) (let same : f a ≡ items = cc in same) (h a)

cash_balances_of-market :
    (p : CashPort) (m : Market) (items : List CashBalance)
    → cash_balances_of p m ≡ some items
    → All (λ x. in_market m x ≡ true) items
unfolding cash_balances_of
cash_balances_of-market p domestic items h =
    answered_in domestic p.domestic_cash _ (λ cash. (refl, tt)) h
cash_balances_of-market p overseas items h =
    answered_in overseas p.overseas_cash _ (λ xs. All-overseas _ xs (λ x. refl)) h

-- If the broker answers, `refreshMarketCash` succeeds, and then `getCache` shows the balances that
-- it answered for the refreshed broker and market, and for every other broker or market what it
-- showed before.
pub refresh_market_cash-get_cache :
    (p : CashPort) (b : Broker) (m : Market) (now later : ℕ) (s : Settings)
    (items : List CashBalance)
    → cash_balances_of p m ≡ some items
    → (s' : Settings) × (refresh_market_cash p b m now later s ≡ some s')
      × (shown b m (get_cache s') ≡ map (stamp b m) items)
      × ((c : Broker) (k : Market)
          → same_scope b m c k ≡ false
          → shown c k (get_cache s') ≡ shown c k (get_cache s))
unfolding refresh_market_cash
refresh_market_cash-get_cache p b m now later s items h =
    let inside = cash_balances_of-market p m items h in
    (
      write_cache b m items now later s,
      rw h refl,
      write_cache-shown m items now later s b inside,
      λ c k apart. write_cache-shown_other m items now later s b c k apart inside,
    )

or_true : (b : Bool) → (b || true) ≡ true
or_true b = ground arith

or_false : (b : Bool) → (b || false) ≡ b
or_false b = ground arith

same_scope→eq :
    (b : Broker) (m : Market) (c : Broker) (k : Market)
    → same_scope b m c k ≡ true
    → (b ≡ c) × (m ≡ k)
same_scope→eq kis domestic kis domestic h = (refl, refl)
same_scope→eq kis overseas kis overseas h = (refl, refl)
same_scope→eq toss domestic toss domestic h = (refl, refl)
same_scope→eq toss overseas toss overseas h = (refl, refl)
same_scope→eq _ _ _ _ h = cc

All-keep : (p : CashBalance → Bool) (xs : List CashBalance) → All (λ x. p x ≡ true) (keep p xs)
All-keep p [] = tt
All-keep p (x ∷ xs) = elim (Bool-cases (p x)) [
  | inl hit ↦ rw hit (hit, All-keep p xs)
  | inr miss ↦ rw miss (All-keep p xs)
]

-- After `replaceCache`, `getCache` shows the given balances of each of the given markets for that
-- broker, and for every other broker or market what it showed before.
pub replace_cache-get_cache :
    (b : Broker) (items : List CashBalance) (ms : List Market) (now : Market → ℕ) (s : Settings)
    (c : Broker) (k : Market)
    → shown c k (get_cache (replace_cache b items ms now s)) ≡ (
        if any (λ m. same_scope b m c k) ms
        then map (stamp c k) (keep (in_market k) items)
        else shown c k (get_cache s))
unfolding replace_cache
replace_cache-get_cache b items [] now s c k = refl
replace_cache-get_cache b items (m ∷ ms) now s c k =
    replace_cache-get_cache b items ms now
      (write_cache b m (keep (in_market m) items) (now m) (now m) s) c k
    ∙ later (any (λ m. same_scope b m c k) ms)
  where
    written : Settings
    written = write_cache b m (keep (in_market m) items) (now m) (now m) s

    first : shown c k (get_cache written) ≡ (
        if same_scope b m c k
        then map (stamp c k) (keep (in_market k) items)
        else shown c k (get_cache s))
    first = elim (Bool-cases (same_scope b m c k)) [
      | inr apart ↦ rw apart (
          write_cache-shown_other m (keep (in_market m) items) (now m) (now m) s b c k apart
            (All-keep (in_market m) items))
      | inl same ↦
          let (eb, em) = same_scope→eq b m c k same in
          rw same (
            subst
              (λ c'. shown c' k (get_cache written) ≡ map (stamp c' k) (keep (in_market k) items))
              eb
              (subst
                (λ k'.
                  shown b k' (get_cache written) ≡ map (stamp b k') (keep (in_market k') items))
                em
                (write_cache-shown m (keep (in_market m) items) (now m) (now m) s b
                  (All-keep (in_market m) items))))
    ]

    later :
        (among : Bool)
        → (if among
            then map (stamp c k) (keep (in_market k) items)
            else shown c k (get_cache written))
          ≡ (if same_scope b m c k || among
              then map (stamp c k) (keep (in_market k) items)
              else shown c k (get_cache s))
    later true = rw (or_true (same_scope b m c k)) refl
    later false = first ∙ rw (or_false (same_scope b m c k)) refl
