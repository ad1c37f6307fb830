-- ===== src/Context/Configured.antt =====
-- One account has one context, however the configuration writes it.
use Prim.Native.String
use Prim.Native.Char.{code}
use text.Mathlib.TextLemmas.{nil-append, cons-append}
use kis_trader_back.Common.{
  trim_start, trim_end, is_space, ℕ, ◌≡◌, refl, sym, ◌∙◌, String, Bool, true, false, Option, none,
  some, List, [], ◌∷◌, ◌++◌, trim, every, length, length-append, and_split, arith, ==→eq,
}
use kis_trader_back.Model.{kis}
use kis_trader_back.Dates.{codes, is_digit}
use kis_trader_back.Mutation.Timestamp.{take_text, drop_text}
use kis_trader_back.Context.{
  Config, is_number_of, environment_of, product_code, kis_context, kis_context_of,
  get_current_context,
}

codes-append : (s t : String) → codes (String.◌++◌ s t) ≡ codes s ++ codes t
unfolding codes
codes-append String.[] t = rw (nil-append t) refl
codes-append (String.◌∷◌ c s) t = rw (cons-append c s t, codes-append s t) refl

every-append :
    (p : ℕ → Bool) (xs ys : List ℕ)
    → every p xs ≡ true
    → every p ys ≡ true
    → every p (xs ++ ys) ≡ true
every-append p [] ys h g = g
every-append p (x ∷ xs) ys h g = ground (arith, every-append p xs ys)

take_text_empty : (s : String) → take_text 0 s ≡ ""
unfolding take_text
take_text_empty String.[] = refl
take_text_empty (String.◌∷◌ c s) = refl

take_text-append : (s t : String) → take_text (length (codes s)) (String.◌++◌ s t) ≡ s
unfolding take_text codes
take_text-append String.[] t = take_text_empty (String.◌++◌ "" t)
take_text-append (String.◌∷◌ c s) t = rw (cons-append c s t, take_text-append s t) refl

take_text_whole : (s : String) → take_text (length (codes s)) s ≡ s
unfolding take_text codes
take_text_whole String.[] = refl
take_text_whole (String.◌∷◌ c s) = rw (take_text_whole s) refl

drop_text-append : (s t : String) → drop_text (length (codes s)) (String.◌++◌ s t) ≡ t
unfolding drop_text codes
drop_text-append String.[] t = nil-append t
drop_text-append (String.◌∷◌ c s) t = rw (cons-append c s t) (drop_text-append s t)

digit-is_space : (n : ℕ) → is_digit n ≡ true → is_space n ≡ false
unfolding is_digit is_space
digit-is_space n h = ground arith

digits-trim_start : (s : String) → every is_digit (codes s) ≡ true → trim_start s ≡ s
unfolding trim_start codes
digits-trim_start String.[] h = refl
digits-trim_start (String.◌∷◌ c s) h =
    let (digit, rest) = and_split (is_digit (code c)) _ h in rw (digit-is_space (code c) digit) refl

digits-trim_end : (s : String) → every is_digit (codes s) ≡ true → trim_end s ≡ s
unfolding trim_end codes
digits-trim_end String.[] h = refl
digits-trim_end (String.◌∷◌ c s) h =
    let (digit, rest) = and_split (is_digit (code c)) _ h in
    rw (digit-is_space (code c) digit, digits-trim_end s rest) refl

digits-trim : (s : String) → every is_digit (codes s) ≡ true → trim s ≡ s
unfolding trim
digits-trim s h = rw (digits-trim_start s h) (digits-trim_end s h)

number_of-parts :
    (n : ℕ) (s : String)
    → is_number_of n s ≡ true
    → (every is_digit (codes s) ≡ true) × (length (codes s) ≡ n)
unfolding is_number_of
number_of-parts n s h = let (digits, many) = and_split _ _ h in (digits, ==→eq _ _ many)

joined-is_number_of :
    (cano own : String)
    → is_number_of 8 cano ≡ true
    → is_number_of 2 own ≡ true
    → is_number_of 10 (String.◌++◌ cano own) ≡ true
unfolding is_number_of
joined-is_number_of cano own h g =
    let (c_digits, eight) = number_of-parts 8 cano h in
    let (o_digits, two) = number_of-parts 2 own g in
    rw
      (
        codes-append cano own,
        every-append is_digit (codes cano) (codes own) c_digits o_digits,
        length-append (codes cano) (codes own),
        eight,
        two,
      )
      refl

not_eight : (s : String) → is_number_of 10 s ≡ true → is_number_of 8 s ≡ false
unfolding is_number_of
not_eight s h = let (digits, ten) = number_of-parts 10 s h in rw (digits, ten) refl

not_ten : (s : String) → is_number_of 8 s ≡ true → is_number_of 10 s ≡ false
unfolding is_number_of
not_ten s h = let (digits, eight) = number_of-parts 8 s h in rw (digits, eight) refl

joined_is_digits :
    (cano own : String)
    → is_number_of 8 cano ≡ true
    → is_number_of 2 own ≡ true
    → (trim (String.◌++◌ cano own) ≡ String.◌++◌ cano own)
      × (take_text 8 (String.◌++◌ cano own) ≡ cano)
      × (drop_text 8 (String.◌++◌ cano own) ≡ own)
joined_is_digits cano own h g =
    let (c_digits, eight) = number_of-parts 8 cano h in
    let (digits, ten) =
      number_of-parts 10 (String.◌++◌ cano own) (joined-is_number_of cano own h g) in
    (
      digits-trim (String.◌++◌ cano own) digits,
      rw eight at (take_text-append cano own),
      rw eight at (drop_text-append cano own),
    )

joined_context :
    (hash : String → String) (c : Config) (cano own e : String)
    → is_number_of 8 cano ≡ true
    → is_number_of 2 own ≡ true
    → kis_context hash c (some (String.◌++◌ cano own)) (some e)
      ≡ kis_context_of hash cano (environment_of e) (some own)
unfolding kis_context product_code
joined_context hash c cano own e h g =
    let (trimmed, first, last) = joined_is_digits cano own h g in
    let ten = joined-is_number_of cano own h g in
    rw (trimmed, not_eight (String.◌++◌ cano own) ten, ten, first, last) refl

apart_context :
    (hash : String → String) (c : Config) (cano own e : String)
    → is_number_of 8 cano ≡ true
    → is_number_of 2 own ≡ true
    → kis_context hash (record c { kis_prod_code = some own }) (some cano) (some e)
      ≡ kis_context_of hash cano (environment_of e) (some own)
unfolding kis_context product_code
apart_context hash c cano own e h g =
    let (c_digits, eight) = number_of-parts 8 cano h in
    let (o_digits, two) = number_of-parts 2 own g in
    let whole : take_text 8 cano ≡ cano = rw eight at (take_text_whole cano) in
    rw (digits-trim cano c_digits, h, not_ten cano h, digits-trim own o_digits, g, whole) refl

-- An account of eight digits with its product code behind it gives the context that it gives with the
-- product code configured apart: the same broker, environment, account hash and masked account, whatever
-- the environment and the rest of the configuration are.
pub get_current_context-joined :
    (hash toss_hash : String → String) (c : Config) (cano own : String)
    → is_number_of 8 cano ≡ true
    → is_number_of 2 own ≡ true
    → get_current_context hash toss_hash
        (record c { kis_account_no = some (String.◌++◌ cano own) })
        kis
      ≡ get_current_context hash toss_hash
          (record c { kis_account_no = some cano; kis_prod_code = some own })
          kis
unfolding get_current_context
get_current_context-joined hash toss_hash c cano own h g = by_environment c.kis_env
  where
    by_environment :
        (e : Option String)
        → kis_context hash
            (record c { kis_account_no = some (String.◌++◌ cano own) })
            (some (String.◌++◌ cano own))
            e
          ≡ kis_context hash
              (record c { kis_account_no = some cano; kis_prod_code = some own })
              (some cano)
              e
    by_environment none = refl
    by_environment (some e) =
        joined_context hash (record c { kis_account_no = some (String.◌++◌ cano own) }) cano own e h
          g
        ∙ sym (apart_context hash (record c { kis_account_no = some cano }) cano own e h g)
