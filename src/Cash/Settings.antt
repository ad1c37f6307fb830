-- ===== src/Cash/Settings.antt =====
-- `app_settings`: values under text keys, with `findUnique` and `upsert`.
use text.Mathlib.TextEquality.{eq_iff}
use text.Mathlib.TextPositions.{eq_refl}
use kis_trader_back.Common.{
  ◌≡◌, refl, String, false, Option, none, some, List, [], ◌∷◌, if◌then◌else◌, str_eq, Bool-cases,
  inl, inr,
}

pub record Setting (A : Type 0) : Type 0 where
  pub key : String
  pub value : A

module _ {A : Type 0} where
  unfoldable pub find_setting : String → List (Setting A) → Option A
  find_setting k [] = none
  find_setting k (x ∷ xs) = if str_eq x.key k then some x.value else find_setting k xs

  unfoldable pub upsert : String → A → List (Setting A) → List (Setting A)
  upsert k v [] = record { key = k; value = v } ∷ []
  upsert k v (x ∷ xs) =
      let rest = upsert k v xs in
      if str_eq x.key k then record { key = x.key; value = v } ∷ xs else x ∷ rest

  pub find_setting-upsert :
      (k : String) (v : A) (xs : List (Setting A)) → find_setting k (upsert k v xs) ≡ some v
  unfolding find_setting upsert
  find_setting-upsert k v [] = rw (eq_refl k) refl
  find_setting-upsert k v (x ∷ xs) = elim (Bool-cases (str_eq x.key k)) [
    | inl here ↦ rw (here, here) refl
    | inr there ↦ rw (there, there) (find_setting-upsert k v xs)
  ]

  pub find_setting-upsert_other :
      (k l : String) (v : A) (xs : List (Setting A))
      → str_eq k l ≡ false
      → find_setting l (upsert k v xs) ≡ find_setting l xs
  unfolding find_setting upsert
  find_setting-upsert_other k l v [] other = rw other refl
  find_setting-upsert_other k l v (x ∷ xs) other = elim (Bool-cases (str_eq x.key k)) [
    | inl here ↦
        let no : str_eq x.key l ≡ false = rw ((eq_iff x.key k).0 here) other in rw (here, no) refl
    | inr there ↦ elim (Bool-cases (str_eq x.key l)) [
      | inl mine ↦ rw (there, mine) refl
      | inr others ↦ rw (there, others) (find_setting-upsert_other k l v xs other)
    ]
  ]
