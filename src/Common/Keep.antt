-- ===== src/Common/Keep.antt =====
-- What `keep` does on lists.
use mathlib.Core.Path.{◌≡◌, refl}
use mathlib.Core.Logic.{inl, inr}
use mathlib.Core.Bool.{Bool, true, false}
use mathlib.Core.List.{List, [], ◌∷◌, ◌++◌}
use kis_trader_back.Common.Tests.{Bool-cases}
use kis_trader_back.Common.Lists.{keep, All}

module _ {ℓ} {A : Type ℓ} where
  pub keep-append : (p : A → Bool) (xs ys : List A) → keep p (xs ++ ys) ≡ keep p xs ++ keep p ys
  keep-append p [] ys = refl
  keep-append p (x ∷ xs) ys = elim (Bool-cases (p x)) [
    | inl hit ↦ rw (hit, keep-append p xs ys) refl
    | inr miss ↦ rw (miss, keep-append p xs ys) refl
  ]

  pub keep-All : (p : A → Bool) (xs : List A) → All (λ x. p x ≡ true) xs → keep p xs ≡ xs
  keep-All p [] h = refl
  keep-All p (x ∷ xs) (h, hs) = rw (h, keep-All p xs hs) refl

  pub keep_none : (p : A → Bool) (xs : List A) → All (λ x. p x ≡ false) xs → keep p xs ≡ []
  keep_none p [] h = refl
  keep_none p (x ∷ xs) (h, hs) = rw (h, keep_none p xs hs) refl

  -- One test after another that it follows from.
  pub keep-keep :
      (p q : A → Bool) (xs : List A)
      → ((x : A) → p x ≡ true → q x ≡ true)
      → keep p (keep q xs) ≡ keep p xs
  keep-keep p q [] narrower = refl
  keep-keep p q (x ∷ xs) narrower = elim (Bool-cases (p x)) [
    | inl hit ↦ rw (narrower x hit, hit, keep-keep p q xs narrower) refl
    | inr miss ↦ elim (Bool-cases (q x)) [
      | inl kept ↦ rw (kept, miss, keep-keep p q xs narrower) refl
      | inr dropped ↦ rw (dropped, miss, keep-keep p q xs narrower) refl
    ]
  ]

  pub append_nil : (xs : List A) → xs ++ [] ≡ xs
  append_nil [] = refl
  append_nil (x ∷ xs) = rw (append_nil xs) refl
