-- ===== src/Common/First.antt =====
-- A list that keeps the first of the items that count as the same, in the order in which they came.
use mathlib.Core.Path.{◌≡◌, refl}
use mathlib.Core.Bool.{Bool, true, false}
use mathlib.Core.Logic.{inl, inr}
use mathlib.Core.List.{List, [], ◌∷◌, ◌++◌}
use native.Mathlib.Omega.{arith}
use kis_trader_back.Common.Tests.{if◌then◌else◌, Bool-cases}
use kis_trader_back.Common.Lists.{any, All}

module _ {ℓ} {A : Type ℓ} (same : A → A → Bool) where
  abbrev pub add_first : List A → A → List A
  add_first kept x = if any (λ k. same k x) kept then kept else kept ++ (x ∷ [])

  -- No item counts as the same as a later one.
  abbrev pub IsUnique : List A → Type 0
  IsUnique [] = Unit
  IsUnique (x ∷ xs) = (any (same x) xs ≡ false) × IsUnique xs

  any_append :
      (p : A → Bool) (xs : List A) (x : A)
      → any p xs ≡ false
      → p x ≡ false
      → any p (xs ++ (x ∷ [])) ≡ false
  any_append p [] x h e = ground arith
  any_append p (y ∷ ys) x h e = ground (arith, any_append p ys x)

  append-IsUnique :
      (xs : List A) (x : A)
      → IsUnique xs
      → any (λ k. same k x) xs ≡ false
      → IsUnique (xs ++ (x ∷ []))
  append-IsUnique [] x u h = (refl, tt)
  append-IsUnique (y ∷ ys) x (a, u) h =
      (any_append (same y) ys x a (ground arith), append-IsUnique ys x u (ground arith))

  pub add_first-IsUnique : (kept : List A) (x : A) → IsUnique kept → IsUnique (add_first kept x)
  add_first-IsUnique kept x u = elim (Bool-cases (any (λ k. same k x) kept)) [
    | inl old ↦ rw old u
    | inr new ↦ rw new (append-IsUnique kept x u new)
  ]

  append-All {κ} : (P : A → Type κ) (xs : List A) (x : A) → All P xs → P x → All P (xs ++ (x ∷ []))
  append-All P [] x h e = (e, tt)
  append-All P (y ∷ ys) x (h, hs) e = (h, append-All P ys x hs e)

  pub All-add_first {κ} :
      (P : A → Type κ) (kept : List A) (x : A) → All P kept → P x → All P (add_first kept x)
  All-add_first P kept x h e = elim (Bool-cases (any (λ k. same k x) kept)) [
    | inl old ↦ rw old h
    | inr new ↦ rw new (append-All P kept x h e)
  ]

  any_grows : (p : A → Bool) (xs : List A) (x : A) → any p xs ≡ true → any p (xs ++ (x ∷ [])) ≡ true
  any_grows p [] x h = ground arith
  any_grows p (y ∷ ys) x h = ground (arith, any_grows p ys x)

  any_last : (p : A → Bool) (xs : List A) (x : A) → p x ≡ true → any p (xs ++ (x ∷ [])) ≡ true
  any_last p [] x h = ground arith
  any_last p (y ∷ ys) x h = ground (arith, any_last p ys x)

  -- What was found is still found, and the new item, or one that counts as the same, is found too.
  pub any-add_first :
      (p : A → Bool) (kept : List A) (x : A) → any p kept ≡ true → any p (add_first kept x) ≡ true
  any-add_first p kept x h = elim (Bool-cases (any (λ k. same k x) kept)) [
    | inl old ↦ rw old h
    | inr new ↦ rw new (any_grows p kept x h)
  ]

  pub any-add_first_self :
      (kept : List A) (x : A) → same x x ≡ true → any (λ k. same k x) (add_first kept x) ≡ true
  any-add_first_self kept x e = elim (Bool-cases (any (λ k. same k x) kept)) [
    | inl old ↦ rw old old
    | inr new ↦ rw new (any_last (λ k. same k x) kept x e)
  ]
