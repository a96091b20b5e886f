-- ===== src/Base/Sort/Members.antt =====
-- Sorting keeps the members of a list, and their number.
use mathlib.Core.Path.{◌≡◌, refl, ◌∙◌}
use mathlib.Core.Bool.{Bool, ◌||◌}
use mathlib.Core.Logic.{inl, inr}
use mathlib.Core.List.{List, [], ◌∷◌}
use native.Mathlib.Omega.{arith}
use Prim.Native.Nat.{ℕ, zero, suc, ◌≤◌}
use faststream_outbox.Base.Tests.{Bool-cases}
use faststream_outbox.Base.Lists.{take, any, length}
use faststream_outbox.Base.Sort.{key_le, insert, sort}

pub take_all {ℓ} : {A : Type ℓ} (n : ℕ) (xs : List A) → length xs ≤ n → take n xs ≡ xs
take_all zero [] h = refl
take_all zero (x ∷ xs) h = absurd (omega arith)
take_all (suc n) [] h = refl
take_all (suc n) (x ∷ xs) h = ground (arith, take_all n xs)

module _ {ℓ} {A : Type ℓ} (key : A → ℕ × ℕ) where
  any-insert : (p : A → Bool) (x : A) (xs : List A) → any p (insert key x xs) ≡ (p x || any p xs)
  unfolding insert
  any-insert p x [] = refl
  any-insert p x (y ∷ ys) = elim (Bool-cases (key_le (key x) (key y))) [
    | inl e ↦ rw e refl
    | inr e ↦ rw e (ground (arith, any-insert p x ys))
  ]

  pub any-sort : (p : A → Bool) (xs : List A) → any p (sort key xs) ≡ any p xs
  unfolding sort
  any-sort p [] = refl
  any-sort p (x ∷ xs) = any-insert p x (sort key xs) ∙ rw (any-sort p xs) refl

  length-insert : (x : A) (xs : List A) → length (insert key x xs) ≡ suc (length xs)
  unfolding insert
  length-insert x [] = refl
  length-insert x (y ∷ ys) = elim (Bool-cases (key_le (key x) (key y))) [
    | inl e ↦ rw e refl
    | inr e ↦ rw e (ground (arith, length-insert x ys))
  ]

  pub length-sort : (xs : List A) → length (sort key xs) ≡ length xs
  unfolding sort
  length-sort [] = refl
  length-sort (x ∷ xs) = length-insert x (sort key xs) ∙ rw (length-sort xs) refl
