-- ===== src/Base/Sort/Commute.antt =====
-- Sorting commutes with filters, and with maps that keep the key.
use mathlib.Core.Path.{◌≡◌, refl, ap}
use mathlib.Core.Bool.{Bool}
use mathlib.Core.Logic.{inl, inr}
use mathlib.Core.List.{List, [], ◌∷◌, map}
use native.Mathlib.Omega.{arith}
use Prim.Native.Nat.{ℕ, zero, suc}
use faststream_outbox.Base.Tests.{if◌then◌else◌, Bool-cases}
use faststream_outbox.Base.Lists.{take, filter, All, Pairwise}
use faststream_outbox.Base.Sort.{
  key_le, key_le_trans, insert, sort, Before, Sorted, sort-Sorted, insert_first,
}

module _ {ℓ} {A : Type ℓ} (key : A → ℕ × ℕ) where
  -- What stands before a sorted list stands before what a filter leaves of it.
  filter-Before :
      (p : A → Bool) (x : A) (xs : List A)
      → Sorted key xs
      → Before key x xs
      → Before key x (filter p xs)
  filter-Before p x [] s b = tt
  filter-Before p x (y ∷ []) s b = ground arith
  filter-Before p x (y ∷ z ∷ zs) s b =
      ground (arith, filter-Before p x (z ∷ zs) s.1 (key_le_trans (key x) (key y) (key z) b s.0))

  filter-insert :
      (p : A → Bool) (x : A) (xs : List A)
      → Sorted key xs
      → filter p (insert key x xs) ≡ (if p x then insert key x (filter p xs) else filter p xs)
  unfolding insert
  filter-insert p x [] s = refl
  filter-insert p x (y ∷ ys) s = elim (Bool-cases (key_le (key x) (key y))) [
    | inl first ↦ rw first (
        ground (arith, insert_first key x (filter p (y ∷ ys)) (filter-Before p x (y ∷ ys) s first)))
    | inr later ↦ rw later (ground (arith, filter-insert p x ys s.1))
  ]

  -- A stable sort may be made before or after a filter.
  pub sort-filter : (p : A → Bool) (xs : List A) → sort key (filter p xs) ≡ filter p (sort key xs)
  unfolding sort
  sort-filter p [] = refl
  sort-filter p (x ∷ xs) =
      ground (arith, sort-filter p xs, filter-insert p x (sort key xs) (sort-Sorted key xs))

  insert-All {κ} : (P : A → Type κ) (x : A) (xs : List A) → P x → All P xs → All P (insert key x xs)
  unfolding insert
  insert-All P x [] h hs = (h, tt)
  insert-All P x (y ∷ ys) h hs = elim (Bool-cases (key_le (key x) (key y))) [
    | inl e ↦ rw e (h, hs)
    | inr e ↦ rw e (hs.0, insert-All P x ys h hs.1)
  ]

  pub sort-All {κ} : (P : A → Type κ) (xs : List A) → All P xs → All P (sort key xs)
  unfolding sort
  sort-All P [] h = tt
  sort-All P (x ∷ xs) h = insert-All P x (sort key xs) h.0 (sort-All P xs h.1)

  -- A symmetric relation between all entries survives the sort.
  module _ {κ} (R : A → A → Type κ) (symmetric : (x y : A) → R x y → R y x) where
    insert-Pairwise :
        (x : A) (xs : List A) → All (R x) xs → Pairwise R xs → Pairwise R (insert key x xs)
    unfolding insert
    insert-Pairwise x [] h hs = (h, hs)
    insert-Pairwise x (y ∷ ys) h hs = elim (Bool-cases (key_le (key x) (key y))) [
      | inl e ↦ rw e (h, hs)
      | inr e ↦ rw e (insert-All (R y) x ys (symmetric x y h.0) hs.0, insert-Pairwise x ys h.1 hs.1)
    ]

    pub sort-Pairwise : (xs : List A) → Pairwise R xs → Pairwise R (sort key xs)
    unfolding sort
    sort-Pairwise [] h = tt
    sort-Pairwise (x ∷ xs) h =
        insert-Pairwise x (sort key xs) (sort-All (R x) xs h.0) (sort-Pairwise xs h.1)

module _ {ℓ κ} {A : Type ℓ} {B : Type κ} (f : A → B) where
  pub take-map : (n : ℕ) (xs : List A) → take n (map f xs) ≡ map f (take n xs)
  take-map zero xs = refl
  take-map (suc n) [] = refl
  take-map (suc n) (x ∷ xs) = ap (◌∷◌ (f x)) (take-map n xs)

  module _ (key : A → ℕ × ℕ) (key' : B → ℕ × ℕ) (same : (x : A) → key' (f x) ≡ key x) where
    map-insert : (x : A) (xs : List A) → insert key' (f x) (map f xs) ≡ map f (insert key x xs)
    unfolding insert
    map-insert x [] = refl
    map-insert x (y ∷ ys) = rw (same x, same y) (ground (arith, map-insert x ys))

    pub sort-map : (xs : List A) → sort key' (map f xs) ≡ map f (sort key xs)
    unfolding sort
    sort-map [] = refl
    sort-map (x ∷ xs) = rw (sort-map xs) (map-insert x (sort key xs))
