-- ===== src/Base/Sort.antt =====
-- `ORDER BY a, b LIMIT n` and Python's `sorted(xs, key=...)[:n]` over keys in ℕ × ℕ: a stable
-- insertion sort, and what the first `n` entries of a sorted list depend on.
pub mod Commute
pub mod Members
use Prim.Native.Nat.{ℕ, zero, suc, ◌≤◌}
use mathlib.Core.Path.{◌≡◌, refl, sym, ap, ◌∙◌}
use mathlib.Core.Bool.{Bool, true, false, ◌&&◌, ◌||◌}
use mathlib.Core.Logic.{◌⊎◌, inl, inr}
use mathlib.Core.List.{List, [], ◌∷◌, ◌++◌, map, append-nil}
use native.Mathlib.Omega.{arith}
use faststream_outbox.Base.Tests.{ltb, nat_eqb, leb, if◌then◌else◌, Bool-cases}
use faststream_outbox.Base.Lists.{take, filter, All}

-- The lexicographic order.
abbrev pub key_le : ℕ × ℕ → ℕ × ℕ → Bool
key_le a b = ltb a.0 b.0 || (nat_eqb a.0 b.0 && leb a.1 b.1)

key_le_antisymm : (a b : ℕ × ℕ) → key_le a b ≡ true → key_le b a ≡ true → a ≡ b
key_le_antisymm (a, b) (c, d) h k = ground arith

pub key_le_trans : (a b c : ℕ × ℕ) → key_le a b ≡ true → key_le b c ≡ true → key_le a c ≡ true
key_le_trans (a, b) (c, d) (e, f) h k = ground arith

pub key_le-flip : (a b : ℕ × ℕ) → key_le a b ≡ false → key_le b a ≡ true
key_le-flip (a, b) (c, d) h = ground arith

take-take_le {ℓ} : {A : Type ℓ} (m n : ℕ) (xs : List A) → m ≤ n → take m (take n xs) ≡ take m xs
take-take_le zero n xs h = refl
take-take_le (suc m) zero xs h = absurd (omega arith)
take-take_le (suc m) (suc n) [] h = refl
take-take_le (suc m) (suc n) (x ∷ xs) h = ap (◌∷◌ x) (take-take_le m n xs (omega arith))

take-cons_take {ℓ} :
    {A : Type ℓ} (n : ℕ) (x : A) (xs : List A) → take n (x ∷ take n xs) ≡ take n (x ∷ xs)
take-cons_take zero x xs = refl
take-cons_take (suc n) x xs = ap (◌∷◌ x) (take-take_le n (suc n) xs (omega arith))

module _ {ℓ} {A : Type ℓ} (key : A → ℕ × ℕ) where
  unfoldable pub insert : A → List A → List A
  insert x [] = x ∷ []
  insert x (y ∷ ys) = if key_le (key x) (key y) then x ∷ y ∷ ys else y ∷ insert x ys

  unfoldable pub sort : List A → List A
  unfolding insert
  sort [] = []
  sort (x ∷ xs) = insert x (sort xs)

  -- Inserting into a list looks at no more of it than the result shows.
  take-insert_take :
      (n : ℕ) (x : A) (xs : List A) → take n (insert x (take n xs)) ≡ take n (insert x xs)
  unfolding insert
  take-insert_take zero x xs = refl
  take-insert_take (suc n) x [] = refl
  take-insert_take (suc n) x (y ∷ ys) = elim (Bool-cases (key_le (key x) (key y))) [
    | inl e ↦ rw e (ap (◌∷◌ x) (take-cons_take n y ys))
    | inr e ↦ rw e (ap (◌∷◌ y) (take-insert_take n x ys))
  ]

  -- `x` may stand in front of the list.
  abbrev pub Before : A → List A → Type 0
  Before x [] = Unit
  Before x (y ∷ ys) = key_le (key x) (key y) ≡ true

  abbrev pub Sorted : List A → Type 0
  Sorted [] = Unit
  Sorted (x ∷ xs) = Before x xs × Sorted xs

  insert-Before :
      (x y : A) (xs : List A) → key_le (key y) (key x) ≡ true → Before y xs → Before y (insert x xs)
  unfolding insert
  insert-Before x y [] h b = h
  insert-Before x y (z ∷ zs) h b = ground arith

  insert-Sorted : (x : A) (xs : List A) → Sorted xs → Sorted (insert x xs)
  unfolding insert
  insert-Sorted x [] s = (tt, tt)
  insert-Sorted x (y ∷ ys) s = elim (Bool-cases (key_le (key x) (key y))) [
    | inl e ↦ rw e (e, s)
    | inr e ↦
        rw e (insert-Before x y ys (key_le-flip (key x) (key y) e) s.0, insert-Sorted x ys s.1)
  ]

  pub sort-Sorted : (xs : List A) → Sorted (sort xs)
  unfolding sort
  sort-Sorted [] = tt
  sort-Sorted (x ∷ xs) = insert-Sorted x (sort xs) (sort-Sorted xs)

  take-Sorted : (n : ℕ) (xs : List A) → Sorted xs → Sorted (take n xs)
  take-Sorted zero xs s = tt
  take-Sorted (suc n) [] s = tt
  take-Sorted (suc zero) (x ∷ xs) s = (tt, tt)
  take-Sorted (suc (suc n)) (x ∷ []) s = s
  take-Sorted (suc (suc n)) (x ∷ y ∷ ys) s = (s.0, take-Sorted (suc n) (y ∷ ys) s.1)

  pub insert_first : (x : A) (xs : List A) → Before x xs → insert x xs ≡ x ∷ xs
  unfolding insert
  insert_first x [] b = refl
  insert_first x (y ∷ ys) b = rw b

  pub sort_of_Sorted : (xs : List A) → Sorted xs → sort xs ≡ xs
  unfolding sort
  sort_of_Sorted [] s = refl
  sort_of_Sorted (x ∷ xs) s = rw (sort_of_Sorted xs s.1) (insert_first x xs s.0)

  pub take-sort_idem : (n : ℕ) (xs : List A) → take n (sort (take n (sort xs))) ≡ take n (sort xs)
  take-sort_idem n xs =
      rw (sort_of_Sorted (take n (sort xs)) (take-Sorted n (sort xs) (sort-Sorted xs)))
        (take-take_le n n (sort xs) (omega arith))

  -- The keys determine the entries.
  module _ (injective : (x y : A) → key x ≡ key y → x ≡ y) where
    insert_comm : (x y : A) (xs : List A) → insert x (insert y xs) ≡ insert y (insert x xs)
    unfolding insert
    insert_comm x y [] =
        ground (arith, injective x y, key_le_antisymm (key x) (key y), key_le-flip (key x) (key y))
    insert_comm x y (z ∷ zs) = ground (
      arith,
      insert_comm x y zs,
      injective x y,
      key_le_antisymm (key x) (key y),
      key_le-flip (key x) (key y),
      key_le_trans (key x) (key y) (key z),
      key_le_trans (key y) (key x) (key z),
    )

    sort-middle :
        (xs : List A) (y : A) (ys : List A) → sort (xs ++ y ∷ ys) ≡ insert y (sort (xs ++ ys))
    unfolding sort
    sort-middle [] y ys = refl
    sort-middle (x ∷ xs) y ys = rw (sort-middle xs y ys) (insert_comm x y (sort (xs ++ ys)))

    -- Sorting forgets the order of two lists that are joined.
    pub sort-append_comm : (xs ys : List A) → sort (xs ++ ys) ≡ sort (ys ++ xs)
    unfolding sort
    sort-append_comm [] ys = rw append-nil
    sort-append_comm (x ∷ xs) ys =
        ap (insert x) (sort-append_comm xs ys) ∙ sym (sort-middle ys x xs)

    -- Two disjoint filters, sorted together, are one filter.
    pub sort-filter-append {κ} :
        {B : Type κ} (f : B → A) (p q : B → Bool)
        → ((x : B) → p x ≡ true → q x ≡ false)
        → (xs : List B)
        → sort (map f (filter p xs) ++ map f (filter q xs))
          ≡ sort (map f (filter (λ x. p x || q x) xs))
    unfolding sort
    sort-filter-append f p q apart [] = refl
    sort-filter-append f p q apart (x ∷ xs) = ground (
      arith,
      apart x,
      sort-filter-append f p q apart xs,
      sort-middle (map f (filter p xs)) (f x) (map f (filter q xs)),
    )

    -- A prefix of the sorted join needs no more than that prefix of one part.
    take-sort-append :
        (n : ℕ) (xs ys zs : List A)
        → take n (sort ys) ≡ take n (sort zs)
        → take n (sort (xs ++ ys)) ≡ take n (sort (xs ++ zs))
    unfolding sort
    take-sort-append n [] ys zs h = h
    take-sort-append n (x ∷ xs) ys zs h =
        sym (take-insert_take n x (sort (xs ++ ys)))
        ∙ (ap (λ l. take n (insert x l)) (take-sort-append n xs ys zs h)
            ∙ take-insert_take n x (sort (xs ++ zs)))

    -- The first `n` entries of a sorted join depend on those of the sorted parts.
    pub take-sort-append_cong :
        (n : ℕ) (xs xs' ys ys' : List A)
        → take n (sort xs) ≡ take n (sort xs')
        → take n (sort ys) ≡ take n (sort ys')
        → take n (sort (xs ++ ys)) ≡ take n (sort (xs' ++ ys'))
    take-sort-append_cong n xs xs' ys ys' h k =
        take-sort-append n xs ys ys' k
        ∙ (ap (take n) (sort-append_comm xs ys')
            ∙ (take-sort-append n ys' xs xs' h ∙ ap (take n) (sort-append_comm ys' xs')))
