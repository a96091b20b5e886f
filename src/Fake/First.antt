-- ===== src/Fake/First.antt =====
-- Loops that stop at the first row that passes a test, where at most one row passes it: they do
-- what a statement with that test in its WHERE clause does.
use faststream_outbox.Base.{
  ◌≡◌, refl, sym, ap, is_some, Bool, true, false, not, ◌&&◌, Option, none, some, List, [], ◌∷◌, map,
  filter, find, any, All, Pairwise, if◌then◌else◌, Bool-cases, inl, inr, arith,
}
use faststream_outbox.Table.{Row}
use faststream_outbox.Fake.{delete_first, update_first}

-- No two rows pass the test.
abbrev pub AtMostOne : (Row → Bool) → List Row → Type 0
AtMostOne p = Pairwise (λ r s. (p r && p s) ≡ false)

module _ (p : Row → Bool) where
  none_after :
      (r : Row) (rs : List Row)
      → p r ≡ true
      → All (λ s. (p r && p s) ≡ false) rs
      → All (λ s. p s ≡ false) rs
  none_after r [] h a = tt
  none_after r (s ∷ ss) h a = (ground arith, none_after r ss h a.1)

  filter_none : (rs : List Row) → All (λ s. p s ≡ false) rs → filter (λ r. not (p r)) rs ≡ rs
  filter_none [] a = refl
  filter_none (r ∷ rs) a = rw (a.0) (ap (◌∷◌ r) (filter_none rs a.1))

  map_none :
      (f : Row → Row) (rs : List Row)
      → All (λ s. p s ≡ false) rs
      → map (λ r. if p r then f r else r) rs ≡ rs
  map_none f [] a = refl
  map_none f (r ∷ rs) a = rw (a.0) (ap (◌∷◌ r) (map_none f rs a.1))

  filter_only : (rs : List Row) → All (λ s. p s ≡ false) rs → filter p rs ≡ []
  filter_only [] a = refl
  filter_only (r ∷ rs) a = rw (a.0) (filter_only rs a.1)

  pub delete_first_lem :
      (rs : List Row) → AtMostOne p rs → delete_first p rs ≡ filter (λ r. not (p r)) rs
  unfolding delete_first
  delete_first_lem [] a = refl
  delete_first_lem (r ∷ rs) a = elim (Bool-cases (p r)) [
    | inl e ↦ rw e (sym (filter_none rs (none_after r rs e a.0)))
    | inr e ↦ rw e (ap (◌∷◌ r) (delete_first_lem rs a.1))
  ]

  pub update_first_lem :
      (f : Row → Row) (rs : List Row)
      → AtMostOne p rs
      → update_first p f rs ≡ map (λ r. if p r then f r else r) rs
  unfolding update_first
  update_first_lem f [] a = refl
  update_first_lem f (r ∷ rs) a = elim (Bool-cases (p r)) [
    | inl e ↦ rw e (ap (◌∷◌ (f r)) (sym (map_none f rs (none_after r rs e a.0))))
    | inr e ↦ rw e (ap (◌∷◌ r) (update_first_lem f rs a.1))
  ]

  abbrev pub matched : Option Row → List Row
  matched none = []
  matched (some r) = r ∷ []

  pub find-filter : (rs : List Row) → AtMostOne p rs → filter p rs ≡ matched (find p rs)
  find-filter [] a = refl
  find-filter (r ∷ rs) a = elim (Bool-cases (p r)) [
    | inl e ↦ rw e (ap (◌∷◌ r) (filter_only rs (none_after r rs e a.0)))
    | inr e ↦ rw e (find-filter rs a.1)
  ]

  pub find-any : (rs : List Row) → any p rs ≡ is_some (find p rs)
  find-any [] = refl
  find-any (r ∷ rs) = ground (arith, find-any rs)

  pub delete_first_absent : (rs : List Row) → find p rs ≡ none → delete_first p rs ≡ rs
  unfolding delete_first
  delete_first_absent [] h = refl
  delete_first_absent (r ∷ rs) h = ground (arith, delete_first_absent rs)
