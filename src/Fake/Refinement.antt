-- ===== src/Fake/Refinement.antt =====
-- The fake client refines the real one: where ids are unique and no row is locked, both leave the
-- same tables and answer the same.
use mathlib.Core.Path.{ap₂}
use faststream_outbox.Base.{
  ℕ, zero, suc, ◌≡◌, ◌≢◌, refl, sym, ap, subst, ◌∙◌, Bool, true, false, List, [], ◌∷◌, map, nat_eq,
  string_eq, filter, take, contains, All, if◌then◌else◌, Bool-cases, inl, inr, arith,
}
use faststream_outbox.Table.{Row, claim, row_to_message}
use faststream_outbox.Table.Rows.{UniqueIds}
use faststream_outbox.Client.{Claim}
use faststream_outbox.Fake.{update_row, claim_each}

abbrev pub row_ids : List Row → List ℕ
row_ids = map (λ r. r.id)

not_contains :
    (n : ℕ) (rows : List Row) → All (λ r. n ≢ r.id) rows → contains n (row_ids rows) ≡ false
not_contains n [] h = refl
not_contains n (r ∷ rs) h = ground (arith, h.0, not_contains n rs h.1)

-- What is kept of a list by the ids of its first matches are those matches.
module _ (p : Row → Bool) where
  take-All :
      (P : Row → Type 0) (n : ℕ) (rows : List Row) → All P rows → All P (take n (filter p rows))
  take-All P zero rows h = tt
  take-All P (suc n) [] h = tt
  take-All P (suc n) (r ∷ rs) h = ground (arith, take-All P (suc n) rs h.1, take-All P n rs h.1)

  abbrev pub chosen : ℕ → List Row → List Row
  chosen n rows = take n (filter p rows)

  abbrev pub kept : List Row → List Row → List Row
  kept ts rows = filter (λ s. contains s.id (row_ids ts)) rows

  kept-cons_other :
      (r : Row) (ts rows : List Row)
      → All (λ s. r.id ≢ s.id) rows
      → kept (r ∷ ts) rows ≡ kept ts rows
  kept-cons_other r ts [] h = refl
  kept-cons_other r ts (s ∷ ss) h = ground (arith, h.0, kept-cons_other r ts ss h.1)

  contains_head : (r : Row) (ts : List Row) → contains r.id (row_ids (r ∷ ts)) ≡ true
  contains_head r ts = ground arith

  kept-nil : (rows : List Row) → kept [] rows ≡ []
  kept-nil [] = refl
  kept-nil (r ∷ rs) = kept-nil rs

  pub kept-chosen :
      (n : ℕ) (rows : List Row) → UniqueIds rows → kept (chosen n rows) rows ≡ chosen n rows
  kept-chosen zero rows u = kept-nil rows
  kept-chosen (suc n) [] u = refl
  kept-chosen (suc n) (r ∷ rs) u = elim (Bool-cases (p r)) [
    | inl e ↦
        subst (λ ts. kept ts (r ∷ rs) ≡ ts) (sym (taken e))
          (rw (contains_head r (chosen n rs))
            (ap (◌∷◌ r) (kept-cons_other r (chosen n rs) rs u.0 ∙ kept-chosen n rs u.1)))
    | inr e ↦
        subst (λ ts. kept ts (r ∷ rs) ≡ ts) (sym (passed e))
          (rw (not_contains r.id (chosen (suc n) rs) (take-All (λ s. r.id ≢ s.id) (suc n) rs u.0))
            (kept-chosen (suc n) rs u.1))
  ]
    where
      taken : p r ≡ true → chosen (suc n) (r ∷ rs) ≡ r ∷ chosen n rs
      taken e = rw e

      passed : p r ≡ false → chosen (suc n) (r ∷ rs) ≡ chosen (suc n) rs
      passed e = rw e

  pub chosen-UniqueIds : (n : ℕ) (rows : List Row) → UniqueIds rows → UniqueIds (chosen n rows)
  chosen-UniqueIds zero rows u = tt
  chosen-UniqueIds (suc n) [] u = tt
  chosen-UniqueIds (suc n) (r ∷ rs) u = ground (
    arith,
    take-All (λ s. r.id ≢ s.id) n rs u.0,
    chosen-UniqueIds (suc n) rs u.1,
    chosen-UniqueIds n rs u.1,
  )

-- Claiming the rows one by one is claiming them at once.
abbrev pub claim_if : Claim → List ℕ → Row → Row
claim_if c xs r = if contains r.id xs then claim c.now c.token r else r

claim_step :
    (c : Claim) (t : Row) (ts rows : List Row)
    → All (λ s. t.id ≢ s.id) ts
    → map (claim_if c (row_ids ts)) (update_row t.id (claim c.now c.token) rows)
      ≡ map (claim_if c (row_ids (t ∷ ts))) rows
unfolding update_row claim
claim_step c t ts [] h = refl
claim_step c t ts (r ∷ rs) h =
    ap₂ ◌∷◌ (ground (arith, not_contains t.id ts h)) (claim_step c t ts rs h)

module _ (monotonic : ℕ) (c : Claim) where
  claim_if_none : (rows : List Row) → map (claim_if c []) rows ≡ rows
  claim_if_none [] = refl
  claim_if_none (r ∷ rs) = ap (◌∷◌ r) (claim_if_none rs)

  pub claim_each_rows :
      (ts rows : List Row)
      → UniqueIds ts
      → (claim_each monotonic c ts rows).0 ≡ map (claim_if c (row_ids ts)) rows
  unfolding claim_each
  claim_each_rows [] rows u = sym (claim_if_none rows)
  claim_each_rows (t ∷ ts) rows u =
      claim_each_rows ts (update_row t.id (claim c.now c.token) rows) u.1
      ∙ claim_step c t ts rows u.0

  pub claim_each_messages :
      (ts rows : List Row)
      → (claim_each monotonic c ts rows).1
        ≡ map (row_to_message monotonic) (map (claim c.now c.token) ts)
  unfolding claim_each
  claim_each_messages [] rows = refl
  claim_each_messages (t ∷ ts) rows =
      ap (◌∷◌ (row_to_message monotonic (claim c.now c.token t)))
        (claim_each_messages ts (update_row t.id (claim c.now c.token) rows))
