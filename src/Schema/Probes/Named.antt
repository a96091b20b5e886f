-- ===== src/Schema/Probes/Named.antt =====
-- faststream_outbox/schema_validation.py: the indexes that the probe looks for, written out, with the
-- row of the catalog that counts for a name.
use Prim.Native.String.{◌++◌}
use faststream_outbox.Base.{
  ◌≡◌, ◌↔◌, refl, sym, ap, ◌∙◌, true, false, not, ◌&&◌, none, some, List, [], ◌∷◌, String, ◌==◌,
  string_eq, any, All, Option-cases, Bool-cases, inl, inr, arith, subst,
}
use faststream_outbox.Base.{◌++◌ as append}
use faststream_outbox.Schema.Text.{normalize_predicate}
use faststream_outbox.Schema.Probes.{IndexRow, Expected, expected_indexes, live, Serves}

-- The last row of that name.
abbrev pub LastNamed : String → List IndexRow → IndexRow → Type 0
LastNamed name rows r =
    (before : List IndexRow) × (after : List IndexRow) × ((rows ≡ append before (r ∷ after))
      × ((r.index_name == name) ≡ true)
      × (any (λ s. s.index_name == name) after ≡ false))

module _ (name : String) where
  live_absent :
      (rows : List IndexRow) → any (λ s. s.index_name == name) rows ≡ false → live name rows ≡ none
  unfolding live
  live_absent [] h = refl
  live_absent (r ∷ rs) h = ground (arith, live_absent rs)

  absent-live :
      (rows : List IndexRow) → live name rows ≡ none → any (λ s. s.index_name == name) rows ≡ false
  unfolding live
  absent-live [] h = refl
  absent-live (r ∷ rs) h = ground (arith, absent-live rs)

  live_last :
      (before after : List IndexRow) (r : IndexRow)
      → (r.index_name == name) ≡ true
      → any (λ s. s.index_name == name) after ≡ false
      → live name (append before (r ∷ after)) ≡ some r
  unfolding live
  live_last [] after r here gone = rw (live_absent after gone, here, live) refl
  live_last (b ∷ before) after r here gone = rw (live_last before after r here gone, live) refl

  last-live :
      (rows : List IndexRow) (r : IndexRow) → live name rows ≡ some r → LastNamed name rows r
  unfolding live
  last-live [] r h = absurd (ground arith)
  last-live (s ∷ rs) r h = elim (Option-cases (live name rs)) [
    | inr (l, e) ↦
        let (before, after, (split, here, gone)) = last-live rs l e in
        let same : l ≡ r = ground (arith, h, e) in
        subst (LastNamed name (s ∷ rs)) same (s ∷ before, after, (ap (◌∷◌ s) split, here, gone))
    | inl e ↦ elim (Bool-cases (s.index_name == name)) [
      | inl f ↦
          let same : s ≡ r = ground (arith, h, e, f) in
          subst (LastNamed name (s ∷ rs)) same ([], rs, (refl, f, absent-live rs e))
      | inr f ↦ absurd (ground (arith, h, e, f))
    ]
  ]

  live_iff :
      (rows : List IndexRow) (r : IndexRow) → (live name rows ≡ some r) ↔ LastNamed name rows r
  live_iff rows r = (
    last-live rows r,
    λ (before, after, (split, here, gone)).
        ap (live name) split ∙ live_last before after r here gone,
  )

-- The row is partial, by that predicate up to the normalization of its text.
abbrev pub IsPartial : String → IndexRow → Type 0
IsPartial want r = (p : String) × ((r.predicate ≡ some p) × (normalize_predicate p ≡ want))

-- What the row of that name has, if there is one.
abbrev pub Indexed : String → List IndexRow → (IndexRow → Type 0) → Type 0
Indexed name rows P = (r : IndexRow) → LastNamed name rows r → P r

Serves-Indexed :
    (e : Expected) (name : String) (rows : List IndexRow)
    → Serves e (live name rows)
      ↔ Indexed name rows (λ r. IsPartial e.want r × ((e.unique && not r.is_unique) ≡ false))
Serves-Indexed e name rows = (
  λ h r l. subst (Serves e) ((live_iff name rows r).1 l) h,
  λ h. elim (Option-cases (live name rows)) [
    | inl absent ↦ subst (Serves e) (sym absent) tt
    | inr (r, here) ↦ subst (Serves e) (sym here) (h r ((live_iff name rows r).0 here))
  ],
)

-- The three partial indexes of a table: an index that is there has its predicate, and the one of the
-- timers, which ON CONFLICT infers, is unique.
pub record HasIndexes (table : String) (rows : List IndexRow) : Type 0 where
  pub pending : Indexed (table ++ "_pending_idx") rows (IsPartial "acquired_token is null")
  pub timers :
      Indexed
        (table ++ "_timer_id_uq")
        rows
        (λ r. IsPartial "timer_id is not null" r × (r.is_unique ≡ true))
  pub leased : Indexed (table ++ "_leased_idx") rows (IsPartial "acquired_token is not null")

pub expected_indexes-HasIndexes :
    (table : String) (rows : List IndexRow)
    → All (λ e. Serves e (live (table ++ e.suffix) rows)) expected_indexes ↔ HasIndexes table rows
unfolding expected_indexes
expected_indexes-HasIndexes table rows =
    let pending =
      Serves-Indexed
        (record { suffix = "_pending_idx"; want = "acquired_token is null"; unique = false })
        (table ++ "_pending_idx") rows in
    let timers =
      Serves-Indexed
        (record { suffix = "_timer_id_uq"; want = "timer_id is not null"; unique = true })
        (table ++ "_timer_id_uq") rows in
    let leased =
      Serves-Indexed
        (record { suffix = "_leased_idx"; want = "acquired_token is not null"; unique = false })
        (table ++ "_leased_idx") rows in
    (
      λ h. record {
        pending = λ r l. (pending.0 h.0 r l).0;
        timers = λ r l. let t = timers.0 h.1.0 r l in (t.0, ground (arith, t.1));
        leased = λ r l. (leased.0 h.1.1.0 r l).0;
      },
      λ k. (
        pending.1 (λ r l. (k.pending r l, refl)),
        (
          timers.1 (λ r l. let t = k.timers r l in (t.0, ground (arith, t.1))),
          (leased.1 (λ r l. (k.leased r l, refl)), tt),
        ),
      ),
    )
