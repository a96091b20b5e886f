-- ===== src/Fake/Insert/Refines.antt =====
-- The fake's insert against the statement of `_build_insert_stmts`.
use mathlib.Core.Path.{fun_ext}
use faststream_outbox.Base.{
  ℕ, ◌≡◌, refl, sym, ap, ◌∙◌, false, ◌&&◌, Option, List, [], ◌∷◌, map, String, ok, map_result,
  or_else, find, All-map_of, Option-cases, if◌then◌else◌, eq_iff, inl, inr, arith,
}
use faststream_outbox.Message.Scheduling.{resolve_next_attempt_client_side}
use faststream_outbox.Table.{Row, Database}
use faststream_outbox.Table.Rows.{UniqueTimers, same_timer}
use faststream_outbox.Client.Insert.{
  TimerConflict, NewRow, Schedule, conflicts, extend_row, fresh_row, append_row, extend_conflict,
  on_conflict, run_insert,
}
use faststream_outbox.Fake.{FakeOutboxClient, update_first}
use faststream_outbox.Fake.First.{AtMostOne, update_first_lem}
use faststream_outbox.Fake.Insert.{
  validate_like_postgres, new_object, append_object, extend_object, meet, store, insert,
}

-- What the two inserts have in common; a conflict draws an id from the sequence only in Postgres.
abbrev pub rows_and_answer : FakeOutboxClient × Option ℕ → List Row × Option ℕ
rows_and_answer (k, a) = (k.rows, a)

abbrev pub table_and_answer : Database × Option ℕ → List Row × Option ℕ
table_and_answer (db, a) = (db.rows, a)

conflicting_apart :
    (queue timer : String) (r s : Row)
    → same_timer r s ≡ false
    → (conflicts queue timer r && conflicts queue timer s) ≡ false
conflicting_apart queue timer r s h = elim (Option-cases r.timer_id) [
  | inl e ↦ ground arith
  | inr (t, e) ↦ elim (Option-cases s.timer_id) [
    | inl f ↦ ground arith
    | inr (u, f) ↦ ground (
      arith,
      eq_iff r.queue queue,
      eq_iff s.queue queue,
      eq_iff r.queue s.queue,
      eq_iff t timer,
      eq_iff u timer,
      eq_iff u t,
    )
  ]
]

one_conflicting :
    (queue timer : String) (rows : List Row)
    → UniqueTimers rows
    → AtMostOne (conflicts queue timer) rows
one_conflicting q t [] u = tt
one_conflicting q t (r ∷ rs) u = (
  All-map_of (λ s. same_timer r s ≡ false) (λ s. (conflicts q t r && conflicts q t s) ≡ false)
      (λ s. conflicting_apart q t r s) rs u.0,
  one_conflicting q t rs u.1,
)

extend_object-extend_row :
    (next : ℕ) (n : NewRow) (r : Row) → extend_object next n r ≡ extend_row next n r
unfolding extend_object extend_row
extend_object-extend_row next n r = ground arith

module _ (utc : ℕ) (next : Option ℕ) (n : NewRow) (k : FakeOutboxClient)
    (u : UniqueTimers k.rows) where
  append_refines :
      table_and_answer (append_row utc next n k.tables)
      ≡ rows_and_answer (append_object utc (or_else next utc) n k)
  unfolding append_row append_object fresh_row new_object
  append_refines = refl

  extended_rows :
      (timer : String)
      → update_first (conflicts n.queue timer) (extend_object (or_else next utc) n) k.rows
        ≡ map
            (λ r. if conflicts n.queue timer r then extend_row (or_else next utc) n r else r)
            k.rows
  extended_rows timer =
      update_first_lem (conflicts n.queue timer) (extend_object (or_else next utc) n) k.rows
        (one_conflicting n.queue timer k.rows u)
      ∙ ap (λ f. map (λ r. if conflicts n.queue timer r then f r else r) k.rows)
          (fun_ext (extend_object-extend_row (or_else next utc) n))

  meet_refines :
      (conflict : TimerConflict) (timer : String) (live : Row)
      → table_and_answer (on_conflict conflict utc next timer n live k.tables)
        ≡ rows_and_answer (meet conflict (or_else next utc) timer n live k)
  unfolding on_conflict extend_conflict meet
  meet_refines TimerConflict.ignore timer live = refl
  meet_refines TimerConflict.extend timer live = elim (Option-cases live.acquired_token) [
    | inl e ↦ rw e (rw (extended_rows timer) refl)
    | inr (t, e) ↦ rw e refl
  ]

  store_refines :
      (conflict : TimerConflict)
      → table_and_answer (run_insert conflict utc next n k.tables)
        ≡ rows_and_answer (store conflict utc (or_else next utc) n k)
  unfolding run_insert store
  store_refines conflict = elim (Option-cases n.timer_id) [
    | inl e ↦ rw (e, run_insert, store) append_refines
    | inr (timer, e) ↦ elim (Option-cases (find (conflicts n.queue timer) k.rows)) [
      | inl f ↦ rw (e, f, run_insert, store) append_refines
      | inr (live, f) ↦ rw (e, f, run_insert, store) (meet_refines conflict timer live)
    ]
  ]

-- On rows with at most one row for each timer, the fake's insert of a row within the column limits,
-- at an activation time that resolves, leaves the rows and gives the answer of the INSERT statement
-- of its timer policy, run at the same time.
pub insert_refines :
    (utc : ℕ) (s : Schedule) (n : NewRow) (k : FakeOutboxClient) {next : Option ℕ}
    → UniqueTimers k.rows
    → validate_like_postgres n ≡ ok tt
    → resolve_next_attempt_client_side s.activate_in s.activate_at utc ≡ ok next
    → map_result rows_and_answer (insert utc s n k)
      ≡ ok (table_and_answer (run_insert s.timer_conflict utc next n k.tables))
unfolding insert
insert_refines utc s n k {next} u v h =
    rw (v, h) (ap ok (sym (store_refines utc next n k u s.timer_conflict)))
