-- ===== src/Client/Timers.antt =====
-- The outcomes of a single-row INSERT, as one rule, and what the timer policies promise.
use faststream_outbox.Base.{
  ℕ, ◌+◌, ◌≡◌, Option, none, some, map, String, or_else, find, if◌then◌else◌, Option-cases, inl,
  inr, arith,
}
use faststream_outbox.Table.{Row, Database}
use faststream_outbox.Client.Insert.{
  TimerConflict, NewRow, conflicts, extend_row, run_insert, append_row, on_conflict,
  extend_conflict,
}

-- The tables after a timer row was extended in place.
abbrev pub extended : ℕ → Option ℕ → String → NewRow → Database → Database
extended now next timer n db = record db {
  rows =
      map (λ r. if conflicts n.queue timer r then extend_row (or_else next now) n r else r) db.rows;
  next_id = db.next_id + 1;
}

module _ {ℓ} (P : Database × Option ℕ → Type ℓ) (now : ℕ) (next : Option ℕ) (n : NewRow)
    (db : Database) where
  -- An INSERT appends a row if no row carries its timer; else it is skipped, or it extends the
  -- row that carries the timer, if no worker has leased it.
  pub run_insert_cases :
      (conflict : TimerConflict)
      → (((timer : String)
            → n.timer_id ≡ some timer
            → find (conflicts n.queue timer) db.rows ≡ none)
          → P (append_row now next n db))
      → P (record db { next_id = db.next_id + 1 }, none)
      → ((timer : String) (live : Row)
          → find (conflicts n.queue timer) db.rows ≡ some live
          → live.acquired_token ≡ none
          → P (extended now next timer n db, some live.id))
      → P (run_insert conflict now next n db)
  unfolding run_insert
  run_insert_cases conflict appended skipped extends = elim (Option-cases n.timer_id) [
    | inl e ↦ rw (e, run_insert) (appended (λ timer f. absurd (ground arith)))
    | inr (timer, e) ↦ elim (Option-cases (find (conflicts n.queue timer) db.rows)) [
      | inl f ↦ rw (e, f, run_insert) (appended (λ t g. rw (same timer t e g) f))
      | inr (live, f) ↦ rw (e, f, run_insert) (met conflict timer live f)
    ]
  ]
    where
      same : (t u : String) → n.timer_id ≡ some t → n.timer_id ≡ some u → u ≡ t
      same t u e f = ground arith

      met :
          (k : TimerConflict) (timer : String) (live : Row)
          → find (conflicts n.queue timer) db.rows ≡ some live
          → P (on_conflict k now next timer n live db)
      met TimerConflict.ignore timer live f = skipped
      met TimerConflict.extend timer live f = elim (Option-cases live.acquired_token) [
        | inl h ↦ rw (h, extend_conflict) (extends timer live f h)
        | inr (t, h) ↦ rw (h, extend_conflict) skipped
      ]
