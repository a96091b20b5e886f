-- ===== src/Lease/Stale.antt =====
-- A worker whose lease is gone: its writes match no row, now and for ever after.
use mathlib.Core.List.{append-nil}
use faststream_outbox.Base.{
  ℕ, ◌≡◌, ◌≢◌, refl, sym, ap, ◌∙◌, Bool, true, false, not, Option, none, some, List, [], ◌∷◌, ◌++◌,
  map, String, ok, nat_eq, string_eq, or_else, any, filter, contains, All, if◌then◌else◌,
  Bool-cases, inl, inr, arith,
}
use faststream_outbox.Table.{Row, Database, DlqPayload, claim}
use faststream_outbox.Client
use faststream_outbox.Client.Timers.{run_insert_cases}
use faststream_outbox.Client.{
  reschedule, Claim, Reschedule, guarded, wanted, cancelable, ids, ready, claim_rows,
}
use faststream_outbox.Client.Insert.{
  NewRow, fresh_row, conflicts, extend_row, run_insert, append_row, TimerConflict,
}
use faststream_outbox.Lease.{Call, step, run}

-- No row of the table is held under this token by this id.
abbrev pub Stale : ℕ → ℕ → Database → Type 0
Stale message_id token db = any (guarded message_id token) db.rows ≡ false

-- The token that a statement puts on rows.
abbrev pub grants : Call → Option ℕ
grants (Call.fetches c queues) = some c.token
grants _ = none

module _ (message_id token : ℕ) where
  any-filter :
      (p : Row → Bool) (rows : List Row)
      → any (guarded message_id token) rows ≡ false
      → any (guarded message_id token) (filter p rows) ≡ false
  any-filter p [] h = refl
  any-filter p (r ∷ rs) h = ground (arith, any-filter p rs)

  any-map :
      (f : Row → Row)
      → ((r : Row) → guarded message_id token r ≡ false → guarded message_id token (f r) ≡ false)
      → (rows : List Row) → any (guarded message_id token) rows ≡ false
      → any (guarded message_id token) (map f rows) ≡ false
  any-map f k [] h = refl
  any-map f k (r ∷ rs) h = ground (arith, k r, any-map f k rs)

  any-append :
      (rows : List Row) (s : Row)
      → any (guarded message_id token) rows ≡ false
      → guarded message_id token s ≡ false
      → any (guarded message_id token) (rows ++ s ∷ []) ≡ false
  any-append [] s h k = ground arith
  any-append (r ∷ rs) s h k = ground (arith, any-append rs s)

  -- A filter on rows that are not held drops none.
  filter_stale :
      (rows : List Row)
      → any (guarded message_id token) rows ≡ false
      → filter (λ r. not (guarded message_id token r)) rows ≡ rows
  filter_stale [] h = refl
  filter_stale (r ∷ rs) h = ground (arith, filter_stale rs)

  filter_held :
      (rows : List Row)
      → any (guarded message_id token) rows ≡ false
      → filter (guarded message_id token) rows ≡ []
  filter_held [] h = refl
  filter_held (r ∷ rs) h = ground (arith, filter_held rs)

  map_stale :
      (f : Row → Row) (rows : List Row)
      → any (guarded message_id token) rows ≡ false
      → map (λ r. if guarded message_id token r then f r else r) rows ≡ rows
  map_stale f [] h = refl
  map_stale f (r ∷ rs) h = ground (arith, map_stale f rs)

  insert-Stale :
      (conflict : TimerConflict) (now : ℕ) (next : Option ℕ) (n : NewRow) (db : Database)
      → Stale message_id token db
      → Stale message_id token (run_insert conflict now next n db).0
  unfolding append_row fresh_row extend_row
  insert-Stale conflict now next n db h =
      run_insert_cases (λ a. Stale message_id token a.0) now next n db conflict
        (λ free. any-append db.rows (fresh_row now db.next_id next n) h (ground arith)) h
        (λ timer live f e.
          any-map (λ r. if conflicts n.queue timer r then extend_row (or_else next now) n r else r)
            (λ r k. ground arith) db.rows h)

  claim-Stale :
      (c : Claim) (xs : List ℕ) (rows : List Row)
      → c.token ≢ token
      → any (guarded message_id token) rows ≡ false
      → any (guarded message_id token) (claim_rows c xs rows) ≡ false
  unfolding claim_rows claim
  claim-Stale c xs rows g h =
      any-map (λ r. if contains r.id xs then claim c.now c.token r else r) (λ r k. ground arith)
        rows h

  step-Stale :
      (c : Call) (db : Database)
      → grants c ≢ some token
      → Stale message_id token db
      → Stale message_id token (step c db)
  unfolding step Client.fetch Client.delete_with_lease Client.delete_guarded Client.delete_archived
      Client.delete_batch_with_lease Client.mark_pending_with_lease Client.reschedule
      Client.cancel_timer
  step-Stale (Call.fetches c []) db g h = h
  step-Stale (Call.fetches c (q ∷ qs)) db g h =
      claim-Stale c (ids (ready c db.rows (q ∷ qs))) db.rows (λ e. g (ap some e)) h
  step-Stale (Call.deletes d now m t none) db g h = any-filter (λ r. not (guarded m t r)) db.rows h
  step-Stale (Call.deletes true now m t (some p)) db g h =
      any-filter (λ r. not (guarded m t r)) db.rows h
  step-Stale (Call.deletes false now m t (some p)) db g h = h
  step-Stale (Call.deletes_batch []) db g h = h
  step-Stale (Call.deletes_batch (p ∷ ps)) db g h =
      any-filter (λ r. not (wanted (p ∷ ps) r)) db.rows h
  step-Stale (Call.reschedules now m t s) db g h =
      any-map (λ r. if guarded m t r then reschedule now s r else r) (λ r k. ground arith) db.rows h
  step-Stale (Call.cancels q t) db g h = any-filter (λ r. not (cancelable q t r)) db.rows h
  step-Stale (Call.publishes k now next n) db g h = insert-Stale k now next n db h

  pub run-Stale :
      (cs : List Call) (db : Database)
      → All (λ c. grants c ≢ some token) cs
      → Stale message_id token db
      → Stale message_id token (run cs db)
  unfolding run
  run-Stale [] db g h = h
  run-Stale (c ∷ cs) db g h = run-Stale cs (step c db) g.1 (step-Stale c db g.0 h)

  -- A claim of the row under another token ends every earlier lease on it.
  reclaim-Stale :
      (c : Claim) (xs : List ℕ) (rows : List Row)
      → c.token ≢ token
      → contains message_id xs ≡ true
      → any (guarded message_id token) (claim_rows c xs rows) ≡ false
  unfolding claim_rows claim
  reclaim-Stale c xs [] g h = refl
  reclaim-Stale c xs (r ∷ rs) g h = elim (Bool-cases (contains r.id xs)) [
    | inl e ↦ rw e (ground (arith, reclaim-Stale c xs rs g h))
    | inr e ↦ rw e (ground (arith, other r xs h e, reclaim-Stale c xs rs g h))
  ]
    where
      other :
          (r : Row) (xs : List ℕ)
          → contains message_id xs ≡ true
          → contains r.id xs ≡ false
          → r.id ≢ message_id
      other r xs h e same = cc (sym e ∙ (ap (λ n. contains n xs) same ∙ h))

  -- What a write under the token does to tables where it holds nothing.
  Stale-writes :
      (now : ℕ) (payload : Option DlqPayload) (s : Reschedule) (db : Database)
      → Stale message_id token db
      → (Client.delete_with_lease true true now message_id token payload db ≡ ok (db, false))
        × (Client.mark_pending_with_lease true now message_id token s db ≡ ok (db, false))
  unfolding Client.delete_with_lease Client.delete_guarded Client.delete_archived
      Client.mark_pending_with_lease
  Stale-writes now none s db h =
      (rw (filter_stale db.rows h, h), rw (map_stale (reschedule now s) db.rows h, h))
  Stale-writes now (some p) s db h = (
    rw (filter_stale db.rows h, h, filter_held db.rows h, append-nil),
    rw (map_stale (reschedule now s) db.rows h, h),
  )

-- A worker that holds row `message_id` under `token`, and whose row another fetch claims under
-- another token, can never write to the tables again: whatever statements follow, as long as none
-- grants `token` anew, its delete (with or without an audit copy) and its reschedule match nothing,
-- answer false and leave both tables as they are.
pub reclaimed_forever :
    (message_id token now : ℕ) (c : Claim) (q : String) (qs : List String) (cs : List Call)
    (payload : Option DlqPayload) (s : Reschedule) (db : Database)
    → contains message_id (ids (ready c db.rows (q ∷ qs))) ≡ true
    → c.token ≢ token
    → All (λ d. grants d ≢ some token) cs
    → let later = run cs (step (Call.fetches c (q ∷ qs)) db) in
      (Client.delete_with_lease true true now message_id token payload later ≡ ok (later, false))
      × (Client.mark_pending_with_lease true now message_id token s later ≡ ok (later, false))
unfolding step Client.fetch
reclaimed_forever message_id token now c q qs cs payload s db h g fresh =
    Stale-writes message_id token now payload s
      (run cs (record db { rows = claim_rows c (ids (ready c db.rows (q ∷ qs))) db.rows }))
      (run-Stale message_id token cs
        (record db { rows = claim_rows c (ids (ready c db.rows (q ∷ qs))) db.rows }) fresh
        (reclaim-Stale message_id token c (ids (ready c db.rows (q ∷ qs))) db.rows g h))
