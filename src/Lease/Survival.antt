-- ===== src/Lease/Survival.antt =====
-- No row is lost: it stays until a statement acknowledges it, and while it is due it is fetched.
use faststream_outbox.Base.{
  ℕ, suc, ◌≤◌, ◌≡◌, refl, sym, ap, ◌∙◌, subst, Bool, true, false, not, ◌&&◌, Option, none, some,
  List, [], ◌∷◌, ◌++◌, map, String, ◌==◌, nat_eq, string_eq, or_else, any, filter, length, contains,
  if◌then◌else◌, arith,
}
use faststream_outbox.Base.Sort.{sort}
use faststream_outbox.Base.Sort.Members.{take_all, any-sort, length-sort}
use faststream_outbox.Table.{Row, Database, claim, key_of}
use faststream_outbox.Client
use faststream_outbox.Client.{
  Claim, Reschedule, reschedule, guarded, wanted, cancelable, ids, ready, claim_rows,
}
use faststream_outbox.Client.Fetch.{due, available, ready-available}
use faststream_outbox.Client.Timers.{run_insert_cases}
use faststream_outbox.Client.Insert.{
  TimerConflict, NewRow, fresh_row, conflicts, extend_row, run_insert, append_row,
}
use faststream_outbox.Lease.{Call, step, run}

-- The row that a statement takes out of the table: a settled delete, or the cancel of a timer.
unfoldable pub removes : Call → Row → Bool
removes (Call.deletes has_dlq now m t none) r = guarded m t r
removes (Call.deletes has_dlq now m t (some p)) r = has_dlq && guarded m t r
removes (Call.deletes_batch pairs) r = wanted pairs r
removes (Call.cancels q t) r = cancelable q t r
removes _ r = false

module _ (n : ℕ) where
  abbrev pub is_row : Row → Bool
  is_row r = n == r.id

  abbrev pub Present : Database → Type 0
  Present db = any is_row db.rows ≡ true

  -- No statement of the run takes the row out.
  abbrev pub Unacknowledged : List Call → Database → Type 0
  Unacknowledged [] db = Unit
  Unacknowledged (c ∷ cs) db =
      (any (λ r. is_row r && removes c r) db.rows ≡ false) × Unacknowledged cs (step c db)

  present-filter :
      (p : Row → Bool) (rows : List Row)
      → any (λ r. is_row r && p r) rows ≡ false
      → any is_row rows ≡ true
      → any is_row (filter (λ r. not (p r)) rows) ≡ true
  present-filter p [] h k = k
  present-filter p (r ∷ rs) h k = ground (arith, present-filter p rs)

  present-map :
      (f : Row → Row) (rows : List Row)
      → ((r : Row) → (f r).id ≡ r.id)
      → any is_row rows ≡ true
      → any is_row (map f rows) ≡ true
  present-map f [] s k = k
  present-map f (r ∷ rs) s k = ground (arith, s r, present-map f rs s)

  present-append :
      (rows : List Row) (s : Row) → any is_row rows ≡ true → any is_row (rows ++ s ∷ []) ≡ true
  present-append [] s k = absurd (ground arith)
  present-append (r ∷ rs) s k = ground (arith, present-append rs s)

  insert-Present :
      (conflict : TimerConflict) (now : ℕ) (next : Option ℕ) (m : NewRow) (db : Database)
      → Present db
      → Present (run_insert conflict now next m db).0
  unfolding append_row extend_row
  insert-Present conflict now next m db h =
      run_insert_cases (λ a. Present a.0) now next m db conflict
        (λ free. present-append db.rows (fresh_row now db.next_id next m) h) h
        (λ timer live f e.
          present-map
            (λ r. if conflicts m.queue timer r then extend_row (or_else next now) m r else r)
            db.rows (λ r. ground arith) h)

  step-Present :
      (c : Call) (db : Database)
      → any (λ r. is_row r && removes c r) db.rows ≡ false
      → Present db
      → Present (step c db)
  unfolding removes step Client.fetch Client.delete_with_lease Client.delete_guarded
      Client.delete_archived Client.delete_batch_with_lease Client.mark_pending_with_lease
      Client.cancel_timer claim_rows claim reschedule
  step-Present (Call.fetches c []) db u h = h
  step-Present (Call.fetches c (q ∷ qs)) db u h =
      present-map
        (λ r. if contains r.id (ids (ready c db.rows (q ∷ qs))) then claim c.now c.token r else r)
        db.rows (λ r. ground arith) h
  step-Present (Call.deletes d now m t none) db u h = present-filter (guarded m t) db.rows u h
  step-Present (Call.deletes true now m t (some p)) db u h =
      present-filter (guarded m t) db.rows u h
  step-Present (Call.deletes false now m t (some p)) db u h = h
  step-Present (Call.deletes_batch []) db u h = h
  step-Present (Call.deletes_batch (p ∷ ps)) db u h = present-filter (wanted (p ∷ ps)) db.rows u h
  step-Present (Call.reschedules now m t s) db u h =
      present-map (λ r. if guarded m t r then reschedule now s r else r) db.rows (λ r. ground arith)
        h
  step-Present (Call.cancels q t) db u h = present-filter (cancelable q t) db.rows u h
  step-Present (Call.publishes k now next m) db u h = insert-Present k now next m db h

  -- A row that is in the table stays there through every run of statements, unless one of them is
  -- the row's delete under its current token, alone or in a batch, or the cancel of its timer while
  -- no worker has leased it.
  pub run-Present :
      (cs : List Call) (db : Database) → Unacknowledged cs db → Present db → Present (run cs db)
  unfolding run
  run-Present [] db u h = h
  run-Present (c ∷ cs) db u h = run-Present cs (step c db) u.1 (step-Present c db u.0 h)

  contains-ids : (ks : List (ℕ × ℕ)) → contains n (ids ks) ≡ any (λ k. n == k.1) ks
  contains-ids [] = refl
  contains-ids (k ∷ ks) = ground (arith, contains-ids ks)

  due-keys :
      (p : Row → Bool) (rows : List Row)
      → any (λ r. is_row r && p r) rows ≡ true
      → any (λ k. n == k.1) (map key_of (filter p rows)) ≡ true
  due-keys p [] h = h
  due-keys p (r ∷ rs) h = ground (arith, due-keys p rs)

  length-keys : (rows : List Row) → length (map key_of rows) ≡ length rows
  length-keys [] = refl
  length-keys (r ∷ rs) = ap suc (length-keys rs)

  -- A row that is due, not locked, and unleased or with an expired lease is chosen by every fetch
  -- from its queue whose limit is not below the number of such rows.
  pub due_row_fetched :
      (c : Claim) (rows : List Row) (queues : List String)
      → length (filter (due c (available c) queues) rows) ≤ c.limit
      → any (λ r. is_row r && due c (available c) queues r) rows ≡ true
      → contains n (ids (ready c rows queues)) ≡ true
  due_row_fetched c rows queues fits h =
      contains-ids (ready c rows queues)
      ∙ (ap (any (λ k. n == k.1)) (
            ready-available c rows queues
            ∙ take_all c.limit (sort (λ k. k) keys)
                (subst (λ m. m ≤ c.limit) (sym (length-sort (λ k. k) keys ∙ length-keys _)) fits))
          ∙ (any-sort (λ k. k) (λ k. n == k.1) keys ∙ due-keys (due c (available c) queues) rows h))
    where
      keys : List (ℕ × ℕ)
      keys = map key_of (filter (due c (available c) queues) rows)
