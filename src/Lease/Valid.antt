-- ===== src/Lease/Valid.antt =====
-- The schema's demands on the rows, through every sequence of statements.
use faststream_outbox.Base.{
  true, false, not, none, some, List, [], ◌∷◌, nat_eq, ◌≡◌, ◌<◌, refl, subst, filter, All,
}
use faststream_outbox.Table.{Database}
use faststream_outbox.Table.Rows.{IsValid, UniqueIds, UniqueTimers, LeaseCheck}
use faststream_outbox.Client
use faststream_outbox.Client.{
  Claim, Reschedule, reschedule, guarded, wanted, cancelable, ids, ready, claim_rows,
}
use faststream_outbox.Client.Valid.{
  filter-IsValid, map-IsValid, claim-Keeps, reschedule-Keeps, run_insert-IsValid,
}
use faststream_outbox.Lease.{Call, step, run}

-- An audit copy is no row.
archived-IsValid :
    (a b : Database) → a.rows ≡ b.rows → a.next_id ≡ b.next_id → IsValid a → IsValid b
archived-IsValid a b e f v = record {
  unique = subst UniqueIds e v.unique;
  below = subst (λ n. All (λ r. r.id < n) b.rows) f (subst (All (λ r. r.id < a.next_id)) e v.below);
  timers = subst UniqueTimers e v.timers;
  leases = subst (All LeaseCheck) e v.leases;
}

step-IsValid : (c : Call) (db : Database) → IsValid db → IsValid (step c db)
unfolding step Client.fetch Client.delete_with_lease Client.delete_guarded Client.delete_archived
    Client.delete_batch_with_lease Client.mark_pending_with_lease Client.cancel_timer
step-IsValid (Call.fetches c []) db v = v
step-IsValid (Call.fetches c (q ∷ qs)) db v =
    unfold claim_rows in map-IsValid _ db (claim-Keeps c (ids (ready c db.rows (q ∷ qs)))) v
step-IsValid (Call.deletes d now m t none) db v = filter-IsValid (λ r. not (guarded m t r)) db v
step-IsValid (Call.deletes true now m t (some p)) db v =
    archived-IsValid (record db { rows = filter (λ r. not (guarded m t r)) db.rows }) _ refl refl
      (filter-IsValid (λ r. not (guarded m t r)) db v)
step-IsValid (Call.deletes false now m t (some p)) db v = v
step-IsValid (Call.deletes_batch []) db v = v
step-IsValid (Call.deletes_batch (p ∷ ps)) db v = filter-IsValid (λ r. not (wanted (p ∷ ps) r)) db v
step-IsValid (Call.reschedules now m t s) db v = map-IsValid _ db (reschedule-Keeps now m t s) v
step-IsValid (Call.cancels q t) db v = filter-IsValid (λ r. not (cancelable q t r)) db v
step-IsValid (Call.publishes k now next n) db v = run_insert-IsValid k now next n db v

-- Whatever statements workers, timers and publishers run, in any order, ids stay unique and below
-- the next one, a queue keeps at most one row for each timer, and every lease is set whole or not
-- at all.
pub run-IsValid : (cs : List Call) (db : Database) → IsValid db → IsValid (run cs db)
unfolding run
run-IsValid [] db v = v
run-IsValid (c ∷ cs) db v = run-IsValid cs (step c db) (step-IsValid c db v)
