-- ===== src/Lease/Exclusion.antt =====
-- Mutual exclusion: while a lease runs, no fetch hands its row to another worker.
pub mod Claimed
use faststream_outbox.Base.{
  ℕ, zero, suc, ◌+◌, ◌≤◌, ◌<◌, ◌≡◌, ◌≢◌, refl, sym, ap, ◌∙◌, Bool, true, false, not, Option, none,
  some, List, [], ◌∷◌, map, String, nat_eq, string_eq, or_else, filter, take, contains, ◌⊎◌, All,
  All-append, All-filter, if◌then◌else◌, Bool-cases, inl, inr, arith,
}
use faststream_outbox.Base.Sort.{sort}
use faststream_outbox.Base.Sort.Commute.{sort-All}
use faststream_outbox.Table.{Row, Database, claim, key_of}
use faststream_outbox.Client
use faststream_outbox.Client.{
  Claim, Reschedule, reschedule, guarded, wanted, cancelable, ids, ready, claim_rows, unleased,
  lease_expired, before_cutoff,
}
use faststream_outbox.Client.Fetch.{due, available, ready-available}
use faststream_outbox.Client.Timers.{run_insert_cases}
use faststream_outbox.Client.Insert.{
  TimerConflict, NewRow, fresh_row, conflicts, extend_row, run_insert, append_row,
}
use faststream_outbox.Lease.{Call, step, run}

take-All {ℓ κ} : {A : Type ℓ} (P : A → Type κ) (n : ℕ) (xs : List A) → All P xs → All P (take n xs)
take-All P zero xs h = tt
take-All P (suc n) [] h = tt
take-All P (suc n) (x ∷ xs) h = (h.0, take-All P n xs h.1)

-- The row of this id is leased under `token` since `at`.
abbrev pub HeldRow : ℕ → ℕ → ℕ → Row → Type 0
HeldRow n token at r = r.id ≡ n → (r.acquired_token ≡ some token) × (r.acquired_at ≡ some at)

-- The row of this id, if it is still there, is leased under `token` since `at`.
pub record Held (n token at : ℕ) (db : Database) : Type 0 where
  pub leased : All (HeldRow n token at) db.rows
  pub issued : n < db.next_id

module _ (n token at : ℕ) where
  -- The calls that respect the lease: fetches before it ends, and no reschedule by its holder.
  abbrev pub Respects : Call → Type 0
  Respects (Call.fetches c queues) = c.now ≤ at + c.lease_ttl
  Respects (Call.reschedules now m t s) = (m ≢ n) ⊎ (t ≢ token)
  Respects _ = Unit

  held_not_due :
      (c : Claim) (queues : List String) (r : Row)
      → c.now ≤ at + c.lease_ttl
      → HeldRow n token at r
      → due c (available c) queues r ≡ true
      → r.id ≢ n
  held_not_due c queues r t h d e = absurd (ground (arith, (h e).0, (h e).1))

  due_others :
      (c : Claim) (queues : List String) (rows : List Row)
      → c.now ≤ at + c.lease_ttl
      → All (HeldRow n token at) rows
      → All (λ k. n ≢ k.1) (map key_of (filter (due c (available c) queues) rows))
  due_others c queues [] t h = tt
  due_others c queues (r ∷ rs) t h = elim (Bool-cases (due c (available c) queues r)) [
    | inl e ↦ rw e ((λ f. held_not_due c queues r t h.0 e (sym f)), due_others c queues rs t h.1)
    | inr e ↦ rw e (due_others c queues rs t h.1)
  ]

  not_in_ids : (ks : List (ℕ × ℕ)) → All (λ k. n ≢ k.1) ks → contains n (ids ks) ≡ false
  not_in_ids [] h = refl
  not_in_ids (k ∷ ks) h = ground (arith, h.0, not_in_ids ks h.1)

  Held-ready :
      (c : Claim) (queues : List String) (rows : List Row)
      → c.now ≤ at + c.lease_ttl
      → All (HeldRow n token at) rows
      → contains n (ids (ready c rows queues)) ≡ false
  Held-ready c queues rows t h = rw (ready-available c rows queues) (
      not_in_ids
        (take c.limit (sort (λ k. k) (map key_of (filter (due c (available c) queues) rows))))
        (take-All (λ k. n ≢ k.1) c.limit
          (sort (λ k. k) (map key_of (filter (due c (available c) queues) rows)))
          (sort-All (λ k. k) (λ k. n ≢ k.1) (map key_of (filter (due c (available c) queues) rows))
            (due_others c queues rows t h))))

  held-filter :
      (p : Row → Bool) (rows : List Row)
      → All (HeldRow n token at) rows
      → All (HeldRow n token at) (filter p rows)
  held-filter p rows h = All-filter (HeldRow n token at) p rows h

  held-map :
      (f : Row → Row)
      → ((r : Row) → HeldRow n token at r → HeldRow n token at (f r))
      → (rows : List Row) → All (HeldRow n token at) rows
      → All (HeldRow n token at) (map f rows)
  held-map f k [] h = tt
  held-map f k (r ∷ rs) h = (k r h.0, held-map f k rs h.1)

  claim-Held :
      (c : Claim) (xs : List ℕ) (rows : List Row)
      → contains n xs ≡ false
      → All (HeldRow n token at) rows
      → All (HeldRow n token at) (claim_rows c xs rows)
  unfolding claim_rows claim
  claim-Held c xs rows e =
      held-map (λ r. if contains r.id xs then claim c.now c.token r else r)
        (λ r h. elim (Bool-cases (contains r.id xs)) [
          | inl f ↦ rw f (λ same. absurd (cc (sym e ∙ (ap (λ k. contains k xs) (sym same) ∙ f))))
          | inr f ↦ rw f h
        ])
        rows

  reschedule-Held :
      (now m t : ℕ) (s : Reschedule) (r : Row)
      → (m ≢ n) ⊎ (t ≢ token)
      → HeldRow n token at r
      → HeldRow n token at (if guarded m t r then reschedule now s r else r)
  unfolding reschedule
  reschedule-Held now m t s r k h = elim (Bool-cases (guarded m t r)) [
    | inl f ↦ rw f (λ same. absurd (ground (arith, (h same).0)))
    | inr f ↦ rw f h
  ]

  insert-Held :
      (conflict : TimerConflict) (now : ℕ) (next : Option ℕ) (m : NewRow) (db : Database)
      → Held n token at db
      → Held n token at (run_insert conflict now next m db).0
  unfolding append_row fresh_row extend_row
  insert-Held conflict now next m db h =
      run_insert_cases (λ a. Held n token at a.0) now next m db conflict
        (λ free. record {
          leased =
              All-append (HeldRow n token at) db.rows (fresh_row now db.next_id next m ∷ [])
                h.leased ((λ same. absurd (fresh same)), tt);
          issued = later;
        })
        (record { leased = h.leased; issued = later })
        (λ timer live f e. record {
          leased =
              held-map
                (λ r. if conflicts m.queue timer r then extend_row (or_else next now) m r else r)
                (λ r k. elim (Bool-cases (conflicts m.queue timer r)) [
                  | inl g ↦ rw g k
                  | inr g ↦ rw g k
                ])
                db.rows h.leased;
          issued = later;
        })
    where
      issued : n < db.next_id
      issued = h.issued

      later : n < db.next_id + 1
      later = omega arith

      fresh : db.next_id ≢ n
      fresh e = omega arith

  kept :
      (p : Row → Bool) (db : Database)
      → Held n token at db
      → Held n token at (record db { rows = filter p db.rows })
  kept p db h = record { leased = held-filter p db.rows h.leased; issued = h.issued }

  step-Held :
      (c : Call) (db : Database) → Respects c → Held n token at db → Held n token at (step c db)
  unfolding step Client.fetch Client.delete_with_lease Client.delete_guarded Client.delete_archived
      Client.delete_batch_with_lease Client.mark_pending_with_lease Client.cancel_timer
  step-Held (Call.fetches c []) db g h = h
  step-Held (Call.fetches c (q ∷ qs)) db g h = record {
    leased =
        claim-Held c (ids (ready c db.rows (q ∷ qs))) db.rows
          (Held-ready c (q ∷ qs) db.rows g h.leased) h.leased;
    issued = h.issued;
  }
  step-Held (Call.deletes d now m t none) db g h = kept (λ r. not (guarded m t r)) db h
  step-Held (Call.deletes true now m t (some p)) db g h = record {
    leased = held-filter (λ r. not (guarded m t r)) db.rows h.leased;
    issued = h.issued;
  }
  step-Held (Call.deletes false now m t (some p)) db g h = h
  step-Held (Call.deletes_batch []) db g h = h
  step-Held (Call.deletes_batch (p ∷ ps)) db g h = kept (λ r. not (wanted (p ∷ ps) r)) db h
  step-Held (Call.reschedules now m t s) db g h = record {
    leased =
        held-map (λ r. if guarded m t r then reschedule now s r else r)
          (λ r k. reschedule-Held now m t s r g k) db.rows h.leased;
    issued = h.issued;
  }
  step-Held (Call.cancels q t) db g h = kept (λ r. not (cancelable q t r)) db h
  step-Held (Call.publishes k now next m) db g h = insert-Held k now next m db h

  run-Held :
      (cs : List Call) (db : Database)
      → All Respects cs
      → Held n token at db
      → Held n token at (run cs db)
  unfolding run
  run-Held [] db g h = h
  run-Held (c ∷ cs) db g h = run-Held cs (step c db) g.1 (step-Held c db g.0 h)

-- A row that is leased under a token since `at` stays out of every other worker's hands: after any
-- statements whose fetches run before the lease ends, none of which is the holder's reschedule, a
-- fetch that also runs before then does not choose the row.
pub lease_excludes :
    (n token at : ℕ) (cs : List Call) (c : Claim) (queues : List String) (db : Database)
    → Held n token at db
    → All (Respects n token at) cs
    → c.now ≤ at + c.lease_ttl
    → contains n (ids (ready c (run cs db).rows queues)) ≡ false
lease_excludes n token at cs c queues db h g t =
    Held-ready n token at c queues (run cs db).rows t (run-Held n token at cs db g h).leased
