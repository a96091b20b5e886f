-- ===== src/Client/Valid.antt =====
-- Every statement of OutboxClient keeps what the schema demands of the rows.
use faststream_outbox.Base.{
  ℕ, ◌+◌, ◌<◌, ◌≡◌, ◌≢◌, refl, Bool, false, Option, none, some, List, [], ◌∷◌, map, String, nat_eq,
  string_eq, eq_iff, or_else, find, filter, contains, All, All-append, All-filter, All-map_of,
  filter-Pairwise, append-Pairwise, Option-cases, if◌then◌else◌, Bool-cases, inl, inr, arith,
}
use faststream_outbox.Table.{Row, Database, claim}
use faststream_outbox.Table.Rows.{
  LeaseCheck, IsValid, same_timer, map-All, map-UniqueIds, map-below, map-UniqueTimers,
}
use faststream_outbox.Client.{Claim, Reschedule, reschedule, guarded}
use faststream_outbox.Client.Timers.{run_insert_cases}
use faststream_outbox.Client.Insert.{
  TimerConflict, NewRow, fresh_row, conflicts, extend_row, run_insert, append_row,
}

-- A change of rows in place that keeps their ids, queues, timers and lease checks.
pub record Keeps (f : Row → Row) : Type 0 where
  pub same_id : (r : Row) → (f r).id ≡ r.id
  pub same_place : (r : Row) → ((f r).queue ≡ r.queue) × ((f r).timer_id ≡ r.timer_id)
  pub leases : (r : Row) → LeaseCheck r → LeaseCheck (f r)

pub map-IsValid :
    (f : Row → Row) (db : Database)
    → Keeps f
    → IsValid db
    → IsValid (record db { rows = map f db.rows })
map-IsValid f db k v = record {
  unique = map-UniqueIds f k.same_id db.rows v.unique;
  below = map-below f k.same_id db.next_id db.rows v.below;
  timers = map-UniqueTimers f k.same_id k.same_place db.rows v.timers;
  leases = map-All f {P = LeaseCheck} k.leases db.rows v.leases;
}

pub filter-IsValid :
    (p : Row → Bool) (db : Database) → IsValid db → IsValid (record db { rows = filter p db.rows })
filter-IsValid p db v = record {
  unique = filter-Pairwise (λ r s. r.id ≢ s.id) p db.rows v.unique;
  below = All-filter (λ r. r.id < db.next_id) p db.rows v.below;
  timers = filter-Pairwise (λ r s. same_timer r s ≡ false) p db.rows v.timers;
  leases = All-filter LeaseCheck p db.rows v.leases;
}

pub claim-Keeps :
    (c : Claim) (xs : List ℕ) → Keeps (λ r. if contains r.id xs then claim c.now c.token r else r)
unfolding claim
claim-Keeps c xs = record {
  same_id = λ r. ground arith;
  same_place = λ r. (ground arith, ground arith);
  leases = λ r h. ground arith;
}

pub reschedule-Keeps :
    (now message_id token : ℕ) (s : Reschedule)
    → Keeps (λ r. if guarded message_id token r then reschedule now s r else r)
unfolding reschedule
reschedule-Keeps now m t s = record {
  same_id = λ r. ground arith;
  same_place = λ r. (ground arith, ground arith);
  leases = λ r h. ground arith;
}

extend-Keeps :
    (next : ℕ) (timer : String) (n : NewRow)
    → Keeps (λ r. if conflicts n.queue timer r then extend_row next n r else r)
unfolding extend_row
extend-Keeps next timer n = record {
  same_id = λ r. ground arith;
  same_place = λ r. (ground arith, ground arith);
  leases = λ r h. ground arith;
}

draw-IsValid : (db : Database) → IsValid db → IsValid (record db { next_id = db.next_id + 1 })
draw-IsValid db v = record {
  unique = v.unique;
  below =
      All-map_of (λ r. r.id < db.next_id) (λ r. r.id < db.next_id + 1) (λ r h. omega arith) db.rows
        v.below;
  timers = v.timers;
  leases = v.leases;
}

append-IsValid :
    (now : ℕ) (next : Option ℕ) (n : NewRow) (db : Database)
    → All (λ r. same_timer r (fresh_row now db.next_id next n) ≡ false) db.rows
    → IsValid db
    → IsValid (append_row now next n db).0
unfolding append_row fresh_row
append-IsValid now next n db apart v = record {
  unique =
      append-Pairwise (λ r s. r.id ≢ s.id) db.rows (fresh_row now db.next_id next n) v.unique
        (All-map_of (λ r. r.id < db.next_id) (λ r. r.id ≢ db.next_id) (λ r h. omega arith) db.rows
          v.below);
  below =
      All-append (λ r. r.id < db.next_id + 1) db.rows (fresh_row now db.next_id next n ∷ [])
        (draw-IsValid db v).below (omega arith, tt);
  timers =
      append-Pairwise (λ r s. same_timer r s ≡ false) db.rows (fresh_row now db.next_id next n)
        v.timers apart;
  leases = All-append LeaseCheck db.rows (fresh_row now db.next_id next n ∷ []) v.leases (refl, tt);
}

not_conflicts :
    (n : NewRow) (timer : String) (r s : Row)
    → s.queue ≡ n.queue
    → s.timer_id ≡ some timer
    → conflicts n.queue timer r ≡ false
    → same_timer r s ≡ false
not_conflicts n timer r s q t h = elim (Option-cases r.timer_id) [
  | inl e ↦ ground arith
  | inr (u, e) ↦
      ground (arith, eq_iff r.queue s.queue, eq_iff r.queue n.queue, eq_iff timer u, eq_iff u timer)
]

-- Where no conflict is found, the new row shares its timer with no row.
find-apart :
    (n : NewRow) (timer : String) (s : Row) (rows : List Row)
    → s.queue ≡ n.queue
    → s.timer_id ≡ some timer
    → find (conflicts n.queue timer) rows ≡ none
    → All (λ r. same_timer r s ≡ false) rows
find-apart n timer s [] q t h = tt
find-apart n timer s (r ∷ rs) q t h = elim (Bool-cases (conflicts n.queue timer r)) [
  | inl e ↦ absurd (ground arith)
  | inr e ↦ (not_conflicts n timer r s q t e, find-apart n timer s rs q t (ground arith))
]

no_timer_apart :
    (s : Row) (rows : List Row) → s.timer_id ≡ none → All (λ r. same_timer r s ≡ false) rows
no_timer_apart s [] h = tt
no_timer_apart s (r ∷ rs) h = (
  elim (Option-cases r.timer_id) [ inl e ↦ ground arith | inr (u, e) ↦ ground arith ],
  no_timer_apart s rs h,
)

-- Publishing a row, under either timer policy, keeps ids unique and below the next one, at most one
-- row for each timer, and every lease whole.
pub run_insert-IsValid :
    (conflict : TimerConflict) (now : ℕ) (next : Option ℕ) (n : NewRow) (db : Database)
    → IsValid db
    → IsValid (run_insert conflict now next n db).0
run_insert-IsValid conflict now next n db v =
    run_insert_cases (λ a. IsValid a.0) now next n db conflict
      (λ free. append-IsValid now next n db (apart free) v) (draw-IsValid db v)
      (λ timer live f h.
        draw-IsValid (record db { rows = map (extends timer) db.rows })
          (map-IsValid (extends timer) db (extend-Keeps (or_else next now) timer n) v))
  where
    extends : String → Row → Row
    extends timer r = if conflicts n.queue timer r then extend_row (or_else next now) n r else r

    new : Row
    new = fresh_row now db.next_id next n

    apart :
        ((timer : String) → n.timer_id ≡ some timer → find (conflicts n.queue timer) db.rows ≡ none)
        → All (λ r. same_timer r new ≡ false) db.rows
    apart free = elim (Option-cases n.timer_id) [
      | inl e ↦ no_timer_apart new db.rows (unfold fresh_row in e)
      | inr (timer, e) ↦
          find-apart n timer new db.rows (unfold fresh_row in refl) (unfold fresh_row in e)
            (free timer e)
    ]
