-- ===== src/Fake/Reads.antt =====
-- The fake's batched delete, its timer cancellation and its lease-free read refine those of
-- OutboxClient.
use mathlib.Core.List.{reverse, reverse-cons}
use faststream_outbox.Base.{
  ℕ, ◌≡◌, refl, ap, Bool, true, false, not, ◌&&◌, Option, none, List, [], ◌∷◌, String, ok,
  map_result, nat_eq, string_eq, eq_iff, filter, All-map_of, Option-cases, inl, inr, arith, ℤ,
}
use faststream_outbox.Base.Sort.Commute.{sort-filter}
use faststream_outbox.Table.{Row, Database}
use faststream_outbox.Table.Rows.{UniqueTimers, same_timer}
use faststream_outbox.Client
use faststream_outbox.Client.{guarded, wanted, cancelable, in_queue, returned_pairs}
use faststream_outbox.Fake.{FakeOutboxClient, found, in_pairs, delete_each}
use faststream_outbox.Fake
use faststream_outbox.Fake.First.{AtMostOne, delete_first_lem}
use faststream_outbox.Fake.Writes.{found-guarded, tables_of}

in_pairs-wanted : (pairs : List (ℕ × ℕ)) (r : Row) → in_pairs pairs r ≡ wanted pairs r
in_pairs-wanted [] r = refl
in_pairs-wanted (p ∷ ps) r =
    ground (arith, ap (λ q. q r) (found-guarded p.0 p.1), in_pairs-wanted ps r)

-- A row with no lease is no wanted row.
wanted_unleased :
    (pairs : List (ℕ × ℕ)) (r : Row) → r.acquired_token ≡ none → wanted pairs r ≡ false
wanted_unleased [] r h = refl
wanted_unleased (p ∷ ps) r h = ground (arith, wanted_unleased ps r h)

module _ (pairs : List (ℕ × ℕ)) where
  delete_each_rows :
      (rows : List Row) → (delete_each pairs rows).0 ≡ filter (λ r. not (wanted pairs r)) rows
  unfolding delete_each
  delete_each_rows [] = refl
  delete_each_rows (r ∷ rs) =
      ground (arith, delete_each_rows rs, in_pairs-wanted pairs r, wanted_unleased pairs r)

  delete_each_pairs :
      (rows : List Row) → (delete_each pairs rows).1 ≡ reverse (returned_pairs pairs rows)
  unfolding delete_each returned_pairs
  delete_each_pairs [] = refl
  delete_each_pairs (r ∷ rs) = elim (Option-cases r.acquired_token) [
    | inl e ↦ rw e (delete_each_pairs rs)
    | inr (t, e) ↦
        rw (e, in_pairs-wanted pairs r)
          (ground (arith, delete_each_pairs rs, reverse-cons (r.id, t) (returned_pairs pairs rs)))
  ]

keep_all : (rows : List Row) → filter (λ r. not (wanted [] r)) rows ≡ rows
keep_all [] = refl
keep_all (r ∷ rs) = ap (◌∷◌ r) (keep_all rs)

returned_none : (rows : List Row) → returned_pairs [] rows ≡ []
unfolding returned_pairs
returned_none [] = refl
returned_none (r ∷ rs) = ground (arith, returned_none rs)

-- The fake's batched delete leaves the rows that the DELETE ... RETURNING of OutboxClient leaves,
-- and answers with the same pairs in the opposite order (the answer is a set).
pub delete_batch_refines :
    (pairs : List (ℕ × ℕ)) (k : FakeOutboxClient)
    → map_result
        (λ (a : Database × List (ℕ × ℕ)). (a.0, reverse a.1))
        (Client.delete_batch_with_lease true pairs k.tables)
      ≡ ok (tables_of (Fake.delete_batch_with_lease pairs k))
unfolding Client.delete_batch_with_lease Fake.delete_batch_with_lease
delete_batch_refines [] k =
    rw (
      delete_each_rows [] k.rows,
      delete_each_pairs [] k.rows,
      keep_all k.rows,
      returned_none k.rows,
    )
delete_batch_refines (p ∷ ps) k =
    rw (delete_each_rows (p ∷ ps) k.rows, delete_each_pairs (p ∷ ps) k.rows)

-- Two cancelable rows of one timer would be the same timer.
cancelable_apart :
    (queue timer : String) (r s : Row)
    → same_timer r s ≡ false
    → (cancelable queue timer r && cancelable queue timer s) ≡ false
cancelable_apart queue timer r s h = elim (Option-cases r.timer_id) [
  | inl e ↦ ground arith
  | inr (t, e) ↦ elim (Option-cases s.timer_id) [
    | inl f ↦ ground arith
    | inr (u, f) ↦ ground (
      arith,
      eq_iff r.queue queue,
      eq_iff s.queue queue,
      eq_iff r.queue s.queue,
      eq_iff t timer,
      eq_iff u timer,
      eq_iff u t,
    )
  ]
]

one_cancelable :
    (queue timer : String) (rows : List Row)
    → UniqueTimers rows
    → AtMostOne (cancelable queue timer) rows
one_cancelable q t [] u = tt
one_cancelable q t (r ∷ rs) u = (
  All-map_of (λ s. same_timer r s ≡ false) (λ s. (cancelable q t r && cancelable q t s) ≡ false)
      (λ s. cancelable_apart q t r s) rs u.0,
  one_cancelable q t rs u.1,
)

-- On rows with at most one row for each timer, the fake cancels a timer, or raises, as OutboxClient
-- does, and its lease-free read always answers as that of OutboxClient does.
pub cancel_and_read_refine :
    (session : Bool) (queue timer : String) (only : Option String) (limit : ℤ) (monotonic : ℕ)
    (k : FakeOutboxClient)
    → UniqueTimers k.rows
    → (Client.cancel_timer session queue timer k.tables
        ≡ map_result tables_of (Fake.cancel_timer session queue timer k))
      × (Client.fetch_unprocessed session monotonic only limit k.tables
          ≡ Fake.fetch_unprocessed session monotonic only limit k)
unfolding Client.cancel_timer Fake.cancel_timer Client.fetch_unprocessed Fake.fetch_unprocessed
cancel_and_read_refine session queue timer only limit monotonic k u = (
  ground (
    arith,
    delete_first_lem (cancelable queue timer) k.rows (one_cancelable queue timer k.rows u),
  ),
  rw (sort-filter (λ r. (r.id, 0)) (in_queue only) k.rows),
)
