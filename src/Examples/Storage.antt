-- ===== src/Examples/Storage.antt =====
-- The theorems on the tables, at concrete rows and statements.
use faststream_outbox.Base.{
  ℕ, ◌≡◌, refl, true, false, pos, none, some, List, [], ◌∷◌, map, ok, map_result, nat_eq, take,
  filter, contains, inl, inr, arith,
}
use mathlib.Core.List.{reverse}
use faststream_outbox.Base.Sort.{sort}
use faststream_outbox.Message.Types.{DlqFailureReason}
use faststream_outbox.Table.{Database, DlqPayload, key_of}
use faststream_outbox.Table.Rows.{IsValid}
use faststream_outbox.Client
use faststream_outbox.Client.{Claim, Reschedule, ids, ready}
use faststream_outbox.Client.Insert.{TimerConflict, NewRow, run_insert}
use faststream_outbox.Client.Fetch.{due, available, ready-available}
use faststream_outbox.Fake
use faststream_outbox.Fake.Writes.{tables_of}
use faststream_outbox.Fake.Fetch.{fetch_refines}
use faststream_outbox.Fake.Insert
use faststream_outbox.Fake.Insert.Refines.{insert_refines, rows_and_answer, table_and_answer}
use faststream_outbox.Fake.Writes.{delete_refines, mark_pending_refines}
use faststream_outbox.Fake.Reads.{delete_batch_refines}
use faststream_outbox.Lease.{Call, step, run}
use faststream_outbox.Lease.Stale.{reclaimed_forever}
use faststream_outbox.Lease.Exclusion.{lease_excludes, Held}
use faststream_outbox.Lease.Valid.{run-IsValid}
use faststream_outbox.Lease.Exclusion.Claimed.{chosen_once}
use faststream_outbox.Lease.Survival.{Present, Unacknowledged, run-Present, due_row_fetched}
use faststream_outbox.Examples.{orders, fake_orders, claim_at}

abbrev later : Reschedule
later = record {
  delay_seconds = pos 30;
  attempts_count = 1;
  first_attempt_at = some 105;
  last_attempt_at = some 105;
}

abbrev daily : NewRow
daily = record { queue = "orders"; payload = 2 ∷ []; headers = none; timer_id = some "daily" }

abbrev audit_payload : DlqPayload
audit_payload = record { failure_reason = DlqFailureReason.rejected; last_exception = none }

-- Another worker fetches and settles row 2, a publisher moves the timer, a stranger's token fails.
abbrev traffic : List Call
traffic =
    Call.fetches (claim_at 130 8) ("orders" ∷ [])
    ∷ Call.publishes TimerConflict.extend 131 (some 200) daily
    ∷ Call.reschedules 132 1 9 later
    ∷ Call.deletes true 133 2 8 none
    ∷ Call.cancels "orders" "daily"
    ∷ []

orders-Held : Held 1 7 100 orders
orders-Held = record {
  leased = ((λ e. (refl, refl)), ((λ e. absurd (ground arith)), tt));
  issued = ground arith;
}

orders-IsValid : IsValid orders
orders-IsValid = record {
  unique = ((ground arith, tt), (tt, tt));
  below = (ground arith, (ground arith, tt));
  timers = ((refl, tt), (tt, tt));
  leases = (refl, (refl, tt));
}

lease_excludes_example :
    contains 1 (ids (ready (claim_at 160 11) (run traffic orders).rows ("orders" ∷ []))) ≡ false
lease_excludes_example =
    lease_excludes 1 7 100 traffic (claim_at 160 11) ("orders" ∷ []) orders orders-Held
      (ground arith, (tt, (inr (λ e. absurd (ground arith)), (tt, (tt, tt))))) (ground arith)

reclaimed_forever_example :
    let reclaimed =
      run
        (Call.cancels "orders" "daily" ∷ [])
        (step (Call.fetches (claim_at 200 8) ("orders" ∷ [])) orders) in
    (Client.delete_with_lease true true 210 1 7 (some audit_payload) reclaimed
      ≡ ok (reclaimed, false))
    × (Client.mark_pending_with_lease true 210 1 7 later reclaimed ≡ ok (reclaimed, false))
unfolding ready sort Client.branch Client.distinct Client.scan
reclaimed_forever_example =
    reclaimed_forever 1 7 210 (claim_at 200 8) "orders" [] (Call.cancels "orders" "daily" ∷ [])
      (some audit_payload) later orders refl (λ e. absurd (ground arith))
      ((λ e. absurd (ground arith)), tt)

run-IsValid_example : IsValid (run traffic orders)
run-IsValid_example = run-IsValid traffic orders orders-IsValid

ready-available_example :
    ready (claim_at 200 8) orders.rows ("orders" ∷ "orders" ∷ [])
    ≡ take 10 (
        sort
          (λ k. k)
          (map key_of (
            filter
              (due (claim_at 200 8) (available (claim_at 200 8)) ("orders" ∷ "orders" ∷ []))
              orders.rows)))
ready-available_example = ready-available (claim_at 200 8) orders.rows ("orders" ∷ "orders" ∷ [])

fetch_refines_example :
    Client.fetch true 5 (claim_at 200 8) ("orders" ∷ []) fake_orders.tables
    ≡ ok (
      (Fake.fetch 5 (claim_at 200 8) ("orders" ∷ []) fake_orders).0.tables,
      (Fake.fetch 5 (claim_at 200 8) ("orders" ∷ []) fake_orders).1,
    )
fetch_refines_example =
    fetch_refines 5 (claim_at 200 8) (λ n. refl) ("orders" ∷ []) fake_orders orders-IsValid.unique

delete_refines_example :
    Client.delete_with_lease true true 210 1 7 (some audit_payload) fake_orders.tables
    ≡ map_result tables_of (Fake.delete_with_lease 210 1 7 (some audit_payload) fake_orders)
delete_refines_example =
    delete_refines 210 1 7 (some audit_payload) fake_orders orders-IsValid.unique (inl refl)

mark_pending_refines_example :
    Client.mark_pending_with_lease true 210 1 7 later fake_orders.tables
    ≡ ok (tables_of (Fake.mark_pending_with_lease 210 1 7 later fake_orders))
mark_pending_refines_example = mark_pending_refines 210 1 7 later fake_orders orders-IsValid.unique

delete_batch_refines_example :
    map_result
      (λ (a : Database × List (ℕ × ℕ)). (a.0, reverse a.1))
      (Client.delete_batch_with_lease true ((1, 7) ∷ (2, 8) ∷ []) fake_orders.tables)
    ≡ ok (tables_of (Fake.delete_batch_with_lease ((1, 7) ∷ (2, 8) ∷ []) fake_orders))
delete_batch_refines_example = delete_batch_refines ((1, 7) ∷ (2, 8) ∷ []) fake_orders

run-Present_example :
    Present 1 (run (Call.reschedules 132 1 9 later ∷ Call.cancels "orders" "daily" ∷ []) orders)
unfolding faststream_outbox.Lease.Survival.removes step Client.mark_pending_with_lease
run-Present_example =
    run-Present 1 (Call.reschedules 132 1 9 later ∷ Call.cancels "orders" "daily" ∷ []) orders
      (refl, (refl, tt)) refl

due_row_fetched_example :
    contains 1 (ids (ready (claim_at 200 8) orders.rows ("orders" ∷ []))) ≡ true
due_row_fetched_example =
    due_row_fetched 1 (claim_at 200 8) orders.rows ("orders" ∷ []) (ground arith) refl

insert_refines_example :
    map_result rows_and_answer (
      Insert.insert 50
        (record {
          activate_in = some (pos 10);
          activate_at = none;
          timer_conflict = TimerConflict.extend;
        })
        daily
        fake_orders)
    ≡ ok (table_and_answer (run_insert TimerConflict.extend 50 (some 60) daily fake_orders.tables))
unfolding Insert.validate_like_postgres
    faststream_outbox.Message.Scheduling.resolve_next_attempt_client_side
insert_refines_example =
    insert_refines 50
      (record {
        activate_in = some (pos 10);
        activate_at = none;
        timer_conflict = TimerConflict.extend;
      })
      daily fake_orders orders-IsValid.timers refl refl

chosen_once_example :
    let served =
      run
        (Call.deletes true 205 2 8 none ∷ [])
        (step (Call.fetches (claim_at 200 8) ("orders" ∷ [])) orders) in
    contains 1 (ids (ready (claim_at 250 9) served.rows ("orders" ∷ []))) ≡ false
unfolding ready sort Client.branch Client.distinct Client.scan
chosen_once_example =
    chosen_once 1 (claim_at 200 8) (claim_at 250 9) "orders" [] ("orders" ∷ [])
      (Call.deletes true 205 2 8 none ∷ []) orders (ground arith) refl (tt, tt) (ground arith)
