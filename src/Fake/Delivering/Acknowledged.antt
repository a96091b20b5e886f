-- ===== src/Fake/Delivering/Acknowledged.antt =====
-- A publish under the test broker, from the insert to the delete of the acknowledged row.
use faststream_outbox.Base.{
  ℕ, ◌+◌, ◌<◌, ◌≤◌, ◌≡◌, refl, ap, ◌∙◌, true, false, Option, none, some, List, [], ◌∷◌, ◌++◌,
  Result, ok, raise, find, All, ◌==◌, nat_eq, arith,
}
use mathlib.Core.List.{append-nil}
use faststream_outbox.Message.Types.{OutboxInnerMessage}
use faststream_outbox.Message.{
  ack, do_ack, record_attempt, update_state_if_not_set, allow_delivery, assert_state_set,
  terminal_failure_reason,
}
use faststream_outbox.Table.{Row, claim, row_to_message}
use faststream_outbox.Client.Insert.{NewRow}
use faststream_outbox.Fake
use faststream_outbox.Fake.{FakeOutboxClient, update_row, delete_first, found, audit}
use faststream_outbox.Fake.Insert.{append_object, new_object}
use faststream_outbox.Fake.Batch.{take_dispatchable}
use faststream_outbox.Subscriber.Types.{World, answered}
use faststream_outbox.Subscriber.Flush.{dlq_payload, safe_flush, flush_terminal, held_terminal}
use faststream_outbox.Subscriber.Dispatch.{
  write_outcome, write_recorded, flush_or_buffer, after_consume, dispatch_one,
}
use faststream_outbox.Fake.Delivering.{
  Attached, Tick, fake_client, settled, claim_fake_row, deliver, find_subscriber_for_queue,
  sync_dispatch, answering, next_row, dispatch_each, dispatch_stored, dispatching_publish,
}

-- Every id was given out before.
abbrev pub IsFresh : FakeOutboxClient → Type 0
IsFresh k = All (λ r. r.id < k.next_id) k.rows

-- A row behind rows with smaller ids.
module _ (id : ℕ) where
  find_last :
      (rs : List Row) (r : Row)
      → r.id ≡ id
      → All (λ s. s.id < id) rs
      → find (λ s. s.id == id) (rs ++ r ∷ []) ≡ some r
  find_last [] r e h = rw e (ground arith)
  find_last (s ∷ rs) r e h = ground (arith, find_last rs r e h.1)

  update_last :
      (f : Row → Row) (rs : List Row) (r : Row)
      → r.id ≡ id
      → All (λ s. s.id < id) rs
      → update_row id f (rs ++ r ∷ []) ≡ rs ++ f r ∷ []
  unfolding update_row
  update_last f [] r e h = ground arith
  update_last f (s ∷ rs) r e h = ground (arith, update_last f rs r e h.1)

  module _ (token : ℕ) where
    found_here : (r : Row) → r.id ≡ id → r.acquired_token ≡ some token → found id token r ≡ true
    found_here r e t = rw (e, t) (ground arith)

    found_before : (s : Row) → s.id < id → found id token s ≡ false
    found_before s h = ground arith

    found_last :
        (rs : List Row) (r : Row)
        → found id token r ≡ true
        → All (λ s. s.id < id) rs
        → find (found id token) (rs ++ r ∷ []) ≡ some r
    found_last [] r e h = rw e refl
    found_last (s ∷ rs) r e h = rw (found_before s h.0) (found_last rs r e h.1)

    delete_last :
        (rs : List Row) (r : Row)
        → found id token r ≡ true
        → All (λ s. s.id < id) rs
        → delete_first (found id token) (rs ++ r ∷ []) ≡ rs
    unfolding delete_first
    delete_last [] r e h = rw e refl
    delete_last (s ∷ rs) r e h = rw (found_before s h.0) (ap (◌∷◌ s) (delete_last rs r e h.1))

-- A store with one row more.
abbrev with_row : Row → FakeOutboxClient → FakeOutboxClient
with_row r k = record k { tables = record (k.tables) { rows = k.rows ++ r ∷ [] } }

fake_delete :
    (now token : ℕ) (r : Row) (k : FakeOutboxClient)
    → r.acquired_token ≡ some token
    → All (λ s. s.id < r.id) k.rows
    → Fake.delete_with_lease now r.id token none (with_row r k) ≡ ok (k, true)
unfolding Fake.delete_with_lease audit
fake_delete now token r k t h =
    rw
      (
        found_last r.id token k.rows r (found_here r.id token r refl t) h,
        Fake.delete_with_lease,
        delete_last r.id token k.rows r (found_here r.id token r refl t) h,
        append-nil k.dlq_rows,
      )
      refl

-- A pipeline that calls `ack` on its message, at some time, and leaves the store alone.
abbrev pub Acknowledges : Attached → Type 0
Acknowledges s =
    (m : OutboxInnerMessage) (k : FakeOutboxClient)
    → (at : ℕ) × (s.consume m k ≡ (k, (ack at m, ok tt)))

-- The delivery limit leaves room for a first delivery.
abbrev pub Admits : Option ℕ → Type 0
Admits none = Unit
Admits (some limit) = 1 ≤ limit

admitted :
    (limit : Option ℕ) (m : OutboxInnerMessage)
    → Admits limit
    → m.deliveries_count ≡ 1
    → allow_delivery limit m ≡ (m, true)
unfolding allow_delivery
admitted none m a h = refl
admitted (some limit) m a h = ground arith

claimed_last :
    (t : Tick) (r : Row) (k l : FakeOutboxClient)
    → All (λ x. x.id < r.id) k.rows
    → l ≡ with_row r k
    → claim_fake_row t r.id l ≡ with_row (claim t.claimed_at t.token r) k
claimed_last t r k l h same =
    ap (claim_fake_row t r.id) same
    ∙ ap (λ rs. record k { tables = record (k.tables) { rows = rs } })
        (update_last r.id (claim t.claimed_at t.token) k.rows r refl h)

-- The pipeline of a claimed row whose handler acknowledges, on the inline path.
dispatch_acknowledged :
    (t : Tick) (s : Attached) (r : Row) (k : FakeOutboxClient) (w : World FakeOutboxClient)
    → Acknowledges s
    → Admits s.config.max_deliveries
    → r.deliveries_count ≡ 0
    → All (λ x. x.id < r.id) k.rows
    → let (w', end) = settled (
        dispatch_one s.config
          (fake_client t.now)
          false
          s.running
          s.consume
          t.now
          t.duration
          (row_to_message t.monotonic (claim t.claimed_at t.token r))
          none
          (answered (with_row (claim t.claimed_at t.token r) k) w)) in
      (w'.client ≡ k) × (end ≡ ok tt)
unfolding dispatch_one after_consume write_outcome write_recorded flush_or_buffer safe_flush
    flush_terminal held_terminal ack update_state_if_not_set do_ack record_attempt assert_state_set
    dlq_payload terminal_failure_reason fake_client row_to_message claim
dispatch_acknowledged t s r k w acks fits first h =
    rw
      (
        admitted s.config.max_deliveries
            (record (row_to_message t.monotonic (claim t.claimed_at t.token r)) {
              retry_strategy = s.config.retry_strategy;
            })
            fits (ap (λ n. n + 1) first),
        (acks
            (record (row_to_message t.monotonic (claim t.claimed_at t.token r)) {
              retry_strategy = s.config.retry_strategy;
            })
            (with_row (claim t.claimed_at t.token r) k)).1,
        fake_delete t.now t.token (claim t.claimed_at t.token r) k refl h,
      )
      (refl, refl)

-- The delivery of a row that stands last in the store: it is claimed, acknowledged and deleted.
deliver_acknowledged :
    (t : Tick) (s : Attached) (r : Row) (w : World FakeOutboxClient) (k : FakeOutboxClient)
    → Acknowledges s
    → Admits s.config.max_deliveries
    → r.deliveries_count ≡ 0
    → All (λ x. x.id < r.id) k.rows
    → w.client ≡ with_row r k
    → ((deliver t s r w).0.client ≡ k) × ((deliver t s r w).1 ≡ ok tt)
unfolding deliver
deliver_acknowledged t s r w k acks fits first h same =
    rw (claimed_last t r k w.client h same) (dispatch_acknowledged t s r k w acks fits first h)

-- The loop ends after its last row.
last_row :
    (tick : ℕ → Tick) (subs : List Attached) (id : Option ℕ)
    (p : World FakeOutboxClient × Result (Unit {0})) (k : FakeOutboxClient)
    → (p.0.client ≡ k) × (p.1 ≡ ok tt)
    → let (w', end) = answering id (next_row (dispatch_each tick subs []) p) in
      (end ≡ ok id) × (w'.client ≡ k)
unfolding dispatch_each
last_row tick subs id (w, ok u) k h = (refl, h.0)
last_row tick subs id (w, raise e) k h = absurd (ground (arith, h.1))

-- What `insert` does with a row that is no timer, as a producer's call.
abbrev pub storing : ℕ → ℕ → NewRow → FakeOutboxClient → FakeOutboxClient × Result (Option ℕ)
storing utc next n k = let (l, id) = append_object utc next n k in (l, ok id)

-- The store after a row came and went: an id is used up, and nothing else changed.
abbrev pub spent : FakeOutboxClient → FakeOutboxClient
spent k = record k { tables = record (k.tables) { next_id = k.next_id + 1 }; dispatchable = [] }

-- Under the test broker a publish is consumed before it returns: if the first subscriber of the queue
-- has room for a delivery and its handler acknowledges, the row is stored, claimed and deleted, the
-- publish returns its id, and the store is as before but for the id that was used, whenever the row is
-- due. This is for a store whose ids were all given out and where no earlier row waits for dispatch.
pub dispatching_publish-consumes :
    (tick : ℕ → Tick) (subs : List Attached) (s : Attached) (utc next : ℕ) (n : NewRow)
    (w : World FakeOutboxClient)
    → find_subscriber_for_queue subs n.queue ≡ some s
    → Acknowledges s
    → Admits s.config.max_deliveries
    → IsFresh w.client
    → w.client.dispatchable ≡ []
    → let (w', id) = dispatching_publish false tick subs (storing utc next n) w in
      (id ≡ ok (some w.client.next_id)) × (w'.client ≡ spent w.client)
unfolding dispatching_publish dispatch_stored dispatch_each sync_dispatch take_dispatchable
    append_object new_object
dispatching_publish-consumes tick subs s utc next n w serves acks fits fresh drained =
    let r = new_object utc w.client.next_id next n in
    let stored = with_row r (spent w.client) in
    rw (drained, serves, find_last w.client.next_id w.client.rows r refl fresh)
      (last_row tick subs (some w.client.next_id)
        (deliver (tick w.client.next_id) s r (answered stored w)) (spent w.client)
        (deliver_acknowledged (tick w.client.next_id) s r (answered stored w) (spent w.client) acks
          fits refl fresh refl))
