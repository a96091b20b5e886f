-- ===== src/Fake/Delivering.antt =====
-- faststream_outbox/testing.py: how TestOutboxBroker hands the rows that a publish stored to the
-- subscribers. In sync mode each row is claimed in place and goes through `dispatch_one`, whose model
-- is in faststream_outbox/subscriber; in loop mode the fetch loops are woken.
pub mod Acknowledged
use faststream_outbox.Base.{
  ℕ, Bool, true, false, ◌&&◌, Option, none, some, List, [], ◌∷◌, map, String, Result, ok, raise,
  find, contains, ◌==◌, nat_eq, string_eq, if◌then◌else◌,
}
use faststream_outbox.Message.Types.{OutboxInnerMessage}
use faststream_outbox.Table.{Row, claim, row_to_message}
use faststream_outbox.Client.{distinct}
use faststream_outbox.Fake
use faststream_outbox.Fake.{FakeOutboxClient, update_row}
use faststream_outbox.Fake.Batch.{take_dispatchable}
use faststream_outbox.Subscriber.Types.{LeaseClient, Config, PendingFlush, World, answered}
use faststream_outbox.Subscriber.Dispatch.{dispatch_one}

-- A subscriber of the broker; `consume` is its FastStream pipeline.
pub record Attached : Type 0 where
  pub has_calls : Bool
  pub queues : List String
  pub config : Config
  pub running : Bool
  pub consume :
      OutboxInnerMessage
      → FakeOutboxClient
      → FakeOutboxClient × (OutboxInnerMessage × Result (Unit {0}))

unfoldable pub find_subscriber_for_queue : List Attached → String → Option Attached
find_subscriber_for_queue subs queue = find (λ s. s.has_calls && contains queue s.queues) subs

-- The clocks and the fresh token that a dispatch reads.
pub record Tick : Type 0 where
  pub claimed_at : ℕ
  pub token : ℕ
  pub monotonic : ℕ
  pub now : ℕ
  pub duration : ℕ

answer :
    {A : Type 0} → FakeOutboxClient → Result (FakeOutboxClient × A) → FakeOutboxClient × Result A
answer k (ok (l, a)) = (l, ok a)
answer k (raise e) = (k, raise e)

-- The methods of the fake client that a dispatch calls.
unfoldable pub fake_client : ℕ → LeaseClient FakeOutboxClient
unfolding answer
fake_client now = record {
  delete_with_lease =
      λ id token payload k. answer k (Fake.delete_with_lease now id token payload k);
  delete_batch_with_lease =
      λ pairs k. let (l, deleted) = Fake.delete_batch_with_lease pairs k in (l, ok deleted);
  mark_pending_with_lease =
      λ id token s k. let (l, done) = Fake.mark_pending_with_lease now id token s k in (l, ok done);
}

abbrev pub settled :
    List PendingFlush × (World FakeOutboxClient × Result Bool)
    → World FakeOutboxClient × Result (Unit {0})
settled (b, (w, ok done)) = (w, ok tt)
settled (b, (w, raise e)) = (w, raise e)

-- `_claim_fake_row`, on the object in the store.
abbrev pub claim_fake_row : Tick → ℕ → FakeOutboxClient → FakeOutboxClient
claim_fake_row t id k = record k {
  tables = record (k.tables) { rows = update_row id (claim t.claimed_at t.token) k.rows };
}

-- The claimed row goes through the pipeline, with no buffer and no connection.
unfoldable pub deliver :
    Tick → Attached → Row → World FakeOutboxClient → World FakeOutboxClient × Result (Unit {0})
deliver t s r w = settled (
    dispatch_one s.config (fake_client t.now) false s.running s.consume t.now t.duration
      (row_to_message t.monotonic (claim t.claimed_at t.token r)) none
      (answered (claim_fake_row t r.id w.client) w))

abbrev pub deliver_found :
    Tick
    → Attached
    → Option Row
    → World FakeOutboxClient
    → World FakeOutboxClient × Result (Unit {0})
deliver_found t s none w = (w, ok tt)
deliver_found t s (some r) w = deliver t s r w

abbrev pub dispatch_to :
    Tick → Option Attached → ℕ → World FakeOutboxClient → World FakeOutboxClient × Result (Unit {0})
dispatch_to t none row_id w = (w, ok tt)
dispatch_to t (some s) row_id w = deliver_found t s (find (λ r. r.id == row_id) w.client.rows) w

-- `_sync_dispatch`. A row that no subscriber serves stays.
unfoldable pub sync_dispatch :
    Tick
    → List Attached
    → String
    → ℕ
    → World FakeOutboxClient
    → World FakeOutboxClient × Result (Unit {0})
unfolding find_subscriber_for_queue deliver
sync_dispatch t subs queue row_id w = dispatch_to t (find_subscriber_for_queue subs queue) row_id w

abbrev pub next_row :
    (World FakeOutboxClient → World FakeOutboxClient × Result (Unit {0}))
    → World FakeOutboxClient × Result (Unit {0})
    → World FakeOutboxClient × Result (Unit {0})
next_row rest (w, ok u) = rest w
next_row rest (w, raise e) = (w, raise e)

-- The loop of `_dispatch_stored` in sync mode.
unfoldable pub dispatch_each :
    (ℕ → Tick)
    → List Attached
    → List Row
    → World FakeOutboxClient
    → World FakeOutboxClient × Result (Unit {0})
unfolding sync_dispatch
dispatch_each tick subs [] w = (w, ok tt)
dispatch_each tick subs (r ∷ rs) w =
    next_row (dispatch_each tick subs rs) (sync_dispatch (tick r.id) subs r.queue r.id w)

-- The subscribers whose fetch loops `_dispatch_stored` wakes in loop mode, one for each queue.
unfoldable pub woken : List Attached → List Row → List (Option Attached)
unfolding find_subscriber_for_queue
woken subs rows = map (find_subscriber_for_queue subs) (distinct (map (λ r. r.queue) rows))

-- `_dispatch_stored`.
unfoldable pub dispatch_stored :
    Bool
    → (ℕ → Tick)
    → List Attached
    → World FakeOutboxClient
    → World FakeOutboxClient × Result (Unit {0})
unfolding take_dispatchable dispatch_each
dispatch_stored run_loops tick subs w =
    let (rows, k) = take_dispatchable w.client in
    if run_loops then (answered k w, ok tt) else dispatch_each tick subs rows (answered k w)

abbrev pub answering :
    Option ℕ
    → World FakeOutboxClient × Result (Unit {0})
    → World FakeOutboxClient × Result (Option ℕ)
answering id (w, ok u) = (w, ok id)
answering id (w, raise e) = (w, raise e)

abbrev pub then_dispatch :
    (World FakeOutboxClient → World FakeOutboxClient × Result (Unit {0}))
    → World FakeOutboxClient × Result (Option ℕ)
    → World FakeOutboxClient × Result (Option ℕ)
then_dispatch dispatch (w, raise e) = (w, raise e)
then_dispatch dispatch (w, ok id) = answering id (dispatch w)

-- `_DispatchingProducer.publish`, with what the broker's producer does to the store.
unfoldable pub dispatching_publish :
    Bool
    → (ℕ → Tick)
    → List Attached
    → (FakeOutboxClient → FakeOutboxClient × Result (Option ℕ))
    → World FakeOutboxClient
    → World FakeOutboxClient × Result (Option ℕ)
unfolding dispatch_stored
dispatching_publish run_loops tick subs publish w =
    let (k, id) = publish w.client in
    then_dispatch (dispatch_stored run_loops tick subs) (answered k w, id)
