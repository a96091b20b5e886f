-- ===== src/Fake/Insert.antt =====
-- faststream_outbox/testing.py, FakeOutboxClient: `insert` and what it calls. `utc` is the clock.
pub mod Refines
use faststream_outbox.Base.{
  ℕ, ◌+◌, Bool, true, false, not, ◌&&◌, ◌||◌, Option, none, some, List, [], ◌∷◌, ◌++◌, String, ℤ,
  Result, ok, raise, Error, raise_if, ◌>>=◌, ◌>>◌, ltb, is_some, or_else, find, any, if◌then◌else◌,
}
use Prim.Native.String.{count}
use faststream_outbox.Message.Scheduling.{resolve_next_attempt_client_side}
use faststream_outbox.Table.{Row, Database}
use faststream_outbox.Client.Insert.{TimerConflict, NewRow, Schedule, conflicts}
use faststream_outbox.Fake.{FakeOutboxClient, update_first}

abbrev over_long : Option String → Bool
over_long none = false
over_long (some s) = ltb 255 (count s)

unfoldable pub validate_like_postgres : NewRow → Result (Unit {0})
validate_like_postgres n = do
  raise_if (ltb 255 (count n.queue)) Error.value_error
  raise_if (over_long n.timer_id) Error.value_error

-- The row as `_FakeRow` builds it, defaults included.
unfoldable pub new_object : ℕ → ℕ → ℕ → NewRow → Row
new_object utc id next n = record {
  id = id;
  queue = n.queue;
  payload = n.payload;
  headers = n.headers;
  attempts_count = 0;
  deliveries_count = 0;
  created_at = utc;
  next_attempt_at = next;
  first_attempt_at = none;
  last_attempt_at = none;
  acquired_at = none;
  acquired_token = none;
  timer_id = n.timer_id;
}

-- `_append`, and the entry of `_dispatchable` that `insert` makes.
unfoldable pub append_object : ℕ → ℕ → NewRow → FakeOutboxClient → FakeOutboxClient × Option ℕ
unfolding new_object
append_object utc next n k = (
  record k {
    tables = record (k.tables) {
      rows = k.rows ++ new_object utc k.next_id next n ∷ [];
      next_id = k.next_id + 1;
    };
    dispatchable = k.dispatchable ++ new_object utc k.next_id next n ∷ [];
  },
  some k.next_id,
)

-- What `_extend` does to the object, if it is free.
unfoldable pub extend_object : ℕ → NewRow → Row → Row
extend_object next n r =
    if ltb r.next_attempt_at next
    then record r {
      next_attempt_at = next;
      payload = n.payload;
      headers = n.headers;
      attempts_count = 0;
      first_attempt_at = none;
      last_attempt_at = none;
    }
    else r

-- The row that carries the timer is met: `_extend`, or the `any` of `_store`.
unfoldable pub meet :
    TimerConflict → ℕ → String → NewRow → Row → FakeOutboxClient → FakeOutboxClient × Option ℕ
unfolding extend_object
meet TimerConflict.ignore next timer n live k = (k, none)
meet TimerConflict.extend next timer n live k = if is_some live.acquired_token then (k, none) else (
  record k {
    tables = record (k.tables) {
      rows = update_first (conflicts n.queue timer) (extend_object next n) k.rows;
    };
  },
  some live.id,
)

unfoldable pub store :
    TimerConflict → ℕ → ℕ → NewRow → FakeOutboxClient → FakeOutboxClient × Option ℕ
unfolding append_object meet
store conflict utc next n k = elim n.timer_id [
  | none ↦ append_object utc next n k
  | some timer ↦ elim (find (conflicts n.queue timer) k.rows) [
    | none ↦ append_object utc next n k
    | some live ↦ meet conflict next timer n live k
  ]
]

unfoldable pub insert :
    ℕ → Schedule → NewRow → FakeOutboxClient → Result (FakeOutboxClient × Option ℕ)
unfolding validate_like_postgres store
insert utc s n k = do
  validate_like_postgres n
  next ← resolve_next_attempt_client_side s.activate_in s.activate_at utc
  ok (store s.timer_conflict utc (or_else next utc) n k)
