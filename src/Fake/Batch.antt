-- ===== src/Fake/Batch.antt =====
-- faststream_outbox/testing.py: `insert_batch` and `feed` of the fake client and the rows that
-- they leave for dispatch. `utc` is the clock.
pub mod Refines
use Prim.Native.String.{String}
use faststream_outbox.Base.{
  ℕ, ◌+◌, ◌≡◌, refl, ap, ◌∙◌, Bool, true, false, not, ◌&&◌, ◌||◌, Option, none, some, List, [], ◌∷◌,
  ◌++◌, ℤ, map, ◌==◌, nat_eq, string_eq, Result, ok, raise, Error, raise_if, ◌>>=◌, ◌>>◌, or_else,
  find, any, contains, if◌then◌else◌,
}
use faststream_outbox.Message.Types.{Headers}
use faststream_outbox.Message.Scheduling.{resolve_next_attempt_client_side}
use faststream_outbox.Table.{Row, Database}
use faststream_outbox.Client.Insert.{NewRow, TimerConflict, append_batch, append_row, fresh_row}
use faststream_outbox.Fake.{FakeOutboxClient, update_first}
use faststream_outbox.Fake.Insert.{validate_like_postgres, append_object, new_object, store}

abbrev pub new_row : String → List ℕ × Option Headers → NewRow
new_row queue (payload, headers) = record {
  queue = queue;
  payload = payload;
  headers = headers;
  timer_id = none;
}

unfoldable pub validate_each : String → List (List ℕ × Option Headers) → Result (Unit {0})
validate_each queue [] = ok tt
validate_each queue (row ∷ rows) =
    validate_like_postgres (new_row queue row) >> validate_each queue rows

unfoldable pub append_each :
    ℕ → ℕ → String → List (List ℕ × Option Headers) → FakeOutboxClient → FakeOutboxClient
unfolding append_object
append_each utc next queue [] k = k
append_each utc next queue (row ∷ rows) k =
    append_each utc next queue rows (append_object utc next (new_row queue row) k).0

unfoldable pub fake_insert_batch :
    ℕ
    → Option ℤ
    → Option ℕ
    → String
    → List (List ℕ × Option Headers)
    → FakeOutboxClient
    → Result FakeOutboxClient
unfolding validate_each append_each
fake_insert_batch utc activate_in activate_at queue rows k = do
  validate_each queue rows
  next ← resolve_next_attempt_client_side activate_in activate_at utc
  ok (append_each utc (or_else next utc) queue rows k)

-- `feed`: a naive time is refused. What it stores is not dispatched.
unfoldable pub feed :
    ℕ → Option (ℕ × Bool) → NewRow → FakeOutboxClient → Result (FakeOutboxClient × Option ℕ)
unfolding store
feed utc none n k = do
  validate_like_postgres n
  let (l, id) = store TimerConflict.ignore utc utc n k
  ok (record l { dispatchable = k.dispatchable }, id)
feed utc (some (next, aware)) n k = do
  raise_if (not aware) Error.value_error
  validate_like_postgres n
  let (l, id) = store TimerConflict.ignore utc next n k
  ok (record l { dispatchable = k.dispatchable }, id)

unfoldable pub take_dispatchable : FakeOutboxClient → List Row × FakeOutboxClient
take_dispatchable k = (k.dispatchable, record k { dispatchable = [] })
