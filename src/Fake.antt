-- ===== src/Fake.antt =====
-- faststream_outbox/testing.py, class FakeOutboxClient: the in-memory substitute of OutboxClient.
-- Its rows are objects that the methods change in place; an object is known by its id, which
-- `_append` gives out once. `_dispatchable` holds objects too: what is read of them, id and queue,
-- never changes, so the value at insertion stands for them. `json.dumps(headers)` cannot fail on
-- headers of strings.
pub mod Batch
pub mod Refinement
pub mod First
pub mod Fetch
pub mod Writes
pub mod Reads
pub mod Insert
pub mod Delivering
pub mod Harness
use faststream_outbox.Base.{
  ℕ, ◌+◌, ◌-◌, Bool, true, false, not, ◌&&◌, ◌||◌, Option, none, some, List, [], ◌∷◌, ◌++◌, map,
  String, ℤ, pos, pos_part, ltb_ℤ, Result, ok, raise, Error, raise_if, ◌>>=◌, ◌>>◌, ltb, leb, ◌==◌,
  nat_eq, string_eq, is_some, is_none, or_else, filter, find, any, take, contains, if◌then◌else◌,
}
use faststream_outbox.Base.Sort.{sort}
use faststream_outbox.Message.Types.{Headers, OutboxInnerMessage}
use faststream_outbox.Message.Scheduling.{resolve_next_attempt_client_side}
use faststream_outbox.Table.{
  Row, DlqRow, DlqPayload, Database, archive, row_to_message, key_of, holds, claim, is_timer,
}
use faststream_outbox.Client.{Claim, Reschedule, before_cutoff, in_queue, cancelable}

pub record FakeOutboxClient : Type 0 where
  pub dlq_enabled : Bool
  pub tables : Database
  pub open tables use *
  pub dispatchable : List Row

-- `_lease_token_matches` with a claim token that is not None.
abbrev pub lease_token_matches : Option ℕ → ℕ → Bool
lease_token_matches none claim_token = false
lease_token_matches (some t) claim_token = t == claim_token

-- Change the object with an id.
unfoldable pub update_row : ℕ → (Row → Row) → List Row → List Row
update_row id f = map (λ r. if r.id == id then f r else r)

unfoldable pub eligible : Claim → List String → Row → Bool
eligible c queues r =
    contains r.queue queues
    && (leb r.next_attempt_at c.now
        && (is_none r.acquired_token || before_cutoff r.acquired_at (c.now - c.lease_ttl)))

-- The loop of `fetch` over `eligible[:limit]`.
unfoldable pub claim_each : ℕ → Claim → List Row → List Row → List Row × List OutboxInnerMessage
unfolding update_row
claim_each monotonic c [] rows = (rows, [])
claim_each monotonic c (t ∷ ts) rows =
    let (rows', out) = claim_each monotonic c ts (update_row t.id (claim c.now c.token) rows) in
    (rows', row_to_message monotonic (claim c.now c.token t) ∷ out)

unfoldable pub fetch :
    ℕ → Claim → List String → FakeOutboxClient → FakeOutboxClient × List OutboxInnerMessage
unfolding eligible claim_each
fetch monotonic c [] k = (k, [])
fetch monotonic c (q ∷ qs) k =
    let (rows, out) =
      claim_each monotonic c (take c.limit (sort key_of (filter (eligible c (q ∷ qs)) k.rows)))
        k.rows in
    (record k { tables = record (k.tables) { rows = rows } }, out)

abbrev pub found : ℕ → ℕ → Row → Bool
found message_id token r = r.id == message_id && lease_token_matches r.acquired_token token

-- `del self._rows[i]` at the first row that passes the test.
unfoldable pub delete_first : (Row → Bool) → List Row → List Row
delete_first p [] = []
delete_first p (r ∷ rs) = if p r then rs else r ∷ delete_first p rs

-- The audit row that the loop of `delete_with_lease` appends for the row it found.
unfoldable pub audit : Bool → ℕ → Option DlqPayload → Row → Result (List DlqRow)
audit dlq_enabled now none r = ok []
audit dlq_enabled now (some payload) r =
    if dlq_enabled then ok (archive now payload r ∷ []) else raise Error.runtime_error

unfoldable pub delete_with_lease :
    ℕ → ℕ → ℕ → Option DlqPayload → FakeOutboxClient → Result (FakeOutboxClient × Bool)
unfolding delete_first audit
delete_with_lease now message_id token payload k = elim (find (found message_id token) k.rows) [
  | none ↦ ok (k, false)
  | some r ↦ do
    archived ← audit k.dlq_enabled now payload r
    ok (
      record k {
        tables = record (k.tables) {
          rows = delete_first (found message_id token) k.rows;
          dlq_rows = k.dlq_rows ++ archived;
        };
      },
      true,
    )
]

-- The test of the loop of `delete_batch_with_lease`.
abbrev pub in_pairs : List (ℕ × ℕ) → Row → Bool
in_pairs pairs r = any (λ p. found p.0 p.1 r) pairs

-- The loop runs from the last row to the first.
unfoldable pub delete_each : List (ℕ × ℕ) → List Row → List Row × List (ℕ × ℕ)
delete_each pairs [] = ([], [])
delete_each pairs (r ∷ rs) =
    let (kept, deleted) = delete_each pairs rs in
    elim r.acquired_token [
      | none ↦ (r ∷ kept, deleted)
      | some token ↦
          if in_pairs pairs r then (kept, deleted ++ (r.id, token) ∷ []) else (r ∷ kept, deleted)
    ]

unfoldable pub delete_batch_with_lease :
    List (ℕ × ℕ) → FakeOutboxClient → FakeOutboxClient × List (ℕ × ℕ)
unfolding delete_each
delete_batch_with_lease pairs k =
    let (rows, deleted) = delete_each pairs k.rows in
    (record k { tables = record (k.tables) { rows = rows } }, deleted)

-- Change the first object that passes the test.
unfoldable pub update_first : (Row → Bool) → (Row → Row) → List Row → List Row
update_first p f [] = []
update_first p f (r ∷ rs) = if p r then f r ∷ rs else r ∷ update_first p f rs

abbrev pub release : ℕ → Reschedule → Row → Row
release now s r = record r {
  next_attempt_at = now + pos_part s.delay_seconds;
  attempts_count = s.attempts_count;
  first_attempt_at = s.first_attempt_at;
  last_attempt_at = s.last_attempt_at;
  acquired_at = none;
  acquired_token = none;
}

unfoldable pub mark_pending_with_lease :
    ℕ → ℕ → ℕ → Reschedule → FakeOutboxClient → FakeOutboxClient × Bool
unfolding update_first
mark_pending_with_lease now message_id token s k = (
  record k {
    tables = record (k.tables) {
      rows = update_first (found message_id token) (release now s) k.rows;
    };
  },
  any (found message_id token) k.rows,
)

unfoldable pub cancel_timer :
    Bool → String → String → FakeOutboxClient → Result (FakeOutboxClient × Bool)
unfolding delete_first
cancel_timer is_session queue timer_id k = do
  raise_if (not is_session) Error.type_error
  ok (
    record k {
      tables = record (k.tables) { rows = delete_first (cancelable queue timer_id) k.rows };
    },
    any (cancelable queue timer_id) k.rows,
  )

unfoldable pub fetch_unprocessed :
    Bool → ℕ → Option String → ℤ → FakeOutboxClient → Result (List OutboxInnerMessage)
fetch_unprocessed is_session monotonic queue limit k = do
  raise_if (not is_session) Error.type_error
  raise_if (ltb_ℤ limit (pos 1)) Error.value_error
  ok (
      map (row_to_message monotonic)
        (take (pos_part limit) (filter (in_queue queue) (sort (λ r. (r.id, 0)) k.rows))))
