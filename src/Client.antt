-- ===== src/Client.antt =====
-- faststream_outbox/client.py, class OutboxClient: each statement that it builds, read as what it
-- does to the tables. `now` is the database's clock. A statement that cannot run (a broken
-- connection) is no part of this module: faststream_outbox/subscriber takes its client as an
-- interface whose calls may raise.
pub mod Insert
pub mod Fetch
pub mod Valid
pub mod Timers
use faststream_outbox.Base.{
  ℕ, suc, ◌+◌, ◌-◌, Bool, true, false, not, ◌&&◌, ◌||◌, Option, none, some, List, [], ◌∷◌, ◌++◌,
  map, String, ℤ, pos, pos_part, ltb_ℤ, Result, ok, raise, Error, raise_if, ◌>>=◌, ◌>>◌, ltb, leb,
  ◌==◌, nat_eq, string_eq, is_some, is_none, or_else, filter, any, take, contains, if◌then◌else◌,
}
use faststream_outbox.Base.Sort.{sort}
use faststream_outbox.Message.Types.{Headers, OutboxInnerMessage}
use faststream_outbox.Table.{
  Row, DlqPayload, Database, archive, row_to_message, key_of, holds, claim, is_timer,
}

-- The lease predicates of `_claimable_branches`. SQL's `NULL < x` is not true.
abbrev pub unleased : Row → Bool
unleased r = is_none r.acquired_token

abbrev pub before_cutoff : Option ℕ → ℕ → Bool
before_cutoff none cutoff = false
before_cutoff (some t) cutoff = ltb t cutoff

abbrev pub lease_expired : ℕ → Row → Bool
lease_expired cutoff r = is_some r.acquired_token && before_cutoff r.acquired_at cutoff

-- `SELECT DISTINCT`.
unfoldable pub distinct : List String → List String
distinct [] = []
distinct (q ∷ qs) = if contains q qs then distinct qs else q ∷ distinct qs

-- A claim's parameters. `locked` says which rows other transactions hold (`SKIP LOCKED`).
pub record Claim : Type 0 where
  pub now : ℕ
  pub limit : ℕ
  pub lease_ttl : ℕ
  pub token : ℕ
  pub locked : ℕ → Bool

-- The `LATERAL` scan of one queue under one lease predicate.
unfoldable pub scan : Claim → (Row → Bool) → List Row → String → List (ℕ × ℕ)
scan c lease_state rows q = take c.limit (
    sort (λ k. k)
      (map key_of (
        filter
          (λ r.
            r.queue == q && (leb r.next_attempt_at c.now && (lease_state r && not (c.locked r.id))))
          rows)))

-- A branch joins the scans of all queues.
unfoldable pub branch : Claim → (Row → Bool) → List Row → List String → List (ℕ × ℕ)
branch c lease_state rows [] = []
branch c lease_state rows (q ∷ qs) = scan c lease_state rows q ++ branch c lease_state rows qs

-- The CTE `ready` of `_build_fetch_stmt`.
unfoldable pub ready : Claim → List Row → List String → List (ℕ × ℕ)
ready c rows queues = take c.limit (
    sort (λ k. k)
      (branch c unleased rows (distinct queues)
        ++ branch c (lease_expired (c.now - c.lease_ttl)) rows (distinct queues)))

abbrev pub ids : List (ℕ × ℕ) → List ℕ
ids = map (λ k. k.1)

-- `UPDATE ... WHERE id IN (...)`.
unfoldable pub claim_rows : Claim → List ℕ → List Row → List Row
claim_rows c chosen = map (λ r. if contains r.id chosen then claim c.now c.token r else r)

abbrev pub message_key : OutboxInnerMessage → ℕ × ℕ
message_key m = (m.next_attempt_at, m.id)

-- `live` is whether there is a connection, `monotonic` the worker's clock.
unfoldable pub fetch :
    Bool → ℕ → Claim → List String → Database → Result (Database × List OutboxInnerMessage)
unfolding claim_rows
fetch live monotonic c [] db = raise_if (not live) Error.type_error >> ok (db, [])
fetch live monotonic c (q ∷ qs) db =
    let chosen = ids (ready c db.rows (q ∷ qs)) in
    let rows = claim_rows c chosen db.rows in
    let returned = filter (λ r. contains r.id chosen) rows in
    raise_if (not live) Error.type_error
    >> ok (record db { rows = rows }, sort message_key (map (row_to_message monotonic) returned))

-- `WHERE id = :message_id AND acquired_token = :acquired_token`.
abbrev pub guarded : ℕ → ℕ → Row → Bool
guarded message_id token r = r.id == message_id && holds r.acquired_token token

unfoldable pub delete_guarded : ℕ → ℕ → Database → Database × Bool
delete_guarded message_id token db = (
  record db { rows = filter (λ r. not (guarded message_id token r)) db.rows },
  any (guarded message_id token) db.rows,
)

-- The CTE of `_build_dlq_cte`: what the DELETE returns is inserted into the DLQ.
unfoldable pub delete_archived : ℕ → DlqPayload → ℕ → ℕ → Database → Database × Bool
unfolding delete_guarded
delete_archived now payload message_id token db =
    let (deleted, done) = delete_guarded message_id token db in
    (
      record deleted {
        dlq_rows =
            db.dlq_rows ++ map (archive now payload) (filter (guarded message_id token) db.rows);
      },
      done,
    )

unfoldable pub delete_with_lease :
    Bool → Bool → ℕ → ℕ → ℕ → Option DlqPayload → Database → Result (Database × Bool)
delete_with_lease live has_dlq now message_id token none db = do
  raise_if (not live) Error.type_error
  ok (delete_guarded message_id token db)
delete_with_lease live has_dlq now message_id token (some payload) db = do
  raise_if (not live) Error.type_error
  raise_if (not has_dlq) Error.runtime_error
  ok (delete_archived now payload message_id token db)

-- `(id, acquired_token)` is one of the wanted pairs.
abbrev pub wanted : List (ℕ × ℕ) → Row → Bool
wanted pairs r = any (λ p. guarded p.0 p.1 r) pairs

-- What `RETURNING id, acquired_token` sends back.
unfoldable pub returned_pairs : List (ℕ × ℕ) → List Row → List (ℕ × ℕ)
returned_pairs pairs [] = []
returned_pairs pairs (r ∷ rs) = elim r.acquired_token [
  | none ↦ returned_pairs pairs rs
  | some token ↦
      if wanted pairs r then (r.id, token) ∷ returned_pairs pairs rs else returned_pairs pairs rs
]

unfoldable pub delete_batch_with_lease :
    Bool → List (ℕ × ℕ) → Database → Result (Database × List (ℕ × ℕ))
delete_batch_with_lease live [] db = raise_if (not live) Error.type_error >> ok (db, [])
delete_batch_with_lease live (p ∷ ps) db =
    raise_if (not live) Error.type_error
    >> ok (
      record db { rows = filter (λ r. not (wanted (p ∷ ps) r)) db.rows },
      returned_pairs (p ∷ ps) db.rows,
    )

-- What a retry writes: the new schedule, the attempts, and no lease.
pub record Reschedule : Type 0 where
  pub delay_seconds : ℤ
  pub attempts_count : ℕ
  pub first_attempt_at : Option ℕ
  pub last_attempt_at : Option ℕ

unfoldable pub reschedule : ℕ → Reschedule → Row → Row
reschedule now s r = record r {
  next_attempt_at = now + pos_part s.delay_seconds;
  attempts_count = s.attempts_count;
  first_attempt_at = s.first_attempt_at;
  last_attempt_at = s.last_attempt_at;
  acquired_at = none;
  acquired_token = none;
}

unfoldable pub mark_pending_with_lease :
    Bool → ℕ → ℕ → ℕ → Reschedule → Database → Result (Database × Bool)
mark_pending_with_lease live now message_id token s db = do
  raise_if (not live) Error.type_error
  ok (
    record db {
      rows = map (λ r. if guarded message_id token r then reschedule now s r else r) db.rows;
    },
    any (guarded message_id token) db.rows,
  )

-- A timer row that no worker has leased.
abbrev pub cancelable : String → String → Row → Bool
cancelable queue timer_id r =
    r.queue == queue && (is_timer r.timer_id timer_id && is_none r.acquired_token)

-- `is_session` is `require_session_or_connection`'s test of the caller's session.
unfoldable pub cancel_timer : Bool → String → String → Database → Result (Database × Bool)
cancel_timer is_session queue timer_id db = do
  raise_if (not is_session) Error.type_error
  ok (
    record db { rows = filter (λ r. not (cancelable queue timer_id r)) db.rows },
    any (cancelable queue timer_id) db.rows,
  )

abbrev pub in_queue : Option String → Row → Bool
in_queue none r = true
in_queue (some q) r = r.queue == q

unfoldable pub fetch_unprocessed :
    Bool → ℕ → Option String → ℤ → Database → Result (List OutboxInnerMessage)
fetch_unprocessed is_session monotonic queue limit db = do
  raise_if (not is_session) Error.type_error
  raise_if (ltb_ℤ limit (pos 1)) Error.value_error
  ok (
      map (row_to_message monotonic)
        (take (pos_part limit) (sort (λ r. (r.id, 0)) (filter (in_queue queue) db.rows))))
