-- ===== src/Client/Insert.antt =====
-- faststream_outbox/client.py, class _OutboxInserter: the INSERT of one row or of a batch on the
-- caller's session, its ON CONFLICT variants for timers, and the NOTIFY that goes with it. `now` is
-- the database's clock and `utc` the client's. A time outside `datetime`'s range is refused.
pub mod Notify
use faststream_outbox.Base.{
  ℕ, ◌+◌, Bool, false, not, ◌&&◌, Option, none, some, List, [], ◌∷◌, ◌++◌, map, String, ℤ, Result,
  ok, ◌>>=◌, ltb, ◌==◌, nat_eq, string_eq, max, is_some, or_else, find, contains, if◌then◌else◌,
}
use faststream_outbox.Message.Types.{Headers}
use faststream_outbox.Message.Scheduling.{shift, is_future_dated, resolve_next_attempt_client_side}
use faststream_outbox.Table.{Row, Database, is_timer}

pub data TimerConflict : Type 0 where
  ignore extend : TimerConflict

-- The row that a publish asks for.
pub record NewRow : Type 0 where
  pub queue : String
  pub payload : List ℕ
  pub headers : Option Headers
  pub timer_id : Option String

unfoldable pub fresh_row : ℕ → ℕ → Option ℕ → NewRow → Row
fresh_row now id next n = record {
  id = id;
  queue = n.queue;
  payload = n.payload;
  headers = n.headers;
  attempts_count = 0;
  deliveries_count = 0;
  created_at = now;
  next_attempt_at = or_else next now;
  first_attempt_at = none;
  last_attempt_at = none;
  acquired_at = none;
  acquired_token = none;
  timer_id = n.timer_id;
}

-- The arbiter of ON CONFLICT: the partial unique index on `(queue, timer_id)`.
abbrev pub conflicts : String → String → Row → Bool
conflicts queue timer r = r.queue == queue && is_timer r.timer_id timer

-- The SET list of the extend variant, under its `later` test.
unfoldable pub extend_row : ℕ → NewRow → Row → Row
extend_row next n r =
    let later = ltb r.next_attempt_at next in
    record r {
      next_attempt_at = max r.next_attempt_at next;
      payload = if later then n.payload else r.payload;
      headers = if later then n.headers else r.headers;
      attempts_count = if later then 0 else r.attempts_count;
      first_attempt_at = if later then none else r.first_attempt_at;
      last_attempt_at = if later then none else r.last_attempt_at;
    }

-- `next_id` is drawn before the conflict is met, so a conflict leaves a gap.
abbrev pub draw : Database → Database
draw db = record db { next_id = db.next_id + 1 }

unfoldable pub append_row : ℕ → Option ℕ → NewRow → Database → Database × Option ℕ
append_row now next n db = (
  record db { rows = db.rows ++ fresh_row now db.next_id next n ∷ []; next_id = db.next_id + 1 },
  some db.next_id,
)

-- The row that a conflict meets: `ON CONFLICT DO UPDATE ... WHERE acquired_token IS NULL`.
unfoldable pub extend_conflict : ℕ → String → NewRow → Row → Database → Database × Option ℕ
extend_conflict next timer n live db = if is_some live.acquired_token then (draw db, none) else (
  record db {
    rows = map (λ r. if conflicts n.queue timer r then extend_row next n r else r) db.rows;
    next_id = db.next_id + 1;
  },
  some live.id,
)

unfoldable pub on_conflict :
    TimerConflict → ℕ → Option ℕ → String → NewRow → Row → Database → Database × Option ℕ
unfolding extend_conflict
on_conflict ignore now next timer n live db = (draw db, none)
on_conflict extend now next timer n live db = extend_conflict (or_else next now) timer n live db

-- One of the statements of `_build_insert_stmts`, run.
unfoldable pub run_insert : TimerConflict → ℕ → Option ℕ → NewRow → Database → Database × Option ℕ
unfolding append_row on_conflict
run_insert conflict now next n db = elim n.timer_id [
  | none ↦ append_row now next n db
  | some timer ↦ elim (find (conflicts n.queue timer) db.rows) [
    | none ↦ append_row now next n db
    | some live ↦ on_conflict conflict now next timer n live db
  ]
]

-- The queues notified in each transaction, known by its number.
abbrev pub Notified : Type 0
Notified = List (ℕ × List String)

abbrev pub notified_in : ℕ → Notified → List String
notified_in txn [] = []
notified_in txn ((t, qs) ∷ rest) = if t == txn then qs else notified_in txn rest

abbrev pub note : ℕ → String → Notified → Notified
note txn queue [] = (txn, queue ∷ []) ∷ []
note txn queue ((t, qs) ∷ rest) =
    if t == txn then (t, queue ∷ qs) ∷ rest else (t, qs) ∷ note txn queue rest

-- A session shows its innermost transaction before and after the INSERT (autobegin opens one).
pub record Session : Type 0 where
  pub before : Option ℕ
  pub after : Option ℕ

abbrev pub already : Option ℕ → String → Notified → Bool
already none queue memo = false
already (some txn) queue memo = contains queue (notified_in txn memo)

abbrev pub remember : Option ℕ → String → Notified → Notified
remember none queue memo = memo
remember (some txn) queue memo = note txn queue memo

-- The tables, the memo of the inserter, and the NOTIFYs sent, latest last.
pub record Publishing : Type 0 where
  pub db : Database
  pub notified : Notified
  pub sent : List String

unfoldable pub next_attempt : ℕ → Option ℤ → Option ℕ → Result (Option ℕ)
next_attempt now (some activate_in) activate_at = do t ← shift now activate_in; ok (some t)
next_attempt now none activate_at = ok activate_at

pub record Schedule : Type 0 where
  pub activate_in : Option ℤ
  pub activate_at : Option ℕ
  pub timer_conflict : TimerConflict

unfoldable pub insert :
    ℕ → ℕ → Session → Schedule → NewRow → Publishing → Result (Publishing × Option ℕ)
unfolding run_insert next_attempt
insert now utc session s n p = do
  next ← next_attempt now s.activate_in s.activate_at
  let notify =
      not (is_future_dated s.activate_in s.activate_at utc)
      && not (already session.before n.queue p.notified)
  let result = run_insert s.timer_conflict now next n p.db
  let fired = notify && is_some result.1
  ok (
    record {
      db = result.0;
      notified = if fired then remember session.after n.queue p.notified else p.notified;
      sent = if fired then p.sent ++ n.queue ∷ [] else p.sent;
    },
    result.1,
  )

unfoldable pub append_batch :
    ℕ → Option ℕ → String → List (List ℕ × Option Headers) → Database → Database
unfolding append_row
append_batch now next queue [] db = db
append_batch now next queue ((payload, headers) ∷ rows) db =
    append_batch now next queue rows
      (append_row now next
        (record { queue = queue; payload = payload; headers = headers; timer_id = none }) db).0

-- `_notify`, after the batch has run.
unfoldable pub notify : Session → String → Publishing → Publishing
notify session queue p = if already session.after queue p.notified then p else record p {
  notified = remember session.after queue p.notified;
  sent = p.sent ++ queue ∷ [];
}

unfoldable pub insert_batch :
    ℕ
    → ℕ
    → Session
    → Option ℤ
    → Option ℕ
    → String
    → List (List ℕ × Option Headers)
    → Publishing
    → Result Publishing
unfolding append_batch notify
insert_batch now utc session activate_in activate_at queue rows p = do
  next ← resolve_next_attempt_client_side activate_in activate_at utc
  let p' = record p { db = append_batch now next queue rows p.db }
  ok (if is_future_dated activate_in activate_at utc then p' else notify session queue p')
