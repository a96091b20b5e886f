-- ===== src/Lease.antt =====
-- The lease protocol that the statements of faststream_outbox/client.py make up: workers, timers
-- and publishers on many hosts, as one sequence of statements on the tables. Postgres runs each
-- statement whole, so every interleaving of their clients is such a sequence.
pub mod Stale
pub mod Exclusion
pub mod Valid
pub mod Survival
use faststream_outbox.Base.{
  ℕ, Bool, true, Option, none, some, List, [], ◌∷◌, String, Result, ok, raise,
}
use faststream_outbox.Table.{DlqPayload, Database}
use faststream_outbox.Client
use faststream_outbox.Client.{Claim, Reschedule}
use faststream_outbox.Client.Insert.{TimerConflict, NewRow, run_insert}

pub data Call : Type 0 where
  fetches : Claim → List String → Call
  deletes : Bool → ℕ → ℕ → ℕ → Option DlqPayload → Call
  deletes_batch : List (ℕ × ℕ) → Call
  reschedules : ℕ → ℕ → ℕ → Reschedule → Call
  cancels : String → String → Call
  publishes : TimerConflict → ℕ → Option ℕ → NewRow → Call

-- A statement that is refused changes nothing.
abbrev pub outcome {ℓ} : {A : Type ℓ} → Database → Result (Database × A) → Database
outcome db (ok (db', a)) = db'
outcome db (raise e) = db

unfoldable pub step : Call → Database → Database
step (fetches c queues) db = outcome db (Client.fetch true 0 c queues db)
step (deletes has_dlq now message_id token payload) db =
    outcome db (Client.delete_with_lease true has_dlq now message_id token payload db)
step (deletes_batch pairs) db = outcome db (Client.delete_batch_with_lease true pairs db)
step (reschedules now message_id token s) db =
    outcome db (Client.mark_pending_with_lease true now message_id token s db)
step (cancels queue timer) db = outcome db (Client.cancel_timer true queue timer db)
step (publishes conflict now next n) db = (run_insert conflict now next n db).0

unfoldable pub run : List Call → Database → Database
run [] db = db
run (c ∷ cs) db = run cs (step c db)
