-- ===== src/Fake/Writes.antt =====
-- The fake's lease-guarded writes and reads refine those of OutboxClient.
use mathlib.Core.Path.{fun_ext}
use faststream_outbox.Base.{
  ℕ, ◌≡◌, ◌≢◌, refl, sym, ap, ◌∙◌, true, false, not, ◌&&◌, ◌⊎◌, Option, none, some, List, [], ◌∷◌,
  ok, map_result, ◌==◌, nat_eq, string_eq, is_some, filter, find, any, All, arith, All-map_of,
}
use mathlib.Core.List.{append-nil}
use faststream_outbox.Table.{Row, DlqPayload, Database, holds}
use faststream_outbox.Table.Rows.{UniqueIds}
use faststream_outbox.Client
use faststream_outbox.Client.{Reschedule, guarded, wanted, cancelable, in_queue}
use faststream_outbox.Fake.{FakeOutboxClient, lease_token_matches, found, in_pairs}
use faststream_outbox.Fake
use faststream_outbox.Fake.First.{
  AtMostOne, delete_first_lem, update_first_lem, find-filter, find-any, delete_first_absent,
  matched,
}

matches-holds : (o : Option ℕ) (t : ℕ) → lease_token_matches o t ≡ holds o t
matches-holds none t = refl
matches-holds (some s) t = refl

pub found-guarded : (message_id token : ℕ) → found message_id token ≡ guarded message_id token
found-guarded message_id token =
    fun_ext (λ r. ap (λ b. r.id == message_id && b) (matches-holds r.acquired_token token))

one_guarded :
    (message_id token : ℕ) (rows : List Row)
    → UniqueIds rows
    → AtMostOne (guarded message_id token) rows
one_guarded m t [] u = tt
one_guarded m t (r ∷ rs) u = (apart rs u.0, one_guarded m t rs u.1)
  where
    apart :
        (ss : List Row)
        → All (λ s. r.id ≢ s.id) ss
        → All (λ s. (guarded m t r && guarded m t s) ≡ false) ss
    apart ss h =
        All-map_of (λ s. r.id ≢ s.id) (λ s. (guarded m t r && guarded m t s) ≡ false)
          (λ s d. ground arith) ss h

abbrev pub tables_of {ℓ} : {A : Type ℓ} → FakeOutboxClient × A → Database × A
tables_of (k, a) = (k.tables, a)

-- On rows with unique ids, a delete by the fake leaves the tables and returns the answer that
-- OutboxClient.delete_with_lease does, errors included. This is where the DLQ is enabled, or no audit
-- copy is asked for, or the token still holds the row: without a DLQ, a copy asked for on a lost lease
-- raises in OutboxClient only.
pub delete_refines :
    (now message_id token : ℕ) (payload : Option DlqPayload) (k : FakeOutboxClient)
    → UniqueIds k.rows
    → (k.dlq_enabled ≡ true) ⊎ ((payload ≡ none) ⊎ (any (guarded message_id token) k.rows ≡ true))
    → Client.delete_with_lease true k.dlq_enabled now message_id token payload k.tables
      ≡ map_result tables_of (Fake.delete_with_lease now message_id token payload k)
unfolding Client.delete_with_lease Client.delete_guarded Client.delete_archived
    Fake.delete_with_lease
delete_refines now message_id token payload k u d =
    ground (arith, find_as, first_as, filtered, answered, unchanged, append-nil k.dlq_rows)
  where
    one : AtMostOne (guarded message_id token) k.rows
    one = one_guarded message_id token k.rows u

    find_as : find (found message_id token) k.rows ≡ find (guarded message_id token) k.rows
    find_as = ap (λ p. find p k.rows) (found-guarded message_id token)

    first_as :
        Fake.delete_first (found message_id token) k.rows
        ≡ filter (λ r. not (guarded message_id token r)) k.rows
    first_as =
        ap (λ p. Fake.delete_first p k.rows) (found-guarded message_id token)
        ∙ delete_first_lem (guarded message_id token) k.rows one

    filtered :
        filter (guarded message_id token) k.rows
        ≡ matched (guarded message_id token) (find (guarded message_id token) k.rows)
    filtered = find-filter (guarded message_id token) k.rows one

    answered :
        any (guarded message_id token) k.rows ≡ is_some (find (guarded message_id token) k.rows)
    answered = find-any (guarded message_id token) k.rows

    unchanged :
        find (guarded message_id token) k.rows ≡ none
        → filter (λ r. not (guarded message_id token r)) k.rows ≡ k.rows
    unchanged e =
        sym (delete_first_lem (guarded message_id token) k.rows one)
        ∙ delete_first_absent (guarded message_id token) k.rows e

-- On rows with unique ids, a reschedule by the fake does what OutboxClient.mark_pending_with_lease
-- does.
pub mark_pending_refines :
    (now message_id token : ℕ) (s : Reschedule) (k : FakeOutboxClient)
    → UniqueIds k.rows
    → Client.mark_pending_with_lease true now message_id token s k.tables
      ≡ ok (tables_of (Fake.mark_pending_with_lease now message_id token s k))
unfolding Client.mark_pending_with_lease Client.reschedule Fake.mark_pending_with_lease
mark_pending_refines now message_id token s k u = rw (
  found-guarded message_id token,
  update_first_lem (guarded message_id token) (Fake.release now s) k.rows
      (one_guarded message_id token k.rows u),
)
