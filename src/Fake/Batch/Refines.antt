-- ===== src/Fake/Batch/Refines.antt =====
-- faststream_outbox/testing.py: the batch insert of the fake client stores what the batch INSERT of
-- the client does.
use Prim.Native.String.{String}
use mathlib.Core.List.{append-nil, append_assoc}
use faststream_outbox.Base.{
  ℕ, ◌≡◌, refl, sym, ap, ◌∙◌, Option, none, some, List, [], ◌∷◌, ◌++◌, ℤ, ok, or_else,
}
use faststream_outbox.Message.Types.{Headers}
use faststream_outbox.Message.Scheduling.{resolve_next_attempt_client_side}
use faststream_outbox.Table.{Row, Database}
use faststream_outbox.Client.Insert.{append_batch, append_row, fresh_row}
use faststream_outbox.Fake.{FakeOutboxClient}
use faststream_outbox.Fake.Insert.{append_object, new_object}
use faststream_outbox.Fake.Batch.{new_row, validate_each, append_each, fake_insert_batch}

-- The tables are those that the statement leaves, and the same rows are due for dispatch.
pub record IsStored (k l : FakeOutboxClient) (db : Database) : Type 0 where
  pub tables : l.tables ≡ db
  pub stored : List Row
  pub rows : l.rows ≡ k.rows ++ stored
  pub dispatchable : l.dispatchable ≡ k.dispatchable ++ stored

append_object-append_row :
    (utc : ℕ) (next : Option ℕ) (queue : String) (row : List ℕ × Option Headers)
    (k : FakeOutboxClient)
    → (append_object utc (or_else next utc) (new_row queue row) k).0.tables
      ≡ (append_row utc next (new_row queue row) k.tables).0
unfolding append_object append_row new_object fresh_row
append_object-append_row utc none queue row k = refl
append_object-append_row utc (some t) queue row k = refl

append_each-IsStored :
    (utc : ℕ) (next : Option ℕ) (queue : String) (rows : List (List ℕ × Option Headers))
    (k : FakeOutboxClient)
    → IsStored k
        (append_each utc (or_else next utc) queue rows k)
        (append_batch utc next queue rows k.tables)
unfolding append_each append_batch
append_each-IsStored utc next queue [] k = record {
  tables = refl;
  stored = [];
  rows = sym (append-nil k.rows);
  dispatchable = sym (append-nil k.dispatchable);
}
append_each-IsStored utc next queue ((payload, headers) ∷ rows) k =
    let first = (append_object utc (or_else next utc) (new_row queue (payload, headers)) k).0 in
    let rest = append_each-IsStored utc next queue rows first in
    let row = new_object utc k.next_id (or_else next utc) (new_row queue (payload, headers)) in
    record {
      tables =
          rest.tables
          ∙ ap (append_batch utc next queue rows)
              (append_object-append_row utc next queue (payload, headers) k);
      stored = row ∷ rest.stored;
      rows = rest.rows ∙ append_assoc k.rows (row ∷ []) rest.stored;
      dispatchable = rest.dispatchable ∙ append_assoc k.dispatchable (row ∷ []) rest.stored;
    }

-- A batch within the column limits, at an activation time that resolves, leaves the tables that the
-- batch INSERT leaves at the same time, and exactly its rows are added to those due for dispatch.
pub batch_refines :
    (utc : ℕ) (activate_in : Option ℤ) (activate_at next : Option ℕ) (queue : String)
    (rows : List (List ℕ × Option Headers)) (k : FakeOutboxClient)
    → validate_each queue rows ≡ ok tt
    → resolve_next_attempt_client_side activate_in activate_at utc ≡ ok next
    → (l : FakeOutboxClient) × ((fake_insert_batch utc activate_in activate_at queue rows k ≡ ok l)
        × IsStored k l (append_batch utc next queue rows k.tables))
unfolding fake_insert_batch
batch_refines utc activate_in activate_at next queue rows k v h = (
  append_each utc (or_else next utc) queue rows k,
  (rw (v, h) refl, append_each-IsStored utc next queue rows k),
)
