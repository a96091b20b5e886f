-- ===== src/Schema/Drift.antt =====
-- faststream_outbox/schema_validation.py, the diff of Alembic: which of its operations are errors,
-- and what it is asked to look at. `compare_metadata` of Alembic is a parameter.
pub mod Lacking
use faststream_outbox.Base.{
  ◌≡◌, ◌↔◌, refl, ap, Bool, true, false, Option, none, some, List, [], ◌∷◌, ◌++◌, String, Result,
  ok, raise, Error, ◌==◌, string_eq, if◌then◌else◌, any, not, ◌&&◌, ◌||◌, is_none, arith,
}
use faststream_outbox.Schema.Text.{ends_with}

-- What is read of a SQLAlchemy `Index`; `unique` is its truth value.
pub record Index : Type 0 where
  pub columns : List String
  pub name : String
  pub unique : Bool

-- An operation of the diff, with the entries of its tuple that are read.
pub data Op : Type 0 where
  add_table remove_table remove_column remove_index add_constraint remove_constraint : Op
  add_column : (column : String) → Op
  modify_type : (column existing expected : String) → Op
  modify_nullable : (column : String) → Op
  add_index : Index → Op
  other_op : (name : String) → Op

-- Operations on the columns and indexes of one table come as a list.
pub data Entry : Type 0 where
  single : Op → Entry
  nested : List Op → Entry

-- The pointer that an error about an index ends with.
pub data Upgrade : Type 0 where
  no_pointer pending_idx_upgrade leased_idx_upgrade : Upgrade

pub data DriftError : Type 0 where
  no_table : (table : String) → DriftError
  missing_column : (table column : String) → DriftError
  type_mismatch : (table column expected got : String) → DriftError
  nullability_mismatch : (table column : String) → DriftError
  missing_index : (table : String) → Index → Upgrade → DriftError

unfoldable pub upgrade : String → Upgrade
unfolding ends_with
upgrade name =
    if ends_with name "_pending_idx"
    then Upgrade.pending_idx_upgrade
    else if ends_with name "_leased_idx"
    then Upgrade.leased_idx_upgrade
    else Upgrade.no_pointer

unfoldable pub drift_entry_to_error : Op → String → Option DriftError
unfolding upgrade
drift_entry_to_error Op.add_table table = some (DriftError.no_table table)
drift_entry_to_error (Op.add_column c) table = some (DriftError.missing_column table c)
drift_entry_to_error (Op.modify_type c existing expected) table =
    some (DriftError.type_mismatch table c expected existing)
drift_entry_to_error (Op.modify_nullable c) table = some (DriftError.nullability_mismatch table c)
drift_entry_to_error (Op.add_index i) table =
    some (DriftError.missing_index table i (upgrade i.name))
drift_entry_to_error _ table = none

abbrev pub push : Option DriftError → List DriftError → List DriftError
push none errors = errors
push (some e) errors = errors ++ e ∷ []

unfoldable pub flatten_nested : List Op → String → List DriftError → List DriftError
unfolding drift_entry_to_error
flatten_nested [] table errors = errors
flatten_nested (o ∷ os) table errors =
    flatten_nested os table (push (drift_entry_to_error o table) errors)

-- The loop of `_flatten_drift_errors`, on the errors so far.
unfoldable pub flatten_each : List Entry → String → List DriftError → List DriftError
unfolding flatten_nested drift_entry_to_error
flatten_each [] table errors = errors
flatten_each (Entry.nested os ∷ es) table errors =
    flatten_each es table (flatten_nested os table errors)
flatten_each (Entry.single o ∷ es) table errors =
    flatten_each es table (push (drift_entry_to_error o table) errors)

unfoldable pub flatten_drift_errors : List Entry → String → List DriftError
unfolding flatten_each
flatten_drift_errors diff table = flatten_each diff table []

pub data NameType : Type 0 where
  schema_name table_name other_name : NameType

abbrev eq_option : Option String → Option String → Bool
eq_option none none = true
eq_option (some a) (some b) = a == b
eq_option _ _ = false

-- The database's default schema goes by no name.
unfoldable pub target_schema : Option String → Option String → Option String
target_schema schema default_schema = if eq_option schema default_schema then none else schema

-- `parent` is `parent_names.get("table_name")`.
unfoldable pub include_name :
    String → Option String → Option String → NameType → Option String → Bool
include_name table target name NameType.schema_name parent = eq_option name target
include_name table target name NameType.table_name parent = eq_option name (some table)
include_name table target name NameType.other_name parent = eq_option parent (some table)

pub data Factory : Type 0 where
  make_outbox_table make_dlq_table : Factory

-- The canonical table, alone in its metadata.
pub record Canonical : Type 0 where
  pub factory : Factory
  pub schema : Option String
  pub name : String

-- What the validation asks Alembic: the filter on names and the canonical table.
abbrev pub CompareMetadata : Type 0
CompareMetadata = (Option String → NameType → Option String → Bool) → Canonical → List Entry

unfoldable pub run_validate :
    Bool
    → CompareMetadata
    → Option String
    → String
    → Option String
    → Factory
    → Result (List DriftError)
unfolding flatten_drift_errors include_name target_schema
run_validate is_alembic_installed compare_metadata default_schema table schema factory =
    if is_alembic_installed
    then ok (
        flatten_drift_errors
          (compare_metadata (include_name table (target_schema schema default_schema))
            (record { factory = factory; schema = schema; name = table }))
          table)
    else raise Error.import_error

abbrev pub is_empty {ℓ} : {A : Type ℓ} → List A → Bool
is_empty [] = true
is_empty (x ∷ xs) = false
