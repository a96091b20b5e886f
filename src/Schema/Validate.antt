-- ===== src/Schema/Validate.antt =====
-- faststream_outbox/schema_validation.py, `validate_schema`: what a connection answers is a parameter.
use faststream_outbox.Base.{
  Bool, true, false, Option, none, some, List, [], ◌∷◌, map, String, not, ◌&&◌, is_none, Result, ok,
  raise, Error, ◌>>=◌, if◌then◌else◌,
}
use faststream_outbox.Base.{◌++◌ as append}
use faststream_outbox.Schema.Probes.{
  IndexRow, ProbeError, validate_index_predicates, validate_check_constraints,
}
use faststream_outbox.Schema.Drift.{CompareMetadata, DriftError, Factory, run_validate, is_empty}
use faststream_outbox.Schema.Autovacuum.{Finding, autovacuum_findings}

-- What the connection to the database and Alembic answer.
pub record Connection : Type 0 where
  pub is_alembic_installed : Bool
  pub compare_metadata : CompareMetadata
  pub default_schema_name : Option String
  pub resolve : String → Option String
  pub index_rows : String → Option String → List IndexRow
  pub check_definitions : String → Option String → List String
  pub reloptions : String → Option String → Option (List String)
  pub is_zero : String → Result Bool

-- A `Table`, with the schema that its metadata names.
pub record TableName : Type 0 where
  pub name : String
  pub schema : Option String

pub data SchemaError : Type 0 where
  drift : DriftError → SchemaError
  probe : ProbeError → SchemaError

-- The text of the RuntimeError: `pointer` is whether it ends with `_AUTOGEN_BLIND_HINT`.
pub record Mismatch : Type 0 where
  pub errors : List SchemaError
  pub pointer : Bool

pub record Message : Type 0 where
  pub mismatch : Option Mismatch
  pub autovacuum : List Finding

-- A RuntimeError carries its message.
pub data Validation : Type 0 where
  valid : Validation
  runtime_error : Message → Validation
  failed : Error → Validation

unfoldable pub resolve_schema : Connection → TableName → Option String
resolve_schema c t = elim t.schema [ some s ↦ some s | none ↦ c.resolve t.name ]

unfoldable pub compose_schema_mismatch_message : List SchemaError → Bool → Option Mismatch
compose_schema_mismatch_message [] blind = none
compose_schema_mismatch_message (e ∷ es) blind = some (record { errors = e ∷ es; pointer = blind })

unfoldable pub blind_errors : Connection → TableName → Option String → List ProbeError
unfolding validate_index_predicates validate_check_constraints
blind_errors c t schema =
    append (validate_index_predicates t.name (c.index_rows t.name schema))
      (validate_check_constraints t.name (c.check_definitions t.name schema))

-- `_validate_schema_sync` and `_validate_dlq_schema_sync`.
abbrev pub run_on : Connection → TableName → Option String → Factory → Result (List DriftError)
unfolding run_validate
run_on c t schema factory =
    run_validate c.is_alembic_installed c.compare_metadata c.default_schema_name t.name schema
      factory

unfoldable pub dlq_errors : Connection → Option TableName → Result (List DriftError)
unfolding run_validate resolve_schema
dlq_errors c none = ok []
dlq_errors c (some t) = run_on c t (resolve_schema c t) Factory.make_dlq_table

unfoldable pub autovacuum_errors :
    Connection → TableName → Option String → Bool → Result (List Finding)
unfolding autovacuum_findings
autovacuum_errors c t schema false = ok []
autovacuum_errors c t schema true =
    autovacuum_findings c.is_zero t.name (c.reloptions t.name schema)

abbrev pub verdict : Result Message → Validation
verdict (raise e) = Validation.failed e
verdict (ok m) =
    if is_none m.mismatch && is_empty m.autovacuum
    then Validation.valid
    else Validation.runtime_error m

-- The message of all that the parts found; the first part that raises ends the validation.
unfoldable pub report :
    Result (List DriftError)
    → List ProbeError
    → Result (List DriftError)
    → Result (List Finding)
    → Result Message
unfolding compose_schema_mismatch_message
report diff blind dlq autovacuum = do
  errors ← diff
  more ← dlq
  untuned ← autovacuum
  ok (record {
    mismatch =
        compose_schema_mismatch_message
          (append (map SchemaError.drift errors)
            (append (map SchemaError.probe blind) (map SchemaError.drift more)))
          (not (is_empty blind));
    autovacuum = untuned;
  })

unfoldable pub validate_schema : Connection → TableName → Option TableName → Bool → Validation
unfolding run_validate resolve_schema blind_errors dlq_errors autovacuum_errors report
validate_schema c t dlq_table check_autovacuum = verdict (
    report (run_on c t (resolve_schema c t) Factory.make_outbox_table)
      (blind_errors c t (resolve_schema c t)) (dlq_errors c dlq_table)
      (autovacuum_errors c t (resolve_schema c t) check_autovacuum))
