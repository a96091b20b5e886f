-- ===== src/Examples/Checking.antt =====
-- Tests of the model of schema_validation.py and autovacuum.py, and concrete cases of its theorems.
use faststream_outbox.Base.{
  ◌≡◌, ◌↔◌, refl, true, false, none, some, List, [], ◌∷◌, String, ok, ◌==◌, string_eq, map,
}
use faststream_outbox.Schema.Text.{normalize_predicate, strip_check}
use faststream_outbox.Schema.Probes.{IndexRow}
use faststream_outbox.Schema.Drift.{Op, Entry}
use faststream_outbox.Schema.Autovacuum.{autovacuum_findings, ddl_options}
use faststream_outbox.Schema.Autovacuum.Settings.{reloption, ddl_options-tuned}
use faststream_outbox.Schema.Validate.{Connection, TableName, Validation, validate_schema}
use faststream_outbox.Schema.Sound.{IsSound, validate_schema-IsSound}

abbrev lease_definition : String
lease_definition = "CHECK (((acquired_token IS NULL) = (acquired_at IS NULL)))"

lease_definition_lem :
    strip_check (normalize_predicate lease_definition)
    ≡ "acquired_token is null = acquired_at is null"
unfolding normalize_predicate strip_check
lease_definition_lem = refl

abbrev indexes : List IndexRow
indexes =
    record {
      index_name = "outbox_timer_id_uq";
      predicate = some "(timer_id IS NOT NULL)";
      is_unique = true;
    }
    ∷ record {
      index_name = "outbox_pending_idx";
      predicate = some "(acquired_token IS NULL)";
      is_unique = false;
    }
    ∷ []

-- A database whose only lack, by the diff, is given.
abbrev database : List Entry → List String → Connection
database diff checks = record {
  is_alembic_installed = true;
  compare_metadata = λ include canonical. diff;
  default_schema_name = some "public";
  resolve = λ name. some "public";
  index_rows = λ name schema. indexes;
  check_definitions = λ name schema. checks;
  reloptions = λ name schema. some (map reloption (ddl_options "1000" "1000" none none));
  is_zero = λ value. ok (value == "0");
}

abbrev outbox : TableName
outbox = record { name = "outbox"; schema = none }

abbrev healthy : Connection
healthy = database (Entry.nested (Op.remove_index ∷ []) ∷ []) (lease_definition ∷ [])

healthy_lem : validate_schema healthy outbox none true ≡ Validation.valid
unfolding validate_schema ddl_options
healthy_lem = refl

validate_schema-IsSound_example :
    (validate_schema healthy outbox none true ≡ Validation.valid) ↔ IsSound healthy outbox none true
validate_schema-IsSound_example = validate_schema-IsSound healthy outbox none true

ddl_options-tuned_example :
    autovacuum_findings
      (λ value. ok (value == "0"))
      "outbox"
      (some (map reloption (ddl_options "500" "1000" (some "0") none)))
    ≡ ok []
ddl_options-tuned_example =
    ddl_options-tuned (λ value. ok (value == "0")) "outbox" "500" "1000" (some "0") none refl
