-- ===== src/Schema/Sound.antt =====
-- faststream_outbox/schema_validation.py: what a validation that raises nothing has found.
use faststream_outbox.Base.{
  ◌≡◌, ◌↔◌, refl, Bool, true, false, Option, none, some, List, [], ◌∷◌, map, String, Result, ok,
  raise, contains, any, string_eq, append-nil_iff, arith,
}
use faststream_outbox.Schema.Text.{normalize_predicate, strip_check}
use faststream_outbox.Schema.Probes.{
  ProbeError, validate_index_predicates, validate_check_constraints, validate_index_predicates_iff,
  validate_check_constraints_iff,
}
use faststream_outbox.Schema.Probes.Named.{HasIndexes, expected_indexes-HasIndexes}
use faststream_outbox.Schema.Drift.{DriftError, Factory, include_name, target_schema}
use faststream_outbox.Schema.Drift.Lacking.{is_lacking, all_ops, run_validate_iff}
use faststream_outbox.Schema.Autovacuum.{Finding, IsTuned, parse_reloptions}
use faststream_outbox.Schema.Autovacuum.Settings.{autovacuum_findings_iff}
use faststream_outbox.Schema.Validate.{
  Connection, TableName, Validation, verdict, resolve_schema, blind_errors, dlq_errors,
  autovacuum_errors, compose_schema_mismatch_message, report, run_on, validate_schema,
}

-- The diff of the table against the canonical one, by the database's schema of that name.
abbrev HasShape : Connection → TableName → Factory → Type 0
HasShape c t factory =
    any is_lacking (
      all_ops (
        c.compare_metadata
          (include_name t.name (target_schema (resolve_schema c t) c.default_schema_name))
          (record { factory = factory; schema = resolve_schema c t; name = t.name })))
    ≡ false

-- The audit table has its shape, where there is one.
abbrev DlqHasShape : Connection → Option TableName → Type 0
DlqHasShape c none = Unit
DlqHasShape c (some t) = (c.is_alembic_installed ≡ true) × HasShape c t Factory.make_dlq_table

-- The vacuum is tuned, where that is checked.
abbrev Tuned : Connection → TableName → Bool → Type 0
Tuned c t false = Unit
Tuned c t true = IsTuned c.is_zero (parse_reloptions (c.reloptions t.name (resolve_schema c t)))

-- What a validation looks for in a database. The server defaults of columns are no part of it.
pub record IsSound (c : Connection) (t : TableName) (dlq : Option TableName) (check : Bool)
    : Type 0 where
  pub installed : c.is_alembic_installed ≡ true
  pub shape : HasShape c t Factory.make_outbox_table
  pub indexes : HasIndexes t.name (c.index_rows t.name (resolve_schema c t))
  pub lease :
      contains "acquired_token is null = acquired_at is null" (
        map
          (λ d. strip_check (normalize_predicate d))
          (c.check_definitions t.name (resolve_schema c t)))
      ≡ true
  pub dlq_shape : DlqHasShape c dlq
  pub tuned : Tuned c t check

verdict_iff :
    (d : Result (List DriftError)) (b : List ProbeError) (q : Result (List DriftError))
    (a : Result (List Finding))
    → (verdict (report d b q a) ≡ Validation.valid)
      ↔ ((d ≡ ok []) × ((b ≡ []) × ((q ≡ ok []) × (a ≡ ok []))))
unfolding report compose_schema_mismatch_message
verdict_iff (raise e) b q a = (λ h. absurd (ground (arith, h)), λ h. absurd (ground (arith, h.0)))
verdict_iff (ok d) b (raise e) a =
    (λ h. absurd (ground (arith, h)), λ h. absurd (ground (arith, h.1.1.0)))
verdict_iff (ok d) b (ok q) (raise e) =
    (λ h. absurd (ground (arith, h)), λ h. absurd (ground (arith, h.1.1.1)))
verdict_iff (ok []) [] (ok []) (ok []) = (λ h. (refl, (refl, (refl, refl))), λ h. refl)
verdict_iff (ok []) [] (ok []) (ok (x ∷ a)) =
    (λ h. absurd (ground (arith, h)), λ h. absurd (ground (arith, h.1.1.1)))
verdict_iff (ok []) [] (ok (x ∷ q)) (ok a) =
    (λ h. absurd (ground (arith, h)), λ h. absurd (ground (arith, h.1.1.0)))
verdict_iff (ok []) (x ∷ b) (ok q) (ok a) =
    (λ h. absurd (ground (arith, h)), λ h. absurd (ground (arith, h.1.0)))
verdict_iff (ok (x ∷ d)) b (ok q) (ok a) =
    (λ h. absurd (ground (arith, h)), λ h. absurd (ground (arith, h.0)))

blind_errors_iff :
    (c : Connection) (t : TableName) (schema : Option String)
    → (blind_errors c t schema ≡ []) ↔ (
        HasIndexes t.name (c.index_rows t.name schema)
        × (contains "acquired_token is null = acquired_at is null"
              (map (λ d. strip_check (normalize_predicate d)) (c.check_definitions t.name schema))
            ≡ true))
unfolding blind_errors
blind_errors_iff c t schema =
    let split =
      append-nil_iff (validate_index_predicates t.name (c.index_rows t.name schema))
        (validate_check_constraints t.name (c.check_definitions t.name schema)) in
    let indexes = validate_index_predicates_iff t.name (c.index_rows t.name schema) in
    let named = expected_indexes-HasIndexes t.name (c.index_rows t.name schema) in
    let lease = validate_check_constraints_iff t.name (c.check_definitions t.name schema) in
    (
      λ h. (named.0 (indexes.0 (split.0 h).0), lease.0 (split.0 h).1),
      λ h. split.1 (indexes.1 (named.1 h.0), lease.1 h.1),
    )

dlq_errors_iff :
    (c : Connection) (dlq : Option TableName) → (dlq_errors c dlq ≡ ok []) ↔ DlqHasShape c dlq
unfolding dlq_errors
dlq_errors_iff c none = (λ h. tt, λ h. refl)
dlq_errors_iff c (some t) =
    run_validate_iff c.is_alembic_installed c.compare_metadata c.default_schema_name t.name
      (resolve_schema c t) Factory.make_dlq_table

autovacuum_errors_iff :
    (c : Connection) (t : TableName) (check : Bool)
    → (autovacuum_errors c t (resolve_schema c t) check ≡ ok []) ↔ Tuned c t check
unfolding autovacuum_errors
autovacuum_errors_iff c t false = (λ h. tt, λ h. refl)
autovacuum_errors_iff c t true =
    autovacuum_findings_iff c.is_zero t.name (c.reloptions t.name (resolve_schema c t))

-- A validation raises nothing exactly if Alembic is installed and its diff of the table has nothing
-- that the table lacks or has in another shape, each of the three partial indexes that is there has
-- its predicate and the one of the timers is unique, the texts of predicates being normalized as the
-- code does, some CHECK enforces the lease, the audit table if there is one has its shape, and, where
-- that is checked, both scale factors are zero and both thresholds are set.
pub validate_schema-IsSound :
    (c : Connection) (t : TableName) (dlq : Option TableName) (check : Bool)
    → (validate_schema c t dlq check ≡ Validation.valid) ↔ IsSound c t dlq check
unfolding validate_schema
validate_schema-IsSound c t dlq check =
    let schema = resolve_schema c t in
    let parts =
      verdict_iff (run_on c t schema Factory.make_outbox_table) (blind_errors c t schema)
        (dlq_errors c dlq) (autovacuum_errors c t schema check) in
    let shape =
      run_validate_iff c.is_alembic_installed c.compare_metadata c.default_schema_name t.name schema
        Factory.make_outbox_table in
    let blind = blind_errors_iff c t schema in
    let vacuum = autovacuum_errors_iff c t check in
    let audit = dlq_errors_iff c dlq in
    (
      λ h.
          let p = parts.0 h in
          record {
            installed = (shape.0 p.0).0;
            shape = (shape.0 p.0).1;
            indexes = (blind.0 p.1.0).0;
            lease = (blind.0 p.1.0).1;
            dlq_shape = audit.0 p.1.1.0;
            tuned = vacuum.0 p.1.1.1;
          },
      λ s. parts.1 (
        shape.1 (s.installed, s.shape),
        (blind.1 (s.indexes, s.lease), (audit.1 s.dlq_shape, vacuum.1 s.tuned)),
      ),
    )
