-- ===== src/Schema/Drift/Lacking.antt =====
-- faststream_outbox/schema_validation.py: which diffs of Alembic pass.
use faststream_outbox.Base.{
  ◌≡◌, ◌↔◌, refl, ap, ok-inj, Bool, true, false, Option, none, some, List, [], ◌∷◌, ◌++◌, String,
  ok, string_eq, any, not, ◌&&◌, ◌||◌, is_none, arith,
}
use faststream_outbox.Schema.Drift.{
  Op, Entry, DriftError, drift_entry_to_error, push, flatten_nested, flatten_each,
  flatten_drift_errors, include_name, target_schema, Factory, CompareMetadata, run_validate,
  is_empty,
}

-- What the database lacks or has in another shape, as opposed to what it has besides.
abbrev pub is_lacking : Op → Bool
is_lacking Op.add_table = true
is_lacking (Op.add_column c) = true
is_lacking (Op.modify_type c existing expected) = true
is_lacking (Op.modify_nullable c) = true
is_lacking (Op.add_index i) = true
is_lacking _ = false

abbrev pub entry_ops : Entry → List Op
entry_ops (Entry.single o) = o ∷ []
entry_ops (Entry.nested os) = os

abbrev pub all_ops : List Entry → List Op
all_ops [] = []
all_ops (e ∷ es) = entry_ops e ++ all_ops es

is_empty-append : (xs : List DriftError) (e : DriftError) → is_empty (xs ++ e ∷ []) ≡ false
is_empty-append [] e = refl
is_empty-append (x ∷ xs) e = refl

drift-is_lacking : (o : Op) (t : String) → is_none (drift_entry_to_error o t) ≡ not (is_lacking o)
unfolding drift_entry_to_error
drift-is_lacking Op.add_table t = refl
drift-is_lacking (Op.add_column c) t = refl
drift-is_lacking (Op.modify_type c e x) t = refl
drift-is_lacking (Op.modify_nullable c) t = refl
drift-is_lacking (Op.add_index i) t = refl
drift-is_lacking Op.remove_table t = refl
drift-is_lacking Op.remove_column t = refl
drift-is_lacking Op.remove_index t = refl
drift-is_lacking Op.add_constraint t = refl
drift-is_lacking Op.remove_constraint t = refl
drift-is_lacking (Op.other_op n) t = refl

is_empty-push :
    (o : Option DriftError) (es : List DriftError)
    → is_empty (push o es) ≡ (is_empty es && is_none o)
is_empty-push none es = ground arith
is_empty-push (some e) es = ground (arith, is_empty-append es e)

flatten_nested_lem :
    (os : List Op) (t : String) (errors : List DriftError)
    → is_empty (flatten_nested os t errors) ≡ (is_empty errors && not (any is_lacking os))
unfolding flatten_nested
flatten_nested_lem [] t errors = ground arith
flatten_nested_lem (o ∷ os) t errors =
    let errors' = push (drift_entry_to_error o t) errors in
    ground (
      arith,
      flatten_nested_lem os t errors',
      is_empty-push (drift_entry_to_error o t) errors,
      drift-is_lacking o t,
    )

any-append :
    (os ps : List Op) → any is_lacking (os ++ ps) ≡ (any is_lacking os || any is_lacking ps)
any-append [] ps = refl
any-append (o ∷ os) ps = ground (arith, any-append os ps)

flatten_each_lem :
    (es : List Entry) (t : String) (errors : List DriftError)
    → is_empty (flatten_each es t errors) ≡ (is_empty errors && not (any is_lacking (all_ops es)))
unfolding flatten_each
flatten_each_lem [] t errors = ground arith
flatten_each_lem (Entry.nested os ∷ es) t errors = ground (
  arith,
  flatten_each_lem es t (flatten_nested os t errors),
  flatten_nested_lem os t errors,
  any-append os (all_ops es),
)
flatten_each_lem (Entry.single o ∷ es) t errors =
    let errors' = push (drift_entry_to_error o t) errors in
    ground (
      arith,
      flatten_each_lem es t errors',
      is_empty-push (drift_entry_to_error o t) errors,
      drift-is_lacking o t,
    )

is_empty_iff {ℓ} : {A : Type ℓ} (xs : List A) → (is_empty xs ≡ true) ↔ (xs ≡ [])
is_empty_iff [] = (λ h. refl, λ h. refl)
is_empty_iff (x ∷ xs) = (λ h. absurd (ground (arith, h)), λ h. absurd (ground (arith, h)))

-- The diff gives no error exactly if no operation in it, in whatever nesting, is for something that
-- the database lacks or has in another shape.
pub flatten_drift_errors_iff :
    (diff : List Entry) (table : String)
    → (flatten_drift_errors diff table ≡ []) ↔ (any is_lacking (all_ops diff) ≡ false)
unfolding flatten_drift_errors
flatten_drift_errors_iff diff t = (
  λ h. ground (arith, (is_empty_iff (flatten_each diff t [])).1 h, flatten_each_lem diff t []),
  λ h. (is_empty_iff (flatten_each diff t [])).0 (ground (arith, h, flatten_each_lem diff t [])),
)

pub run_validate_iff :
    (is_alembic_installed : Bool) (compare_metadata : CompareMetadata)
    (default_schema : Option String) (table : String) (schema : Option String) (factory : Factory)
    → (run_validate is_alembic_installed compare_metadata default_schema table schema factory
        ≡ ok [])
      ↔ ((is_alembic_installed ≡ true)
          × (any is_lacking (
                all_ops (
                  compare_metadata
                    (include_name table (target_schema schema default_schema))
                    (record { factory = factory; schema = schema; name = table })))
              ≡ false))
unfolding run_validate
run_validate_iff true compare d t s f =
    let lacking =
      flatten_drift_errors_iff
        (compare (include_name t (target_schema s d))
          (record { factory = f; schema = s; name = t }))
        t in
    (λ h. (refl, lacking.0 (ok-inj h)), λ h. ap ok (lacking.1 h.1))
run_validate_iff false compare d t s f =
    (λ h. absurd (ground (arith, h)), λ h. absurd (ground (arith, h.0)))
