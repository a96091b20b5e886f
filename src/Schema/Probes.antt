-- ===== src/Schema/Probes.antt =====
-- faststream_outbox/schema_validation.py, the two probes of the catalog: the predicates of the
-- partial indexes, and the CHECK of the lease. A finding is the data that its message is printed from.
pub mod Named
use Prim.Native.String.{◌++◌}
use faststream_outbox.Base.{
  ◌≡◌, ◌↔◌, refl, ap, some-inj, ◌∙◌, Bool, true, false, not, ◌&&◌, Option, none, some, List, [],
  ◌∷◌, map, String, ◌==◌, string_eq, eq_iff, contains, if◌then◌else◌, Bool-cases, append-nil_iff,
  inl, inr, All, arith,
}
use faststream_outbox.Base.{◌++◌ as append}
use faststream_outbox.Schema.Text.{normalize_predicate, strip_check}

-- A row of `_INDEX_PREDICATE_QUERY`.
pub record IndexRow : Type 0 where
  pub index_name : String
  pub predicate : Option String
  pub is_unique : Bool

pub data ProbeError : Type 0 where
  not_partial : (name want : String) → ProbeError
  wrong_predicate : (name want got : String) → ProbeError
  not_unique : (name : String) → ProbeError
  missing_check : (want name : String) → ProbeError

-- An entry of `_EXPECTED_INDEX_PREDICATES`, with whether `_EXPECTED_UNIQUE_INDEXES` has its suffix.
pub record Expected : Type 0 where
  pub suffix : String
  pub want : String
  pub unique : Bool

unfoldable pub expected_indexes : List Expected
expected_indexes =
    record { suffix = "_pending_idx"; want = "acquired_token is null"; unique = false }
    ∷ record { suffix = "_timer_id_uq"; want = "timer_id is not null"; unique = true }
    ∷ record { suffix = "_leased_idx"; want = "acquired_token is not null"; unique = false }
    ∷ []

-- `live.get(name)`: of two rows with one name, the dict holds the later.
unfoldable pub live : String → List IndexRow → Option IndexRow
live name [] = none
live name (r ∷ rs) =
    let later = live name rs in
    elim later [ some l ↦ some l | none ↦ if r.index_name == name then some r else none ]

abbrev pub predicate_errors : String → String → Option String → List ProbeError
predicate_errors name want none = ProbeError.not_partial name want ∷ []
predicate_errors name want (some p) =
    if normalize_predicate p == want
    then []
    else ProbeError.wrong_predicate name want (normalize_predicate p) ∷ []

-- The errors of one expected index; an absent one is left to the diff.
unfoldable pub index_errors : String → Expected → Option IndexRow → List ProbeError
index_errors name e none = []
index_errors name e (some r) =
    append (predicate_errors name e.want r.predicate)
      (if e.unique && not r.is_unique then ProbeError.not_unique name ∷ [] else [])

unfoldable pub collect_index_errors : String → List IndexRow → List Expected → List ProbeError
unfolding live index_errors
collect_index_errors table rows [] = []
collect_index_errors table rows (e ∷ es) =
    append (index_errors (table ++ e.suffix) e (live (table ++ e.suffix) rows))
      (collect_index_errors table rows es)

unfoldable pub validate_index_predicates : String → List IndexRow → List ProbeError
unfolding collect_index_errors expected_indexes
validate_index_predicates table rows = collect_index_errors table rows expected_indexes

abbrev pub lease_check : String
lease_check = "acquired_token is null = acquired_at is null"

-- `definitions` are those of the table's CHECK constraints, under any name.
unfoldable pub validate_check_constraints : String → List String → List ProbeError
unfolding strip_check normalize_predicate
validate_check_constraints table definitions =
    if contains lease_check (map (λ d. strip_check (normalize_predicate d)) definitions)
    then []
    else ProbeError.missing_check lease_check (table ++ "_lease_ck") ∷ []

-- An index that serves the statements that rely on it: partial by the expected predicate, and
-- unique where the conflict clause of the timers infers it.
abbrev pub Serves : Expected → Option IndexRow → Type 0
Serves e none = Unit
Serves e (some r) =
    ((p : String) × ((r.predicate ≡ some p) × (normalize_predicate p ≡ e.want)))
    × ((e.unique && not r.is_unique) ≡ false)

predicate_errors_iff :
    (name want : String) (o : Option String)
    → (predicate_errors name want o ≡ [])
      ↔ ((p : String) × ((o ≡ some p) × (normalize_predicate p ≡ want)))
predicate_errors_iff name want none =
    (λ h. absurd (ground arith), λ (p, h). absurd (ground (arith, h.0)))
predicate_errors_iff name want (some p) = elim (Bool-cases (normalize_predicate p == want)) [
  | inl e ↦ rw e (λ h. (p, (refl, (eq_iff _ _).0 e)), λ h. refl)
  | inr e ↦ rw e (λ h. absurd (ground (arith, h)), λ (q, h). absurd (ground (arith, e, wrong q h)))
]
  where
    wrong :
        (q : String)
        → (some p ≡ some q) × (normalize_predicate q ≡ want)
        → (normalize_predicate p == want) ≡ true
    wrong q h = (eq_iff _ _).1 (ap normalize_predicate (some-inj h.0) ∙ h.1)

index_errors_iff :
    (name : String) (e : Expected) (o : Option IndexRow) → (index_errors name e o ≡ []) ↔ Serves e o
unfolding index_errors
index_errors_iff name e none = (λ h. tt, λ h. refl)
index_errors_iff name e (some r) =
    let split =
      append-nil_iff (predicate_errors name e.want r.predicate)
        (unique_error (e.unique && not r.is_unique)) in
    let partial = predicate_errors_iff name e.want r.predicate in
    (
      λ h. (partial.0 (split.0 h).0, no_error (e.unique && not r.is_unique) (split.0 h).1),
      λ h. split.1 (partial.1 h.0, none_due (e.unique && not r.is_unique) h.1),
    )
  where
    unique_error : Bool → List ProbeError
    unique_error b = if b then ProbeError.not_unique name ∷ [] else []

    no_error : (b : Bool) → unique_error b ≡ [] → b ≡ false
    no_error true h = absurd (ground (arith, h))
    no_error false h = refl

    none_due : (b : Bool) → b ≡ false → unique_error b ≡ []
    none_due b h = rw h refl

pub collect_index_errors_iff :
    (table : String) (rows : List IndexRow) (es : List Expected)
    → (collect_index_errors table rows es ≡ [])
      ↔ All (λ e. Serves e (live (table ++ e.suffix) rows)) es
unfolding collect_index_errors
collect_index_errors_iff table rows [] = (λ h. tt, λ h. refl)
collect_index_errors_iff table rows (e ∷ es) =
    let split =
      append-nil_iff (index_errors (table ++ e.suffix) e (live (table ++ e.suffix) rows))
        (collect_index_errors table rows es) in
    let here = index_errors_iff (table ++ e.suffix) e (live (table ++ e.suffix) rows) in
    let later = collect_index_errors_iff table rows es in
    (λ h. (here.0 (split.0 h).0, later.0 (split.0 h).1), λ h. split.1 (here.1 h.0, later.1 h.1))

pub validate_index_predicates_iff :
    (table : String) (rows : List IndexRow)
    → (validate_index_predicates table rows ≡ [])
      ↔ All (λ e. Serves e (live (table ++ e.suffix) rows)) expected_indexes
unfolding validate_index_predicates
validate_index_predicates_iff table rows = collect_index_errors_iff table rows expected_indexes

pub validate_check_constraints_iff :
    (table : String) (definitions : List String)
    → (validate_check_constraints table definitions ≡ [])
      ↔ (contains lease_check (map (λ d. strip_check (normalize_predicate d)) definitions) ≡ true)
unfolding validate_check_constraints
validate_check_constraints_iff table definitions =
    found (contains lease_check (map (λ d. strip_check (normalize_predicate d)) definitions))
  where
    missing : List ProbeError
    missing = ProbeError.missing_check lease_check (table ++ "_lease_ck") ∷ []

    found : (b : Bool) → ((if b then [] else missing) ≡ []) ↔ (b ≡ true)
    found true = (λ h. refl, λ h. refl)
    found false = (λ h. absurd (ground (arith, h)), λ h. absurd (ground (arith, h)))
