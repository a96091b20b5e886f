-- ===== src/Schema/Autovacuum.antt =====
-- faststream_outbox/autovacuum.py: the statement that tunes the table, and the probe of what is set.
-- `quote` of SQLAlchemy and `float(value) != 0.0`, which may raise, are parameters.
pub mod Settings
use Prim.Native.String.{String, ◌++◌}
use Prim.Native.Char.{Char, code}
use faststream_outbox.Base.{
  ℕ, zero, suc, ◌≡◌, ◌↔◌, refl, ap, Bool, true, false, not, ◌&&◌, Option, none, some, List, [], ◌∷◌,
  map, Result, ok, raise, ◌>>=◌, nat_eqb, ◌==◌, string_eq, eq_iff, is_none, if◌then◌else◌, arith,
}
use faststream_outbox.Base.{◌++◌ as append}
use faststream_outbox.Publish.Envelope.{get, set}
use faststream_outbox.Schema.Text.{join}

abbrev pub scale_factor : String
scale_factor = "autovacuum_vacuum_scale_factor"

abbrev pub insert_scale_factor : String
insert_scale_factor = "autovacuum_vacuum_insert_scale_factor"

abbrev pub vacuum_threshold_key : String
vacuum_threshold_key = "autovacuum_vacuum_threshold"

abbrev pub insert_threshold_key : String
insert_threshold_key = "autovacuum_vacuum_insert_threshold"

-- A setting of an optional knob, which is left out where it is not given.
abbrev pub knob : String → Option String → List (String × String)
knob key none = []
knob key (some v) = (key, v) ∷ []

-- The options of the statement, with the numbers already printed.
unfoldable pub ddl_options :
    (vacuum_threshold insert_threshold : String)
    → (vacuum_cost_delay vacuum_cost_limit : Option String) → List (String × String)
ddl_options vacuum_threshold insert_threshold vacuum_cost_delay vacuum_cost_limit =
    append
      ((scale_factor, "0")
        ∷ (vacuum_threshold_key, vacuum_threshold)
        ∷ (insert_scale_factor, "0")
        ∷ (insert_threshold_key, insert_threshold)
        ∷ [])
      (append (knob "autovacuum_vacuum_cost_delay" vacuum_cost_delay)
        (knob "autovacuum_vacuum_cost_limit" vacuum_cost_limit))

abbrev pub quoted_name : (String → String) → Option String → String → String
quoted_name quote none table = quote table
quoted_name quote (some schema) table = quote schema ++ "." ++ quote table

unfoldable pub outbox_autovacuum_ddl :
    (String → String)
    → String
    → Option String
    → (vacuum_threshold insert_threshold : String)
    → (vacuum_cost_delay vacuum_cost_limit : Option String) → String
unfolding ddl_options join
outbox_autovacuum_ddl quote table schema vacuum_threshold insert_threshold delay limit =
    "ALTER TABLE "
    ++ quoted_name quote schema table
    ++ " SET ("
    ++ join ", " (
        map (λ (key, value). key ++ " = " ++ value)
          (ddl_options vacuum_threshold insert_threshold delay limit))
    ++ ")"

-- `item.partition("=")`, without the separator.
unfoldable pub partition : String → String × String
partition String.[] = ("", "")
partition (String.◌∷◌ c s) =
    if nat_eqb (code c) 61 then ("", s) else (String.◌∷◌ c (partition s).0, (partition s).1)

-- The loop of `_parse_reloptions`, on the dict so far.
unfoldable pub parse_each : List String → List (String × String) → List (String × String)
unfolding partition set
parse_each [] parsed = parsed
parse_each (item ∷ items) parsed =
    parse_each items (set (partition item).0 (partition item).1 parsed)

unfoldable pub parse_reloptions : Option (List String) → List (String × String)
unfolding parse_each
parse_reloptions none = []
parse_reloptions (some items) = parse_each items []

pub data Finding : Type 0 where
  scale_unset : (table key : String) → Finding
  scale_not_zero : (table key value : String) → Finding
  threshold_unset : (table key : String) → Finding

abbrev pub scale_finding :
    (String → Result Bool) → String → String → Option String → Result (List Finding)
scale_finding is_zero table key none = ok (Finding.scale_unset table key ∷ [])
scale_finding is_zero table key (some value) = do
  z ← is_zero value
  ok (if z then [] else Finding.scale_not_zero table key value ∷ [])

abbrev pub threshold_finding : String → String → Option String → List Finding
threshold_finding table key none = Finding.threshold_unset table key ∷ []
threshold_finding table key (some value) = []

unfoldable pub autovacuum_findings :
    (String → Result Bool) → String → Option (List String) → Result (List Finding)
unfolding parse_reloptions get
autovacuum_findings is_zero table reloptions = do
  let options = parse_reloptions reloptions
  vacuum ← scale_finding is_zero table scale_factor (get scale_factor options)
  insert ← scale_finding is_zero table insert_scale_factor (get insert_scale_factor options)
  ok (
      append vacuum (
        append insert (
          append (threshold_finding table vacuum_threshold_key (get vacuum_threshold_key options))
            (threshold_finding table insert_threshold_key (get insert_threshold_key options)))))

-- A table on which both scale factors are zero and both thresholds are set.
pub record IsTuned (is_zero : String → Result Bool) (options : List (String × String))
    : Type 0 where
  pub scale : (v : String) × ((get scale_factor options ≡ some v) × (is_zero v ≡ ok true))
  pub insert_scale :
      (v : String) × ((get insert_scale_factor options ≡ some v) × (is_zero v ≡ ok true))
  pub threshold : is_none (get vacuum_threshold_key options) ≡ false
  pub insert_threshold : is_none (get insert_threshold_key options) ≡ false
