-- ===== src/Schema/Autovacuum/Settings.antt =====
-- faststream_outbox/autovacuum.py: the probe of the settings against the statement that sets them.
use Prim.Native.String.{String, ◌++◌}
use Prim.Native.String.append.{nil as append-nil, cons as append-cons}
use Prim.Native.Char.{code, char}
use faststream_outbox.Base.{
  ◌≡◌, ◌↔◌, refl, ap, ◌>>=◌, if◌then◌else◌, some-inj, ok-inj, Bool, true, false, Option, none, some,
  List, [], ◌∷◌, map, Result, ok, raise, is_none, nat_eqb, not, ◌&&◌, ◌||◌, append-nil_iff, arith,
}
use faststream_outbox.Base.{◌++◌ as append}
use faststream_outbox.Publish.Envelope.{get, set}
use faststream_outbox.Schema.Autovacuum.{
  ddl_options, partition, parse_each, parse_reloptions, autovacuum_findings, scale_factor,
  insert_scale_factor, vacuum_threshold_key, insert_threshold_key, scale_finding, threshold_finding,
  IsTuned, Finding,
}

-- `pg_class.reloptions` after the statement: one `key=value` for each option.
abbrev pub reloption : String × String → String
reloption (key, value) = key ++ "=" ++ value

unfoldable pub has_separator : String → Bool
has_separator String.[] = false
has_separator (String.◌∷◌ c s) = nat_eqb (code c) 61 || has_separator s

partition-reloption :
    (key value : String)
    → has_separator key ≡ false
    → partition (key ++ "=" ++ value) ≡ (key, value)
unfolding has_separator partition
partition-reloption String.[] v h =
    rw (append-nil ("=" ++ v), append-cons (char 61 tt) "" v, append-nil v) refl
partition-reloption (String.◌∷◌ c k) v h =
    rw (append-cons c k ("=" ++ v)) (ground (arith, h, partition-reloption k v))

-- The dict of the options that have been read.
unfoldable set_each : List (String × String) → List (String × String) → List (String × String)
set_each [] parsed = parsed
set_each ((key, value) ∷ options) parsed = set_each options (set key value parsed)

abbrev separate : List (String × String) → Bool
separate [] = true
separate ((key, value) ∷ options) = not (has_separator key) && separate options

parse_each-set_each :
    (options parsed : List (String × String))
    → separate options ≡ true
    → parse_each (map reloption options) parsed ≡ set_each options parsed
unfolding parse_each set_each
parse_each-set_each [] parsed h = refl
parse_each-set_each ((key, value) ∷ options) parsed h =
    rw (partition-reloption key value (ground (arith, h)), parse_each)
      (parse_each-set_each options (set key value parsed) (ground (arith, h)))

-- A table on which the package's own statement was run, with any thresholds and cost settings, has
-- no finding, if "0" reads as zero.
pub ddl_options-tuned :
    (is_zero : String → Result Bool) (table vacuum_threshold insert_threshold : String)
    (delay limit : Option String)
    → is_zero "0" ≡ ok true
    → autovacuum_findings is_zero table
        (some (map reloption (ddl_options vacuum_threshold insert_threshold delay limit)))
      ≡ ok []
unfolding autovacuum_findings ddl_options parse_reloptions get set has_separator set_each
ddl_options-tuned is_zero table v i none none h =
    rw (parse_each-set_each (ddl_options v i none none) [] refl, h) refl
ddl_options-tuned is_zero table v i none (some l) h =
    rw (parse_each-set_each (ddl_options v i none (some l)) [] refl, h) refl
ddl_options-tuned is_zero table v i (some d) none h =
    rw (parse_each-set_each (ddl_options v i (some d) none) [] refl, h) refl
ddl_options-tuned is_zero table v i (some d) (some l) h =
    rw (parse_each-set_each (ddl_options v i (some d) (some l)) [] refl, h) refl

scale_finding_iff :
    (is_zero : String → Result Bool) (table key : String) (o : Option String)
    → (scale_finding is_zero table key o ≡ ok [])
      ↔ ((v : String) × ((o ≡ some v) × (is_zero v ≡ ok true)))
scale_finding_iff is_zero table key none =
    (λ h. absurd (ground (arith, h)), λ (v, h). absurd (ground (arith, h.0)))
scale_finding_iff is_zero table key (some w) =
    (λ h. (w, (refl, zero (is_zero w) h)), λ (v, h). rw (some-inj h.0, h.1) refl)
  where
    zero :
        (r : Result Bool)
        → (r >>= λ z. ok (if z then [] else Finding.scale_not_zero table key w ∷ [])) ≡ ok []
        → r ≡ ok true
    zero (raise e) h = absurd (ground (arith, h))
    zero (ok true) h = refl
    zero (ok false) h = absurd (ground (arith, h))

threshold_finding_iff :
    (table key : String) (o : Option String)
    → (threshold_finding table key o ≡ []) ↔ (is_none o ≡ false)
threshold_finding_iff table key none =
    (λ h. absurd (ground (arith, h)), λ h. absurd (ground (arith, h)))
threshold_finding_iff table key (some v) = (λ h. refl, λ h. refl)

-- Both loops find nothing.
both_iff :
    (r s : Result (List Finding)) (zs : List Finding)
    → ((r >>= λ xs. s >>= λ ys. ok (append xs (append ys zs))) ≡ ok [])
      ↔ ((r ≡ ok []) × ((s ≡ ok []) × (zs ≡ [])))
both_iff (raise e) s zs = (λ h. absurd (ground (arith, h)), λ h. absurd (ground (arith, h.0)))
both_iff (ok xs) (raise e) zs =
    (λ h. absurd (ground (arith, h)), λ h. absurd (ground (arith, h.1.0)))
both_iff (ok []) (ok []) zs = (λ h. (refl, (refl, ok-inj h)), λ h. ap ok h.1.1)
both_iff (ok []) (ok (y ∷ ys)) zs =
    (λ h. absurd (ground (arith, h)), λ h. absurd (ground (arith, h.1.0)))
both_iff (ok (x ∷ xs)) (ok ys) zs =
    (λ h. absurd (ground (arith, h)), λ h. absurd (ground (arith, h.0)))

pub autovacuum_findings_iff :
    (is_zero : String → Result Bool) (table : String) (reloptions : Option (List String))
    → (autovacuum_findings is_zero table reloptions ≡ ok [])
      ↔ IsTuned is_zero (parse_reloptions reloptions)
unfolding autovacuum_findings
autovacuum_findings_iff is_zero table reloptions =
    let options = parse_reloptions reloptions in
    let scale = scale_finding_iff is_zero table scale_factor (get scale_factor options) in
    let insert =
      scale_finding_iff is_zero table insert_scale_factor (get insert_scale_factor options) in
    let threshold =
      threshold_finding_iff table vacuum_threshold_key (get vacuum_threshold_key options) in
    let insert_threshold =
      threshold_finding_iff table insert_threshold_key (get insert_threshold_key options) in
    let split =
      append-nil_iff
        (threshold_finding table vacuum_threshold_key (get vacuum_threshold_key options))
        (threshold_finding table insert_threshold_key (get insert_threshold_key options)) in
    let parts =
      both_iff (scale_finding is_zero table scale_factor (get scale_factor options))
        (scale_finding is_zero table insert_scale_factor (get insert_scale_factor options))
        (append (threshold_finding table vacuum_threshold_key (get vacuum_threshold_key options))
          (threshold_finding table insert_threshold_key (get insert_threshold_key options))) in
    (
      λ h.
          let p = parts.0 h in
          record {
            scale = scale.0 p.0;
            insert_scale = insert.0 p.1.0;
            threshold = threshold.0 (split.0 p.1.1).0;
            insert_threshold = insert_threshold.0 (split.0 p.1.1).1;
          },
      λ t. parts.1 (
        scale.1 t.scale,
        (
          insert.1 t.insert_scale,
          split.1 (threshold.1 t.threshold, insert_threshold.1 t.insert_threshold),
        ),
      ),
    )
