-- ===== src/Table/Identifiers.antt =====
-- faststream_outbox/schema.py, `validate_table_identifiers`: Postgres cuts identifiers at 63 bytes.
use Prim.Native.String.{String, ◌++◌, len}
use faststream_outbox.Base.{
  ℕ, ◌≤◌, ◌≡◌, ◌↔◌, List, [], ◌∷◌, Result, ok, Error, raise_if, ltb, All, if◌then◌else◌, Bool-cases,
  inl, inr, arith,
}

abbrev pub postgres_ident_max_bytes : ℕ
postgres_ident_max_bytes = 63

-- The identifiers that a table's name gives rise to.
unfoldable pub derived : String → List String
derived table_name =
    ("outbox_" ++ table_name)
    ∷ (table_name ++ "_pending_idx")
    ∷ (table_name ++ "_timer_id_uq")
    ∷ (table_name ++ "_leased_idx")
    ∷ (table_name ++ "_lease_ck")
    ∷ []

-- `max(derived, key=len)`: the first of the longest.
unfoldable pub longest : String → List String → String
longest s [] = s
longest s (t ∷ ts) = if ltb (len s) (len t) then longest t ts else longest s ts

abbrev pub longest_of : List String → String
longest_of [] = ""
longest_of (s ∷ ss) = longest s ss

unfoldable pub validate_table_identifiers : String → Result (Unit {0})
unfolding derived longest
validate_table_identifiers table_name =
    raise_if (ltb postgres_ident_max_bytes (len (longest_of (derived table_name))))
      Error.value_error

longest-fits :
    (n : ℕ) (s : String) (ss : List String)
    → (len (longest s ss) ≤ n) ↔ ((len s ≤ n) × All (λ t. len t ≤ n) ss)
unfolding longest
longest-fits n s [] = ((λ h. (h, tt)), λ h. h.0)
longest-fits n s (t ∷ ts) = elim (Bool-cases (ltb (len s) (len t))) [
  | inl e ↦
      rw (e, longest)
        (
          (λ h. let k = (longest-fits n t ts).0 h in (ground (arith, k.0), (k.0, k.1))),
          λ h. (longest-fits n t ts).1 (h.1.0, h.1.1),
        )
  | inr e ↦
      rw (e, longest)
        (
          (λ h. let k = (longest-fits n s ts).0 h in (k.0, (ground (arith, k.0), k.1))),
          λ h. (longest-fits n s ts).1 (h.0, h.1.1),
        )
]

-- A table's name is accepted exactly if every identifier derived from it, the NOTIFY channel and
-- the names of its indexes and of its CHECK, has at most 63 bytes.
pub validate_table_identifiers_iff :
    (table_name : String)
    → (validate_table_identifiers table_name ≡ ok tt)
      ↔ All (λ i. len i ≤ postgres_ident_max_bytes) (derived table_name)
unfolding validate_table_identifiers derived
validate_table_identifiers_iff t = (
  λ h.
      (longest-fits 63 ("outbox_" ++ t) others).0
        (checked (len (longest ("outbox_" ++ t) others)) h),
  λ h.
      accepted (len (longest ("outbox_" ++ t) others))
        ((longest-fits 63 ("outbox_" ++ t) others).1 h),
)
  where
    others : List String
    others =
        (t ++ "_pending_idx")
        ∷ (t ++ "_timer_id_uq")
        ∷ (t ++ "_leased_idx")
        ∷ (t ++ "_lease_ck")
        ∷ []

    checked : (n : ℕ) → raise_if (ltb 63 n) Error.value_error ≡ ok tt → n ≤ 63
    checked n h = ground arith

    accepted : (n : ℕ) → n ≤ 63 → raise_if (ltb 63 n) Error.value_error ≡ ok tt
    accepted n h = ground arith
