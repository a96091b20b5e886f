-- ===== src/Subscriber/Truncate.antt =====
-- faststream_outbox/subscriber/usecase.py, `_truncate_str`: the bound on a rendered exception.
use Prim.Native.String.{String, [], ◌∷◌, ◌++◌, count}
use Prim.Native.String.count.{cons as count-cons}
use Prim.Native.String.append.{nil as append-nil, cons as append-cons}
use faststream_outbox.Base.{
  ℕ, zero, suc, ◌+◌, ◌-◌, ◌≤◌, ◌≡◌, refl, leb, if◌then◌else◌, Bool-cases, inl, inr, arith,
}

abbrev pub last_exception_max_chars : ℕ
last_exception_max_chars = 8192

abbrev pub truncation_suffix : String
truncation_suffix = "…[truncated]"

-- `s[:n]`, by characters.
unfoldable pub prefix : ℕ → String → String
prefix zero s = []
prefix (suc n) [] = []
prefix (suc n) (c ∷ s) = c ∷ prefix n s

unfoldable pub truncate_str : String → String
truncate_str rendered =
    if leb (count rendered) last_exception_max_chars
    then rendered
    else prefix (last_exception_max_chars - count truncation_suffix) rendered ++ truncation_suffix

zero_add : (n : ℕ) → n ≡ 0 + n
zero_add n = omega arith

count-append : (s t : String) → count (s ++ t) ≡ count s + count t
count-append [] t = rw (append-nil t) (zero_add (count t))
count-append (c ∷ s) t =
    rw (append-cons c s t) (ground (arith, count-cons c s, count-cons c (s ++ t), count-append s t))

count-prefix : (n : ℕ) (s : String) → count (prefix n s) ≤ n
unfolding prefix
count-prefix zero s = omega arith
count-prefix (suc n) [] = omega arith
count-prefix (suc n) (c ∷ s) = ground (arith, count-cons c (prefix n s), count-prefix n s)

cut-bound : (t : String) → count (prefix 8180 t ++ truncation_suffix) ≤ 8192
cut-bound t =
    rw (count-append (prefix 8180 t) truncation_suffix) (ground (arith, count-prefix 8180 t))

-- A truncated text has at most 8192 characters, and a text within that bound is left as it is.
pub truncate_str-bound :
    (s : String)
    → (count (truncate_str s) ≤ last_exception_max_chars)
      × (count s ≤ last_exception_max_chars → truncate_str s ≡ s)
unfolding truncate_str
truncate_str-bound s = elim (Bool-cases (leb (count s) last_exception_max_chars)) [
  | inl e ↦ rw e (ground arith, λ h. refl)
  | inr e ↦ rw e (cut-bound s, λ h. absurd (ground arith))
]
