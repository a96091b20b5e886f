-- ===== src/Schema/Text.antt =====
-- The operations on Python's `str` that faststream_outbox/schema_validation.py and autovacuum.py
-- use, and `_normalize_predicate`.
use Prim.Native.String.{String, ◌++◌, char_at, slice, len}
use Prim.Native.Char.{Char, code}
use text.Mathlib.Text.{find?, starts_with}
use faststream_outbox.Base.{
  ℕ, Bool, ◌&&◌, ◌||◌, none, some, List, [], ◌∷◌, leb, nat_eqb, ◌==◌, string_eq, if◌then◌else◌, any,
}

abbrev in_range : ℕ → ℕ → ℕ → Bool
in_range a b n = leb a n && leb n b

-- `c.isspace()`.
abbrev is_space : Char → Bool
is_space c =
    in_range 9 13 (code c)
    || in_range 28 32 (code c)
    || in_range 8192 8202 (code c)
    || any (nat_eqb (code c)) (133 ∷ 160 ∷ 5760 ∷ 8232 ∷ 8233 ∷ 8239 ∷ 8287 ∷ 12288 ∷ [])

-- `c.lower()`, for the characters that it takes to one of ASCII (the last one is the Kelvin sign).
abbrev lower_char : Char → Char
lower_char c = elim (find? "ABCDEFGHIJKLMNOPQRSTUVWXYZK" (String.◌∷◌ c String.[])) [
  | some i ↦ char_at "abcdefghijklmnopqrstuvwxyzk" i
  | none ↦ c
]

unfoldable lower : String → String
lower String.[] = ""
lower (String.◌∷◌ c s) = String.◌∷◌ (lower_char c) (lower s)

-- `s.replace("(", " ").replace(")", " ")`.
unfoldable drop_parens : String → String
drop_parens String.[] = ""
drop_parens (String.◌∷◌ c s) =
    if in_range 40 41 (code c) then " " ++ drop_parens s else String.◌∷◌ c (drop_parens s)

-- The word read so far is put before the others, if there is one.
abbrev close : String → List String → List String
close word words = if word == "" then words else word ∷ words

-- `s.split()`, from inside the word read so far.
unfoldable split : String → String → List String
split word String.[] = close word []
split word (String.◌∷◌ c s) =
    if is_space c then close word (split "" s) else split (word ++ String.◌∷◌ c "") s

-- `separator.join(words)`.
unfoldable pub join : String → List String → String
join separator [] = ""
join separator (s ∷ []) = s
join separator (s ∷ t ∷ ss) = s ++ separator ++ join separator (t ∷ ss)

-- `_normalize_predicate`.
unfoldable pub normalize_predicate : String → String
unfolding lower drop_parens split join
normalize_predicate predicate = join " " (split "" (drop_parens (lower predicate)))

-- `s.endswith(suffix)`.
unfoldable pub ends_with : String → String → Bool
ends_with String.[] suffix = "" == suffix
ends_with (String.◌∷◌ c s) suffix = String.◌∷◌ c s == suffix || ends_with s suffix

unfoldable lstrip : String → String
lstrip String.[] = ""
lstrip (String.◌∷◌ c s) = if is_space c then lstrip s else String.◌∷◌ c s

unfoldable rstrip : String → String
rstrip String.[] = ""
rstrip (String.◌∷◌ c s) = if is_space c && rstrip s == "" then "" else String.◌∷◌ c (rstrip s)

-- `s.removeprefix("check ").strip()`.
unfoldable pub strip_check : String → String
unfolding lstrip rstrip
strip_check s = rstrip (lstrip (if starts_with s "check " then slice s 6 (len s) else s))
