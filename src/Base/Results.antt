-- ===== src/Base/Results.antt =====
-- Fallible code: a call returns a value or raises one of Python's exceptions.
use Prim.Native.String.{String}
use mathlib.Core.Bool.{Bool, true, false}
use mathlib.Core.Path.{◌≡◌, refl}
use mathlib.Core.Logic.{◌↔◌}
use native.Mathlib.Omega.{arith}
use mathlib.Core.List.{List, [], ◌∷◌}

-- The exception classes that the package raises or tells apart.
pub data Error : Type 0 where
  value_error type_error runtime_error config_error overflow_error : Error
  not_implemented_error import_error timeout_error cancelled_error stale_writer_error : Error
  stop_consume system_exit : Error
  other_error : String → Error

-- `isinstance(e, Exception)`: a cancellation and a SystemExit are only BaseExceptions.
abbrev pub is_exception : Error → Bool
is_exception cancelled_error = false
is_exception system_exit = false
is_exception _ = true

pub data Result {ℓ} (A : Type ℓ) : Type ℓ where
  ok : A → Result A
  raise : Error → Result A

infixl 5 ◌>>=◌ ◌>>◌
abbrev pub ◌>>=◌ {ℓ κ} : {A : Type ℓ} {B : Type κ} → Result A → (A → Result B) → Result B
ok a >>= f = f a
raise e >>= f = raise e

abbrev pub ◌>>◌ {ℓ} : {B : Type ℓ} → Result (Unit {0}) → Result B → Result B
m >> k = m >>= λ _. k

-- `if bad: raise e`.
abbrev pub raise_if : Bool → Error → Result (Unit {0})
raise_if true e = raise e
raise_if false e = ok tt

abbrev pub map_result {ℓ κ} : {A : Type ℓ} {B : Type κ} → (A → B) → Result A → Result B
map_result f (ok a) = ok (f a)
map_result f (raise e) = raise e

-- A loop of fallible calls, one for each entry.
abbrev pub traverse {ℓ κ} : {A : Type ℓ} {B : Type κ} → (A → Result B) → List A → Result (List B)
traverse f [] = ok []
traverse f (x ∷ xs) = do y ← f x; ys ← traverse f xs; ok (y ∷ ys)

pub ok-inj {ℓ} : {A : Type ℓ} {a b : A} → ok a ≡ ok b → a ≡ b
ok-inj h = ground (arith, h)

-- A chain of checks gets through exactly if each check does.
pub passes {ℓ} :
    {B : Type ℓ} {x : B} (b : Bool) (e : Error) (m : Result B)
    → ((raise_if b e >> m) ≡ ok x) ↔ ((b ≡ false) × (m ≡ ok x))
passes true e m = (λ h. absurd (ground (arith, h)), λ h. absurd (ground (arith, h.0)))
passes false e m = (λ h. (refl, h), λ h. h.1)

pub both {ℓ} :
    {B : Type ℓ} {x : B} (r : Result (Unit {0})) (m : Result B)
    → ((r >> m) ≡ ok x) ↔ ((r ≡ ok tt) × (m ≡ ok x))
both (raise e) m = (λ h. absurd (ground (arith, h)), λ h. absurd (ground (arith, h.0)))
both (ok u) m = (λ h. (refl, h), λ h. h.1)

pub last_check : (b : Bool) (e : Error) → (raise_if b e ≡ ok tt) ↔ (b ≡ false)
last_check true e = (λ h. absurd (ground (arith, h)), λ h. absurd (ground (arith, h)))
last_check false e = (λ h. refl, λ h. refl)
