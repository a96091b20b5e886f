-- ===== src/Retry/Bounds.antt =====
-- The promises of faststream_outbox/retry.py on when a row is tried again, and how late.
use faststream_outbox.Base.{
  ℕ, ◌-◌, ◌<◌, ◌≡◌, ◌↔◌, refl, sym, ap, ◌∙◌, subst, Bool, true, false, Option, none, some, Result,
  ok, raise, ◌>>=◌, if◌then◌else◌, Bool-cases, inl, inr, arith,
}
use faststream_outbox.Retry.{
  Floats, Template, Strategy, min_float, clamped, jittered, grown, delay_seconds,
  get_next_attempt_delay, exhausted, overrun, within,
}

-- What the comparison of floats is relied on for: it is a strict total order.
pub record IsOrder (F : Type 0) (f : Floats F) : Type 0 where
  pub irreflexive : (a : F) → f.lt a a ≡ false
  pub transitive : (a b c : F) → f.lt b a ≡ false → f.lt c b ≡ false → f.lt c a ≡ false
  pub asymmetric : (a b : F) → f.lt a b ≡ true → f.lt b a ≡ false

-- `x` is at most an optional ceiling.
abbrev pub Under : {F : Type 0} → Floats F → Option F → F → Type 0
Under f none x = Unit
Under f (some m) x = f.lt m x ≡ false

some-ok : {A : Type 0} {x y : A} → ok (some x) ≡ ok (some y) → x ≡ y
some-ok h = ground (arith, h)

ok-inj : {A : Type 0} {x y : A} → ok x ≡ ok y → x ≡ y
ok-inj h = ground (arith, h)

some-inj : {A : Type 0} {x y : A} → some x ≡ some y → x ≡ y
some-inj h = ground (arith, h)

true≢false : true ≡ false → ⊥
true≢false h = ground arith

module _ {F : Type 0} (f : Floats F) (o : IsOrder F f) where
  pub min-right : (a b : F) → f.lt b (min_float f a b) ≡ false
  min-right a b = elim (Bool-cases (f.lt b a)) [ inl e ↦ rw e (o.irreflexive b) | inr e ↦ rw e e ]

  min-left : (a b : F) → f.lt a (min_float f a b) ≡ false
  min-left a b = elim (Bool-cases (f.lt b a)) [
    | inl e ↦ rw e (o.asymmetric b a e)
    | inr e ↦ rw e (o.irreflexive a)
  ]

module _ {F : Type 0} (f : Floats F) (o : IsOrder F f) (uniform : F → F → F) where
  clamped-Under :
      (m : Option F) (x : F) → Under f m (min_float f (clamped f uniform m x) f.max_delay_seconds)
  clamped-Under none x = tt
  clamped-Under (some m) x =
      o.transitive (min_float f (min_float f x m) f.max_delay_seconds) (min_float f x m) m
        (min-left f o (min_float f x m) f.max_delay_seconds) (min-right f o x m)

  -- An exponential delay, jitter and overflow included, is never above its ceiling where one is
  -- set, nor above the absolute ceiling of 100 years.
  pub exponential-bound :
      (initial multiplier : F) (ceiling : Option F) (jitter : F) (attempts : ℕ) {d : F}
      → delay_seconds f uniform (Strategy.exponential initial multiplier ceiling jitter) attempts
        ≡ ok (some d)
      → Under f ceiling d × (f.lt f.max_delay_seconds d ≡ false)
  unfolding delay_seconds
  exponential-bound initial multiplier ceiling jitter attempts {d} h =
      of_grown (grown f uniform initial (f.pow multiplier (attempts - 1))) h
    where
      of_grown :
          (r : Result F)
          → (r >>= λ x. ok (
              some (
                min_float f
                  (clamped f uniform ceiling (jittered f uniform jitter x))
                  f.max_delay_seconds)))
            ≡ ok (some d)
          → Under f ceiling d × (f.lt f.max_delay_seconds d ≡ false)
      of_grown (raise e) h = absurd (ground arith)
      of_grown (ok x) h =
          subst (λ y. Under f ceiling y × (f.lt f.max_delay_seconds y ≡ false)) (some-ok h)
            (clamped-Under ceiling (jittered f uniform jitter x), min-right f o _ _)

within-some :
    {F : Type 0} (f : Floats F) (uniform : F → F → F) (budget : Option F) (first last : ℕ) (d e : F)
    → (within f uniform budget first last (some e) ≡ some d)
      ↔ ((e ≡ d) × (overrun f uniform budget first last d ≡ false))
within-some f uniform budget first last d e =
    elim (Bool-cases (overrun f uniform budget first last e)) [
      | inl g ↦ rw g (
        λ h. absurd (ground arith),
        λ h. absurd (true≢false (sym g ∙ (ap (overrun f uniform budget first last) h.0 ∙ h.1))),
      )
      | inr g ↦ rw g (
        λ h. (some-inj h, sym (ap (overrun f uniform budget first last) (some-inj h)) ∙ g),
        λ h. ap some h.0,
      )
    ]

answer_iff :
    {F : Type 0} (f : Floats F) (uniform : F → F → F) (budget : Option F) (first last : ℕ) (d : F)
    (spent : Bool) (r : Result (Option F))
    → ((if spent then ok none else (r >>= λ e. ok (within f uniform budget first last e)))
        ≡ ok (some d))
      ↔ ((spent ≡ false) × ((r ≡ ok (some d)) × (overrun f uniform budget first last d ≡ false)))
answer_iff f uniform budget first last d true r =
    (λ h. absurd (ground arith), λ h. absurd (ground arith))
answer_iff f uniform budget first last d false (raise e) =
    (λ h. absurd (ground arith), λ h. absurd (ground arith))
answer_iff f uniform budget first last d false (ok none) =
    (λ h. absurd (ground arith), λ h. absurd (ground arith))
answer_iff f uniform budget first last d false (ok (some e)) = (
  λ h. (
    refl,
    (
      ap (λ x. ok (some x)) ((within-some f uniform budget first last d e).0 (ok-inj h)).0,
      ((within-some f uniform budget first last d e).0 (ok-inj h)).1,
    ),
  ),
  λ h. ap ok ((within-some f uniform budget first last d e).1 (some-ok h.1.0, h.1.1)),
)

-- The conditions of `get_next_attempt_delay`, written out.
abbrev pub AttemptsLeft : Option ℕ → ℕ → Type 0
AttemptsLeft none attempts = Unit
AttemptsLeft (some n) attempts = attempts < n

attempts_left :
    {F : Type 0} (f : Floats F) (uniform : F → F → F) (limit : Option ℕ) (attempts : ℕ)
    → (exhausted f uniform limit attempts ≡ false) ↔ AttemptsLeft limit attempts
attempts_left f uniform none attempts = (λ h. tt, λ h. refl)
attempts_left f uniform (some n) attempts = (λ h. ground (arith, h), λ h. ground (arith, h))

within_budget :
    {F : Type 0} (f : Floats F) (uniform : F → F → F) (budget : Option F) (first last : ℕ) (d : F)
    → (overrun f uniform budget first last d ≡ false)
      ↔ Under f budget (f.add (f.seconds first last) d)
within_budget f uniform none first last d = (λ h. tt, λ h. refl)
within_budget f uniform (some b) first last d = (λ h. h, λ h. h)

-- A strategy answers a delay exactly if it computes that delay, fewer attempts were made than
-- `max_attempts`, if set, and the time from the first attempt to the last with the delay added is at
-- most `max_total_delay_seconds`, if set.
pub next_attempt_iff :
    {F : Type 0} (f : Floats F) (uniform : F → F → F) (t : Template F) (s : Strategy F)
    (first last attempts : ℕ) (d : F)
    → (get_next_attempt_delay f uniform t s first last attempts ≡ ok (some d)) ↔ (
        AttemptsLeft t.max_attempts attempts
        × ((delay_seconds f uniform s attempts ≡ ok (some d))
            × Under f t.max_total_delay_seconds (f.add (f.seconds first last) d)))
unfolding get_next_attempt_delay
next_attempt_iff f uniform t s first last attempts d =
    let answer =
      answer_iff f uniform t.max_total_delay_seconds first last d
        (exhausted f uniform t.max_attempts attempts) (delay_seconds f uniform s attempts) in
    let left = attempts_left f uniform t.max_attempts attempts in
    let budget = within_budget f uniform t.max_total_delay_seconds first last d in
    (
      λ h. let r = answer.0 h in (left.0 r.0, (r.1.0, budget.0 r.1.1)),
      λ h. answer.1 (left.1 h.0, (h.1.0, budget.1 h.1.1)),
    )
