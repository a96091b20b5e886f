-- ===== src/Metrics/Lag/Oldest.antt =====
-- The lag is the greatest age of a row that a fetch of the queue may claim.
use mathlib.Core.Path.{fun_ext}
use faststream_outbox.Base.{
  ℕ, ◌-◌, ◌≤◌, ◌≡◌, refl, Bool, true, false, ◌&&◌, ◌||◌, Option, none, some, List, [], ◌∷◌, map,
  String, leb, max, string_eq, or_else, filter, take, arith, Bool-cases, inl, inr, ap, ◌∙◌, sym,
}
use faststream_outbox.Base.Sort.{sort, insert}
use faststream_outbox.Table.{Row}
use faststream_outbox.Client.{Claim, unleased, lease_expired}
use faststream_outbox.Client.Fetch.{due, available}
use faststream_outbox.Metrics.Lag.{first_of, scalar, due_in, least, since, lag_statement, reported}

-- The least activation time of some rows.
earliest : List Row → Option ℕ
earliest [] = none
earliest (r ∷ rs) = least (some r.next_attempt_at) (earliest rs)

-- The greatest age, 0 if there are no rows.
unfoldable pub oldest_age : ℕ → List Row → ℕ
oldest_age now [] = 0
oldest_age now (r ∷ rs) = max (now - r.next_attempt_at) (oldest_age now rs)

first-insert :
    (r : Row) (rs : List Row)
    → scalar
        (take 1 (map (λ (x : Row). x.next_attempt_at) (insert (λ x. (x.next_attempt_at, 0)) r rs)))
      ≡ least (some r.next_attempt_at) (scalar (take 1 (map (λ x. x.next_attempt_at) rs)))
unfolding insert
first-insert r [] = refl
first-insert r (s ∷ rs) = ground arith

first_of-earliest : (rows : List Row) → first_of rows ≡ earliest rows
unfolding first_of earliest sort
first_of-earliest [] = refl
first_of-earliest (r ∷ rs) =
    first-insert r (sort (λ x. (x.next_attempt_at, 0)) rs)
    ∙ ap (least (some r.next_attempt_at)) (first_of-earliest rs)

least_cong :
    (p a b : Option ℕ) (t : ℕ)
    → least p a ≡ least p b
    → least p (least (some t) a) ≡ least p (least (some t) b)
least_cong none a b t h = ground arith
least_cong (some p) none none t h = refl
least_cong (some p) none (some b) t h = ground arith
least_cong (some p) (some a) none t h = ground arith
least_cong (some p) (some a) (some b) t h = ground arith

least_skip :
    (p : Option ℕ) (now t : ℕ) (a : Option ℕ)
    → t ≤ now
    → leb t (or_else p now) ≡ false
    → least p (least (some t) a) ≡ least p a
least_skip none now t a h k = absurd (ground arith)
least_skip (some p) now t none h k = ground arith
least_skip (some p) now t (some a) h k = ground arith

-- A bound at the least that is known drops nothing that could be less.
bounded_earliest :
    (p : Option ℕ) (now : ℕ) (state : Row → Bool) (rows : List Row)
    → ((r : Row) → state r ≡ true → r.next_attempt_at ≤ now)
    → least p (earliest (filter (λ r. state r && leb r.next_attempt_at (or_else p now)) rows))
      ≡ least p (earliest (filter state rows))
unfolding earliest
bounded_earliest p now state [] small = refl
bounded_earliest p now state (r ∷ rs) small = elim (Bool-cases (state r)) [
  | inr no_ ↦ rw no_ (bounded_earliest p now state rs small)
  | inl here ↦ elim (Bool-cases (leb r.next_attempt_at (or_else p now))) [
    | inl near ↦
        rw (here, near) (least_cong p _ _ r.next_attempt_at (bounded_earliest p now state rs small))
    | inr far ↦
        rw (here, far)
          (bounded_earliest p now state rs small
            ∙ sym (
                least_skip p now r.next_attempt_at (earliest (filter state rs)) (small r here) far))
  ]
]

least_assoc : (a b c : Option ℕ) → least (least a b) c ≡ least a (least b c)
least_assoc none b c = refl
least_assoc (some a) none c = refl
least_assoc (some a) (some b) none = refl
least_assoc (some a) (some b) (some c) = ground arith

least_swap : (a b c : Option ℕ) → least a (least b c) ≡ least b (least a c)
least_swap none b c = ground arith
least_swap (some a) none c = refl
least_swap (some a) (some b) none = ground arith
least_swap (some a) (some b) (some c) = ground arith

earliest-either :
    (p q : Row → Bool) (rows : List Row)
    → ((r : Row) → p r ≡ true → q r ≡ false)
    → least (earliest (filter p rows)) (earliest (filter q rows))
      ≡ earliest (filter (λ r. p r || q r) rows)
unfolding earliest
earliest-either p q [] apart = refl
earliest-either p q (r ∷ rs) apart = elim (Bool-cases (p r)) [
  | inl here ↦
      rw (here, apart r here)
        (least_assoc (some r.next_attempt_at) (earliest (filter p rs)) (earliest (filter q rs))
          ∙ ap (least (some r.next_attempt_at)) (earliest-either p q rs apart))
  | inr none_p ↦ elim (Bool-cases (q r)) [
    | inl here ↦
        rw (none_p, here)
          (least_swap (earliest (filter p rs)) (some r.next_attempt_at) (earliest (filter q rs))
            ∙ ap (least (some r.next_attempt_at)) (earliest-either p q rs apart))
    | inr none_q ↦ rw (none_p, none_q) (earliest-either p q rs apart)
  ]
]

age_least :
    (a : Option ℕ) (now t : ℕ)
    → reported (since now (least (some t) a)) ≡ max (now - t) (reported (since now a))
age_least none now t = ground arith
age_least (some a) now t = ground arith

age-earliest :
    (now : ℕ) (rows : List Row) → reported (since now (earliest rows)) ≡ oldest_age now rows
unfolding earliest oldest_age
age-earliest now [] = refl
age-earliest now (r ∷ rs) =
    age_least (earliest rs) now r.next_attempt_at
    ∙ ap (max (now - r.next_attempt_at)) (age-earliest now rs)

module _ (c : Claim) (queue : String) where
  abbrev pending : Row → Bool
  pending = due_in c.now queue unleased

  abbrev overdue : Row → Bool
  overdue = due_in c.now queue (lease_expired (c.now - c.lease_ttl))

  overdue_past : (r : Row) → overdue r ≡ true → r.next_attempt_at ≤ c.now
  overdue_past r h = ground arith

  pending-overdue : (r : Row) → pending r ≡ true → overdue r ≡ false
  pending-overdue r h = ground arith

  either-available :
      ((id : ℕ) → c.locked id ≡ false)
      → (r : Row) → (pending r || overdue r) ≡ due c (available c) (queue ∷ []) r
  either-available free r = ground (arith, free r.id)

  -- The lag reported for a queue is the greatest age of the rows that a fetch of that queue with the
  -- same lease time may claim while no row is locked, and 0 if there is none.
  pub lag_statement-oldest :
      ((id : ℕ) → c.locked id ≡ false)
      → (rows : List Row)
      → reported (lag_statement c.now c.lease_ttl queue rows).0
        ≡ oldest_age c.now (filter (due c (available c) (queue ∷ [])) rows)
  unfolding lag_statement
  lag_statement-oldest free rows =
      ap (λ (t : Option ℕ). reported (since c.now t))
        (ap
            (λ (f : List Row → Option ℕ). least (f (filter pending rows)) (
              f (
                filter
                  (λ r.
                    overdue r && leb r.next_attempt_at (or_else (f (filter pending rows)) c.now))
                  rows)))
            (fun_ext first_of-earliest)
          ∙ bounded_earliest (earliest (filter pending rows)) c.now overdue rows overdue_past
          ∙ earliest-either pending overdue rows pending-overdue
          ∙ ap (λ p. earliest (filter p rows)) (fun_ext (either-available free)))
      ∙ age-earliest c.now (filter (due c (available c) (queue ∷ [])) rows)
