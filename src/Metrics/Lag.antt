-- ===== src/Metrics/Lag.antt =====
-- faststream_outbox/metrics/lag.py: the statement that measures the oldest claimable row of a queue,
-- and the series that the sampler keeps while it runs. `now` is the database's clock.
pub mod Oldest
pub mod Sampler
use faststream_outbox.Base.{
  ℕ, ◌-◌, Bool, ◌&&◌, Option, none, some, List, [], ◌∷◌, map, String, leb, min, ◌==◌, string_eq,
  or_else, filter, take,
}
use faststream_outbox.Base.Sort.{sort}
use faststream_outbox.Table.{Row}
use faststream_outbox.Client.{unleased, lease_expired}

-- A scalar subquery: NULL if no row is selected.
abbrev pub scalar : List ℕ → Option ℕ
scalar [] = none
scalar (t ∷ ts) = some t

-- `SELECT next_attempt_at ... ORDER BY next_attempt_at LIMIT 1`.
unfoldable pub first_of : List Row → Option ℕ
first_of rows =
    scalar (take 1 (map (λ r. r.next_attempt_at) (sort (λ r. (r.next_attempt_at, 0)) rows)))

-- The WHERE of `due`, and a lease predicate.
abbrev pub due_in : ℕ → String → (Row → Bool) → Row → Bool
due_in now queue lease_state r = (r.queue == queue && leb r.next_attempt_at now) && lease_state r

-- `LEAST` skips a NULL.
abbrev pub least : Option ℕ → Option ℕ → Option ℕ
least none b = b
least (some a) none = some a
least (some a) (some b) = some (min a b)

-- `now - NULL` is NULL.
abbrev pub since : ℕ → Option ℕ → Option ℕ
since now none = none
since now (some t) = some (now - t)

unfoldable pub lag_statement : ℕ → ℕ → String → List Row → Option ℕ × ℕ
unfolding first_of
lag_statement now lease_ttl queue rows =
    let pending = first_of (filter (due_in now queue unleased) rows) in
    let overdue = first_of (
      filter
        (λ r.
          due_in now queue (lease_expired (now - lease_ttl)) r
          && leb r.next_attempt_at (or_else pending now))
        rows) in
    (since now (least pending overdue), now)

-- `float(delay or 0)`.
abbrev pub reported : Option ℕ → ℕ
reported delay = or_else delay 0
