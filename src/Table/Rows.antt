-- ===== src/Table/Rows.antt =====
-- What the schema keeps of the rows: unique ids below the next one, at most one row for each
-- timer of a queue, and a lease that is set whole or not at all.
use faststream_outbox.Base.{
  ℕ, ◌<◌, ◌≡◌, ◌≢◌, Option, none, some, List, [], ◌∷◌, map, Bool, false, String, ◌==◌, ◌&&◌,
  is_none, All, Pairwise, ◌∙◌, nat_eq, string_eq,
}
use faststream_outbox.Table.{Row, Database, is_timer}

-- The CHECK `(acquired_token IS NULL) = (acquired_at IS NULL)`.
abbrev pub LeaseCheck : Row → Type 0
LeaseCheck r = is_none r.acquired_token ≡ is_none r.acquired_at

abbrev pub UniqueIds : List Row → Type 0
UniqueIds = Pairwise (λ r s. r.id ≢ s.id)

-- The partial unique index: no second row of the queue carries the timer.
abbrev pub clash : Option String → String → Option String → String → Bool
clash none q u p = false
clash (some t) q u p = q == p && is_timer u t

abbrev pub same_timer : Row → Row → Bool
same_timer r s = clash r.timer_id r.queue s.timer_id s.queue

abbrev pub UniqueTimers : List Row → Type 0
UniqueTimers = Pairwise (λ r s. same_timer r s ≡ false)

pub record IsValid (db : Database) : Type 0 where
  pub unique : UniqueIds db.rows
  pub below : All (λ r. r.id < db.next_id) db.rows
  pub timers : UniqueTimers db.rows
  pub leases : All LeaseCheck db.rows

-- A map of the rows that keeps what the indexes read keeps the indexes.
module _ (f : Row → Row) where
  pub map-All :
      {P : Row → Type 0}
      → ((r : Row) → P r → P (f r))
      → (rows : List Row) → All P rows
      → All P (map f rows)
  map-All k [] h = tt
  map-All k (r ∷ rs) h = (k r h.0, map-All k rs h.1)

  module _ (same_id : (r : Row) → (f r).id ≡ r.id) where
    map-distinct :
        (n : ℕ) (rows : List Row) → All (λ s. n ≢ s.id) rows → All (λ s. n ≢ s.id) (map f rows)
    map-distinct n [] h = tt
    map-distinct n (r ∷ rs) h = (λ e. h.0 (e ∙ same_id r), map-distinct n rs h.1)

    pub map-UniqueIds : (rows : List Row) → UniqueIds rows → UniqueIds (map f rows)
    map-UniqueIds [] h = tt
    map-UniqueIds (r ∷ rs) h = (map-distinct (f r).id rs (rw (same_id r) h.0), map-UniqueIds rs h.1)

    pub map-below :
        (n : ℕ) (rows : List Row) → All (λ r. r.id < n) rows → All (λ r. r.id < n) (map f rows)
    map-below n = map-All (λ r h. rw (same_id r) h)

    module _ (same : (r : Row) → ((f r).queue ≡ r.queue) × ((f r).timer_id ≡ r.timer_id)) where
      same_timer-map : (r s : Row) → same_timer (f r) (f s) ≡ same_timer r s
      same_timer-map r s = rw ((same r).1, (same r).0, (same s).0, (same s).1)

      map-timers :
          (r : Row) (rows : List Row)
          → All (λ s. same_timer r s ≡ false) rows
          → All (λ s. same_timer (f r) s ≡ false) (map f rows)
      map-timers r [] h = tt
      map-timers r (s ∷ ss) h = (same_timer-map r s ∙ h.0, map-timers r ss h.1)

      pub map-UniqueTimers : (rows : List Row) → UniqueTimers rows → UniqueTimers (map f rows)
      map-UniqueTimers [] h = tt
      map-UniqueTimers (r ∷ rs) h = (map-timers r rs h.0, map-UniqueTimers rs h.1)
