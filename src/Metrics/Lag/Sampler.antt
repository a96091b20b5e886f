-- ===== src/Metrics/Lag/Sampler.antt =====
-- faststream_outbox/metrics/lag.py, `_sample_queue_lag`: the two gauges, labelled by queue, from the
-- entry of the context to its exit. What each query of a round answers is given.
use faststream_outbox.Base.{
  ℕ, zero, suc, map, take, ◌≡◌, refl, sym, ap, ◌∙◌, true, false, not, Option, List, [], ◌∷◌, ◌++◌,
  String, Result, ok, raise, ◌==◌, string_eq, eq_iff, filter, contains, if◌then◌else◌, All,
  All-append, All-map_of, arith,
}
use faststream_outbox.Metrics.Lag.{reported}

-- The value of a gauge; `float("nan")` before the first sample.
pub data Sample : Type 0 where
  nan : Sample
  seconds : ℕ → Sample

-- `gauge.labels(table, queue).set(value)`.
unfoldable pub set_label : String → Sample → List (String × Sample) → List (String × Sample)
set_label q v [] = (q, v) ∷ []
set_label q v ((k, w) ∷ g) = if k == q then (k, v) ∷ g else (k, w) ∷ set_label q v g

-- `gauge.remove(table, queue)`.
unfoldable pub remove_label : String → List (String × Sample) → List (String × Sample)
remove_label q = filter (λ e. not (e.0 == q))

pub record Gauges : Type 0 where
  pub age : List (String × Sample)
  pub freshness : List (String × Sample)

abbrev pub set_both : String → Sample → Sample → Gauges → Gauges
set_both q a f g = record { age = set_label q a g.age; freshness = set_label q f g.freshness }

-- The first loop: no age is known, and no sample was taken.
unfoldable pub start_sampling : List String → Gauges → Gauges
unfolding set_label
start_sampling [] g = g
start_sampling (q ∷ qs) g = start_sampling qs (set_both q Sample.nan (Sample.seconds 0) g)

-- A query answers a delay, which may be NULL, and the time of the sample. An Exception is logged.
unfoldable pub sample_queue : String → Result (Option ℕ × ℕ) → Gauges → Gauges
unfolding set_label
sample_queue q (ok (delay, sampled_at)) g =
    set_both q (Sample.seconds (reported delay)) (Sample.seconds sampled_at) g
sample_queue q (raise e) g = g

-- The queries of the sampler's rounds, in order: each round goes through the queues.
abbrev pub Answers : Type 0
Answers = String → Result (Option ℕ × ℕ)

abbrev pub one_round : List String → Answers → List (String × Result (Option ℕ × ℕ))
one_round queues answer = map (λ q. (q, answer q)) queues

unfoldable pub rounds : List String → List Answers → List (String × Result (Option ℕ × ℕ))
rounds queues [] = []
rounds queues (answer ∷ rest) = one_round queues answer ++ rounds queues rest

unfoldable pub sample_each : List (String × Result (Option ℕ × ℕ)) → Gauges → Gauges
unfolding sample_queue
sample_each [] g = g
sample_each ((q, answer) ∷ rest) g = sample_each rest (sample_queue q answer g)

-- The loop of the `finally`.
unfoldable pub stop_sampling : List String → Gauges → Gauges
unfolding remove_label
stop_sampling [] g = g
stop_sampling (q ∷ qs) g =
    stop_sampling qs (record { age = remove_label q g.age; freshness = remove_label q g.freshness })

-- `_sample_queue_lag` as a whole: the sampler is cancelled after some number of queries, and every way
-- that the body ends goes through the `finally`.
unfoldable pub sample_queue_lag : List String → List Answers → ℕ → Gauges → Gauges
unfolding start_sampling rounds sample_each stop_sampling
sample_queue_lag queues answers queries g =
    stop_sampling queues
      (sample_each (take queries (rounds queues answers)) (start_sampling queues g))

-- The series of other queues.
abbrev pub others : List String → List (String × Sample) → List (String × Sample)
others qs = filter (λ e. not (contains e.0 qs))

abbrev pub Unlabelled : List String → List (String × Sample) → Type 0
Unlabelled qs g = All (λ e. contains e.0 qs ≡ false) g

contains_eq :
    (k q : String) (qs : List String) → contains q qs ≡ true → k ≡ q → contains k qs ≡ true
contains_eq k q qs h e = rw e h

others-set_label :
    (qs : List String) (q : String) (v : Sample) (g : List (String × Sample))
    → contains q qs ≡ true
    → others qs (set_label q v g) ≡ others qs g
unfolding set_label
others-set_label qs q v [] h = rw h refl
others-set_label qs q v ((k, w) ∷ g) h =
    ground (arith, others-set_label qs q v g h, eq_iff k q, contains_eq k q qs h)

-- Series that agree on all queues but the served ones.
abbrev pub Agree : List String → Gauges → Gauges → Type 0
Agree qs g g' =
    (others qs g.age ≡ others qs g'.age) × (others qs g.freshness ≡ others qs g'.freshness)

pub Agree-trans : (qs : List String) (a b c : Gauges) → Agree qs a b → Agree qs b c → Agree qs a c
Agree-trans qs a b c h k = (h.0 ∙ k.0, h.1 ∙ k.1)

module _ (qs : List String) where
  set_both-Agree :
      (q : String) (a f : Sample) (g : Gauges)
      → contains q qs ≡ true
      → Agree qs (set_both q a f g) g
  set_both-Agree q a f g h =
      (others-set_label qs q a g.age h, others-set_label qs q f g.freshness h)

  pub start-Agree :
      (rs : List String) (g : Gauges)
      → All (λ q. contains q qs ≡ true) rs
      → Agree qs (start_sampling rs g) g
  unfolding start_sampling
  start-Agree [] g h = (refl, refl)
  start-Agree (q ∷ rs) g h =
      Agree-trans qs (start_sampling rs (set_both q Sample.nan (Sample.seconds 0) g))
        (set_both q Sample.nan (Sample.seconds 0) g) g (start-Agree rs _ h.1)
        (set_both-Agree q Sample.nan (Sample.seconds 0) g h.0)

  sample-Agree :
      (q : String) (answer : Result (Option ℕ × ℕ)) (g : Gauges)
      → contains q qs ≡ true
      → Agree qs (sample_queue q answer g) g
  unfolding sample_queue
  sample-Agree q (ok (delay, at)) g h = set_both-Agree q _ _ g h
  sample-Agree q (raise e) g h = (refl, refl)

  pub each-Agree :
      (es : List (String × Result (Option ℕ × ℕ))) (n : ℕ) (g : Gauges)
      → All (λ e. contains e.0 qs ≡ true) es
      → Agree qs (sample_each (take n es) g) g
  unfolding sample_each
  each-Agree es zero g h = (refl, refl)
  each-Agree [] (suc n) g h = (refl, refl)
  each-Agree ((q, answer) ∷ es) (suc n) g h =
      Agree-trans qs (sample_each (take n es) (sample_queue q answer g)) (sample_queue q answer g) g
        (each-Agree es n _ h.1) (sample-Agree q answer g h.0)

contains_later :
    (k q : String) (qs : List String) → contains k qs ≡ true → contains k (q ∷ qs) ≡ true
contains_later k q qs h = ground (arith, h)

pub served : (qs : List String) → All (λ q. contains q qs ≡ true) qs
served [] = tt
served (q ∷ qs) =
    (ground (arith, eq_iff q q), All-map_of _ _ (λ k. contains_later k q qs) qs (served qs))

pub one_round-served :
    (qs rs : List String) (answer : Answers)
    → All (λ q. contains q qs ≡ true) rs
    → All (λ e. contains e.0 qs ≡ true) (one_round rs answer)
one_round-served qs [] answer h = tt
one_round-served qs (r ∷ rs) answer h = (h.0, one_round-served qs rs answer h.1)

rounds-served :
    (qs : List String) (answers : List Answers)
    → All (λ e. contains e.0 qs ≡ true) (rounds qs answers)
unfolding rounds
rounds-served qs [] = tt
rounds-served qs (answer ∷ rest) =
    All-append _ (one_round qs answer) (rounds qs rest) (one_round-served qs qs answer (served qs))
      (rounds-served qs rest)

-- Removing every served queue's series leaves the others.
removed :
    (q : String) (qs : List String) (g : List (String × Sample))
    → others qs (remove_label q g) ≡ others (q ∷ qs) g
unfolding remove_label
removed q qs [] = refl
removed q qs ((k, w) ∷ g) = ground (arith, removed q qs g)

others_nil : (g : List (String × Sample)) → others [] g ≡ g
others_nil [] = refl
others_nil (e ∷ g) = ap (◌∷◌ e) (others_nil g)

pub stop-others :
    (qs : List String) (g : Gauges)
    → ((stop_sampling qs g).age ≡ others qs g.age)
      × ((stop_sampling qs g).freshness ≡ others qs g.freshness)
unfolding stop_sampling
stop-others [] g = (sym (others_nil g.age), sym (others_nil g.freshness))
stop-others (q ∷ qs) g =
    let (a, f) =
      stop-others qs
        (record { age = remove_label q g.age; freshness = remove_label q g.freshness }) in
    (a ∙ removed q qs g.age, f ∙ removed q qs g.freshness)

pub others_same :
    (qs : List String) (g : List (String × Sample)) → Unlabelled qs g → others qs g ≡ g
others_same qs [] h = refl
others_same qs ((k, w) ∷ g) h = ground (arith, others_same qs g h.1)

pub gauges_eq : {a b : Gauges} → a.age ≡ b.age → a.freshness ≡ b.freshness → a ≡ b
gauges_eq h k = ground arith

-- After the context no series of a served queue is left, and all other series are as before, however
-- many queries were made and whichever of them failed.
pub sample_queue_lag-removes :
    (queues : List String) (answers : List Answers) (queries : ℕ) (g : Gauges)
    → Unlabelled queues g.age
    → Unlabelled queues g.freshness
    → sample_queue_lag queues answers queries g ≡ g
unfolding sample_queue_lag
sample_queue_lag-removes queues answers queries g old_age old_freshness =
    let begun = start_sampling queues g in
    let sampled = sample_each (take queries (rounds queues answers)) begun in
    let same =
      Agree-trans queues sampled begun g
        (each-Agree queues (rounds queues answers) queries begun (rounds-served queues answers))
        (start-Agree queues queues g (served queues)) in
    let stopped = stop-others queues sampled in
    gauges_eq (stopped.0 ∙ same.0 ∙ others_same queues g.age old_age)
      (stopped.1 ∙ same.1 ∙ others_same queues g.freshness old_freshness)
