-- ===== src/Fake/Harness.antt =====
-- faststream_outbox/testing.py, TestOutboxBroker: what entering and leaving the test broker does to its
-- subscribers. FastStream's harness starts the broker twice on entry; the call models that it builds and
-- the warnings of a start are left out.
use faststream_outbox.Base.{
  ℕ, ◌+◌, ◌≡◌, refl, Bool, true, false, not, ◌||◌, List, [], ◌∷◌, map, All, if◌then◌else◌, arith,
  Bool-cases, inl, inr, subst,
}

-- A subscriber: whether it has a handler, its settings and flags, its tasks that are not done, and
-- whether rows wait in its queue.
pub record Hosted : Type 0 where
  pub has_calls : Bool
  pub max_workers : ℕ
  pub stopping : Bool
  pub running : Bool
  pub workers : ℕ
  pub fetchers : ℕ
  pub queued : Bool

pub record Harness : Type 0 where
  pub run_loops : Bool
  pub loops_spawned : Bool
  pub subscribers : List Hosted

-- The first loop of `_fake_start`; `_post_start` makes the subscriber run.
abbrev pub post_start : Hosted → Hosted
post_start s = record s { stopping = false; running = true }

-- The last loop: one fetch loop, and a worker loop for each worker.
abbrev pub spawn : Hosted → Hosted
spawn s =
    if s.has_calls
    then record s { workers = s.workers + s.max_workers; fetchers = s.fetchers + 1 }
    else s

unfoldable pub fake_start : Harness → Harness
fake_start h =
    if not h.run_loops || h.loops_spawned
    then record h { subscribers = map post_start h.subscribers }
    else record h {
      loops_spawned = true;
      subscribers = map (λ s. spawn (post_start s)) h.subscribers;
    }

-- `task.cancel()`, `tasks.clear()` and `_reset_inflight()`.
abbrev pub cancel_tasks : Hosted → Hosted
cancel_tasks s = record s { workers = 0; fetchers = 0; queued = false }

-- The upstream part of `_fake_close`.
abbrev pub fake_stop : Hosted → Hosted
fake_stop s = record s { running = false }

unfoldable pub fake_close : Harness → Harness
fake_close h =
    if h.run_loops
    then record h {
      loops_spawned = false;
      subscribers = map (λ s. fake_stop (cancel_tasks s)) h.subscribers;
    }
    else record h { subscribers = map fake_stop h.subscribers }

pub data Call : Type 0 where
  starts closes : Call

abbrev pub call : Call → Harness → Harness
call starts h = fake_start h
call closes h = fake_close h

abbrev pub run : List Call → Harness → Harness
run [] h = h
run (c ∷ cs) h = run cs (call c h)

-- The tasks of a subscriber: all its loops once, or none.
abbrev pub HasLoops : Bool → Hosted → Type 0
HasLoops spawned s =
    (s.workers ≡ (if spawned then (if s.has_calls then s.max_workers else 0) else 0))
    × (s.fetchers ≡ (if spawned then (if s.has_calls then 1 else 0) else 0))

-- Loops are spawned in loop mode only, and then once for each subscriber with a handler.
abbrev pub IsSpawned : Harness → Type 0
IsSpawned h =
    All (HasLoops h.loops_spawned) h.subscribers × (h.loops_spawned ≡ true → h.run_loops ≡ true)

All-mapped :
    (P Q : Hosted → Type 0) (f : Hosted → Hosted) (ss : List Hosted)
    → ((s : Hosted) → P s → Q (f s))
    → All P ss
    → All Q (map f ss)
All-mapped P Q f [] h a = tt
All-mapped P Q f (s ∷ ss) h a = (h s a.0, All-mapped P Q f ss h a.1)

start-IsSpawned : (h : Harness) → IsSpawned h → IsSpawned (fake_start h)
unfolding fake_start
start-IsSpawned h v = elim (Bool-cases (not h.run_loops || h.loops_spawned)) [
  | inl y ↦
      rw y (All-mapped (HasLoops h.loops_spawned) _ post_start h.subscribers (λ s k. k) v.0, v.1)
  | inr n ↦ rw n (
    All-mapped (HasLoops false) (HasLoops true) (λ s. spawn (post_start s)) h.subscribers spawned
        (subst (λ b. All (HasLoops b) h.subscribers)
          (let e : h.loops_spawned ≡ false = ground arith in e) v.0),
    λ t. ground arith,
  )
]
  where
    spawned : (s : Hosted) → HasLoops false s → HasLoops true (spawn (post_start s))
    spawned s k = elim (Bool-cases s.has_calls) [
      | inl y ↦ rw y (omega (arith, k.0), omega (arith, k.1))
      | inr n ↦ rw n k
    ]

close-IsSpawned : (h : Harness) → IsSpawned h → IsSpawned (fake_close h)
unfolding fake_close
close-IsSpawned h v = elim (Bool-cases h.run_loops) [
  | inl y ↦ rw y (
    All-mapped (HasLoops h.loops_spawned) (HasLoops false) (λ s. fake_stop (cancel_tasks s))
        h.subscribers (λ s k. (refl, refl)) v.0,
    λ t. absurd (ground (arith, t)),
  )
  | inr n ↦ rw n (
    All-mapped (HasLoops h.loops_spawned) _ fake_stop h.subscribers (λ s k. k) v.0,
    λ t. ground (arith, v.1 t),
  )
]

-- However often the test broker is started and closed, and in whatever order, each subscriber with a
-- handler has all its worker loops and one fetch loop if the loops are spawned, and no task else; they
-- are spawned in loop mode only.
pub run-IsSpawned : (cs : List Call) (h : Harness) → IsSpawned h → IsSpawned (run cs h)
run-IsSpawned [] h v = v
run-IsSpawned (starts ∷ cs) h v = run-IsSpawned cs (fake_start h) (start-IsSpawned h v)
run-IsSpawned (closes ∷ cs) h v = run-IsSpawned cs (fake_close h) (close-IsSpawned h v)
