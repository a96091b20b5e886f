-- ===== src/Subscriber/Draining/Joined.antt =====
-- faststream_outbox/subscriber/usecase.py, `stop`: the drain ends once the workers have served the
-- rows.
use faststream_outbox.Base.{
  ℕ, zero, suc, lt→ltb, ◌+◌, ◌-◌, ◌<◌, ◌≡◌, refl, true, some, List, [], ◌∷◌, length, arith,
}
use faststream_outbox.Subscriber.Draining.{
  Stopper, Loop, Step, started, task_done, take, join, step, run,
}
use faststream_outbox.Subscriber.Draining.Reached.{reached-IsSteady}

module _ {ℓ} {R : Type ℓ} where
  -- `task_done` for each row held.
  finish : ℕ → List (Step R) → List (Step R)
  finish zero rest = rest
  finish (suc n) rest = Step.row_done ∷ finish n rest

  -- Each row queued is taken and done.
  serve : ℕ → List (Step R) → List (Step R)
  serve zero rest = rest
  serve (suc n) rest = Step.take_row ∷ Step.row_done ∷ serve n rest

  -- The workers do what is left, and `stop` goes on.
  unfoldable pub drain : Loop R → List (Step R)
  unfolding finish serve
  drain s = finish s.held (serve (length s.queued) (Step.joined ∷ []))

  step-row_done :
      (s : Loop R)
      → 0 < s.held
      → step Step.row_done s ≡ some (task_done (record s { held = s.held - 1 }))
  unfolding step
  step-row_done s h = rw (lt→ltb 0 s.held h) refl

  step-take_row :
      (row : R) (rows : List R) (s : Loop R)
      → s.running ≡ true
      → s.queued ≡ row ∷ rows
      → step Step.take_row s ≡ some (record s { queued = rows; held = s.held + 1 })
  unfolding step take
  step-take_row row rows s r q = rw (q, r) refl

  step-joined :
      (s : Loop R)
      → s.stopper ≡ Stopper.joining
      → s.unfinished ≡ 0
      → step Step.joined s ≡ some (record s { stopper = Stopper.drained })
  unfolding step join
  step-joined s p u = rw (p, u) refl

  abbrev Ends : List (Step R) → Loop R → Type ℓ
  Ends es s = (t : Loop R) × ((run es s ≡ some t) × (t.stopper ≡ Stopper.drained))

  -- A step that can be made, then the rest.
  stepped :
      (e : Step R) (es : List (Step R)) (s t : Loop R)
      → step e s ≡ some t
      → Ends es t
      → Ends (e ∷ es) s
  unfolding run
  stepped e es s t h (u, k) = (u, (rw (h, run) k.0, k.1))

  nothing_left : (s : Loop R) → s.stopper ≡ Stopper.drained → Ends [] s
  unfolding run
  nothing_left s h = (s, (refl, h))

  serve-Ends :
      (rows : List R) (s : Loop R)
      → s.running ≡ true
      → s.stopper ≡ Stopper.joining
      → s.queued ≡ rows
      → s.held ≡ 0
      → s.unfinished ≡ length rows
      → Ends (serve (length rows) (Step.joined ∷ [])) s
  unfolding serve
  serve-Ends [] s r p q h u =
      stepped Step.joined [] s (record s { stopper = Stopper.drained }) (step-joined s p u)
        (nothing_left (record s { stopper = Stopper.drained }) refl)
  serve-Ends (row ∷ rows) s r p q h u =
      let taken = record s { queued = rows; held = s.held + 1 } in
      let served = task_done (record taken { held = taken.held - 1 }) in
      stepped Step.take_row _ s taken (step-take_row row rows s r q) (
        stepped Step.row_done _ taken served (step-row_done taken (omega arith))
          (serve-Ends rows served r p refl (ground (arith, h)) (ground (arith, u))))

  finish-Ends :
      (n : ℕ) (s : Loop R)
      → s.running ≡ true
      → s.stopper ≡ Stopper.joining
      → s.held ≡ n
      → s.unfinished ≡ length s.queued + n
      → Ends (finish n (serve (length s.queued) (Step.joined ∷ []))) s
  unfolding finish
  finish-Ends zero s r p h u = serve-Ends s.queued s r p refl h (ground (arith, u))
  finish-Ends (suc n) s r p h u =
      let done = task_done (record s { held = s.held - 1 }) in
      stepped Step.row_done _ s done (step-row_done s (ground (arith, h)))
        (finish-Ends n done r p (ground (arith, h)) (ground (arith, u)))

-- From any moment of the drain, if the workers run, their serving the rows held and queued once each
-- lets `stop` past the barrier.
pub drain-joins {ℓ} :
    {R : Type ℓ} (fetch_batch_size : ℕ) (steps : List (Step R)) (s : Loop R)
    → run steps (started fetch_batch_size) ≡ some s
    → s.running ≡ true
    → s.stopper ≡ Stopper.joining
    → (t : Loop R) × ((run (drain s) s ≡ some t) × (t.stopper ≡ Stopper.drained))
unfolding drain
drain-joins n steps s h r p = finish-Ends s.held s r p refl (reached-IsSteady n steps s h).balanced
