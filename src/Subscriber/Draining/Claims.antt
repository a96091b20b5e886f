-- ===== src/Subscriber/Draining/Claims.antt =====
-- faststream_outbox/subscriber/usecase.py: the steps of the fetch loop and of the workers keep what
-- holds of the tasks.
use faststream_outbox.Base.{
  ℕ, ◌≡◌, refl, ◌∙◌, Bool, true, false, none, some, List, [], ◌∷◌, if◌then◌else◌, arith,
}
use faststream_outbox.Subscriber.Draining.{Fetcher, Loop, check, lock, enqueue, take, give_back_row}
use faststream_outbox.Subscriber.Draining.Steady.{
  IsSteady, Steady, allowed-Steady, past_called, drained_past,
}
use faststream_outbox.Subscriber.Draining.Adding.{put_nowait-Adds, put_each-Adds}

module _ {ℓ} {R : Type ℓ} where
  pub check-Steady : (f : Fetcher) (s : Loop R) → s.fetcher ≡ f → IsSteady s → Steady (check f s)
  unfolding check
  check-Steady Fetcher.idle s e h = allowed-Steady _ _ (λ g. record {
    fits = ground (arith, h.fits, e);
    balanced = h.balanced;
    never_full = h.never_full;
    called = h.called;
    halted = ground (arith, h.halted);
    empty = h.empty;
  })
  check-Steady (Fetcher.waiting n) s e h = tt
  check-Steady (Fetcher.fetching n) s e h = tt

  entered :
      (n : ℕ) (b : Bool) (s : Loop R)
      → s.fetcher ≡ Fetcher.waiting n
      → s.stopping ≡ b
      → IsSteady s
      → IsSteady (record s { fetcher = if b then Fetcher.idle else Fetcher.fetching n })
  entered n true s e t h = record {
    fits = ground (arith, h.fits, e);
    balanced = h.balanced;
    never_full = h.never_full;
    called = h.called;
    halted = ground arith;
    empty = h.empty;
  }
  entered n false s e t h = record {
    fits = ground (arith, h.fits, e);
    balanced = h.balanced;
    never_full = h.never_full;
    called = h.called;
    halted = ground (arith, h.called, t, past_called s.stopper);
    empty = h.empty;
  }

  pub lock-Steady : (f : Fetcher) (s : Loop R) → s.fetcher ≡ f → IsSteady s → Steady (lock f s)
  unfolding lock
  lock-Steady Fetcher.idle s e h = tt
  lock-Steady (Fetcher.waiting n) s e h = entered n s.stopping s e refl h
  lock-Steady (Fetcher.fetching n) s e h = tt

  pub enqueue-Steady :
      (rows : List R) (f : Fetcher) (s : Loop R)
      → s.fetcher ≡ f
      → IsSteady s
      → Steady (enqueue rows f s)
  unfolding enqueue
  enqueue-Steady rows (Fetcher.fetching n) s e h = allowed-Steady _ _ (λ g.
      let a = put_each-Adds rows s (ground (arith, h.fits, e, g)) in
      record {
        fits = ground (arith, h.fits, e, g, a.queued, a.maxsize);
        balanced = ground (arith, h.balanced, a.queued, a.unfinished, a.held);
        never_full = a.queue_full ∙ h.never_full;
        called = rw (a.stopper, a.stopping) h.called;
        halted = ground arith;
        empty = rw a.stopper (ground (arith, h.halted, e, drained_past s.stopper));
      })
  enqueue-Steady rows Fetcher.idle s e h = tt
  enqueue-Steady rows (Fetcher.waiting n) s e h = tt

  pub take-Steady :
      (rows : List R) (s : Loop R) → s.queued ≡ rows → IsSteady s → Steady (take rows s)
  unfolding take
  take-Steady [] s e h = tt
  take-Steady (row ∷ rows) s e h = allowed-Steady _ _ (λ g. record {
    fits = ground (arith, h.fits, e);
    balanced = ground (arith, h.balanced, e);
    never_full = h.never_full;
    called = h.called;
    halted = h.halted;
    empty = ground (arith, h.empty, e);
  })

  -- Its row just left a slot.
  pub give_back-Steady :
      (rows : List R) (s : Loop R) → s.queued ≡ rows → IsSteady s → Steady (give_back_row rows s)
  unfolding give_back_row
  give_back-Steady [] s e h = tt
  give_back-Steady (row ∷ rows) s e h =
      let a = put_nowait-Adds row (record s { queued = rows }) (ground (arith, h.fits, e)) in
      allowed-Steady _ _ (λ g. record {
        fits = rw a.fetcher (ground (arith, h.fits, e, a.queued, a.maxsize));
        balanced = ground (arith, h.balanced, e, a.queued, a.unfinished, a.held);
        never_full = a.queue_full ∙ h.never_full;
        called = rw (a.stopper, a.stopping) h.called;
        halted = rw (a.stopper, a.fetcher) h.halted;
        empty = rw a.stopper (ground (arith, h.empty, e));
      })

  no_claim : (s : Loop R) → IsSteady s → IsSteady (record s { fetcher = Fetcher.idle })
  no_claim s h = record {
    fits = ground (arith, h.fits);
    balanced = h.balanced;
    never_full = h.never_full;
    called = h.called;
    halted = ground arith;
    empty = h.empty;
  }

  pub fail-Steady :
      (f : Fetcher) (s : Loop R)
      → s.fetcher ≡ f
      → IsSteady s
      → Steady (elim f [ Fetcher.idle ↦ none | _ ↦ some (record s { fetcher = Fetcher.idle }) ])
  fail-Steady Fetcher.idle s e h = tt
  fail-Steady (Fetcher.waiting n) s e h = no_claim s h
  fail-Steady (Fetcher.fetching n) s e h = no_claim s h
