-- ===== src/Subscriber/Draining/Adding.antt =====
-- faststream_outbox/subscriber/usecase.py: what `put_nowait` does to a queue with room.
use faststream_outbox.Base.{
  ℕ, suc, ◌+◌, ◌≤◌, ◌<◌, ◌≡◌, refl, ◌∙◌, subst, false, List, [], ◌∷◌, length, leb, length-append,
  arith,
}
use faststream_outbox.Subscriber.Draining.{Loop, put_nowait, put_each}

module _ {ℓ} {R : Type ℓ} where
  -- `k` rows are added to the queue, and nothing else changes.
  pub record Adds (k : ℕ) (s t : Loop R) : Type ℓ where
    pub maxsize : t.maxsize ≡ s.maxsize
    pub queued : length t.queued ≡ length s.queued + k
    pub unfinished : t.unfinished ≡ s.unfinished + k
    pub held : t.held ≡ s.held
    pub stopping : t.stopping ≡ s.stopping
    pub stopper : t.stopper ≡ s.stopper
    pub queue_full : t.queue_full ≡ s.queue_full
    pub fetcher : t.fetcher ≡ s.fetcher

  Adds-trans : (j k : ℕ) (s t u : Loop R) → Adds j s t → Adds k t u → Adds (j + k) s u
  Adds-trans j k s t u a b = record {
    maxsize = b.maxsize ∙ a.maxsize;
    queued = ground (arith, a.queued, b.queued);
    unfinished = ground (arith, a.unfinished, b.unfinished);
    held = b.held ∙ a.held;
    stopping = b.stopping ∙ a.stopping;
    stopper = b.stopper ∙ a.stopper;
    queue_full = b.queue_full ∙ a.queue_full;
    fetcher = b.fetcher ∙ a.fetcher;
  }

  pub put_nowait-Adds :
      (row : R) (s : Loop R) → length s.queued < s.maxsize → Adds 1 s (put_nowait row s)
  unfolding put_nowait
  put_nowait-Adds row s h = rw (room s.maxsize (length s.queued) h) (record {
    maxsize = refl;
    queued = length-append s.queued (row ∷ []);
    unfinished = refl;
    held = refl;
    stopping = refl;
    stopper = refl;
    queue_full = refl;
    fetcher = refl;
  })
    where
      room : (m n : ℕ) → n < m → leb m n ≡ false
      room m n h = ground arith

  pub put_each-Adds :
      (rows : List R) (s : Loop R)
      → length s.queued + length rows ≤ s.maxsize
      → Adds (length rows) s (put_each rows s)
  unfolding put_each
  put_each-Adds [] s h = record {
    maxsize = refl;
    queued = omega arith;
    unfinished = omega arith;
    held = refl;
    stopping = refl;
    stopper = refl;
    queue_full = refl;
    fetcher = refl;
  }
  put_each-Adds (row ∷ rows) s h =
      let first = put_nowait-Adds row s (omega arith) in
      subst (λ k. Adds k s (put_each rows (put_nowait row s))) (one_more (length rows))
        (Adds-trans 1 (length rows) s (put_nowait row s) (put_each rows (put_nowait row s)) first
          (put_each-Adds rows (put_nowait row s) (ground (arith, first.queued, first.maxsize, h))))
    where
      one_more : (n : ℕ) → 1 + n ≡ suc n
      one_more n = omega arith
