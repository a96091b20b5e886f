-- ===== src/Subscriber/Batch.antt =====
-- The batched delete of faststream_outbox/subscriber/usecase.py, `_flush_buffer`: what it settles.
use faststream_outbox.Base.{
  ℕ, ◌+◌, ◌≡◌, ◌⊎◌, refl, ap, sym, ◌∙◌, Bool, true, Option, none, some, List, [], ◌∷◌, Result, ok,
  raise, is_some, length, All, Bool-cases, Option-cases, inl, inr, arith,
}
use faststream_outbox.Message.Types.{OutboxInnerMessage}
use faststream_outbox.Subscriber.Types.{
  LeaseClient, Config, Phase, Event, PendingFlush, World, emit, answered,
}
use faststream_outbox.Subscriber.Flush.{tagged, emit_lease_lost, emit_dispatch_abandoned}
use faststream_outbox.Subscriber.Buffering.{
  report_flushed, report_abandoned, pairs_of, flushed, flush_buffer, landed,
}
use faststream_outbox.Subscriber.Closing.{
  Weights, weight, closes, closed, closed-emit, abandoned-closes,
}

-- A buffered row's event has the duration of its handler, and where no handler ran, because the row was
-- over its delivery limit, an event without one is not counted.
abbrev pub Buffered : Weights → PendingFlush → Type 0
Buffered u p =
    (closes u p.emission ≡ weight u.untimed p.row.handler_duration_seconds)
    × ((is_some p.row.handler_duration_seconds ≡ true) ⊎ (u.untimed ≡ 0))

-- The buffered rows whose handler ran.
unfoldable pub timed_rows : List PendingFlush → ℕ
timed_rows [] = 0
timed_rows (p ∷ ps) = weight 0 p.row.handler_duration_seconds + timed_rows ps

-- What settling `n` buffered rows, with a handler run for `m` of them, does to the queue's count and
-- the metrics.
abbrev pub Settles {ℓ} : {S : Type ℓ} → Weights → ℕ → ℕ → World S → World S → Type 0
Settles u n m w w' =
    (w'.done ≡ w.done + n) × ((closed u w'.metrics ≡ closed u w.metrics + m) × (w'.taken ≡ w.taken))

uncounted :
    (untimed : ℕ) (o : Option ℕ)
    → (is_some o ≡ true) ⊎ (untimed ≡ 0)
    → weight untimed o ≡ weight 0 o
uncounted untimed none (inl h) = absurd (ground (arith, h))
uncounted untimed none (inr h) = h
uncounted untimed (some d) h = refl

module _ {ℓ} {S : Type ℓ} (cfg : Config) (client : LeaseClient S) (has_writer running : Bool) where
  pub lost-keeps :
      (p : Phase) (row : OutboxInnerMessage) (w : World S)
      → ((emit_lease_lost cfg client has_writer running p row w).done ≡ w.done)
        × ((emit_lease_lost cfg client has_writer running p row w).taken ≡ w.taken)
  unfolding emit_lease_lost
  lost-keeps p row w = (refl, refl)

  pub abandoned-keeps :
      (row : OutboxInnerMessage) (w : World S)
      → ((emit_dispatch_abandoned cfg client has_writer running row w).done ≡ w.done)
        × ((emit_dispatch_abandoned cfg client has_writer running row w).taken ≡ w.taken)
  unfolding emit_dispatch_abandoned
  abandoned-keeps row w = (ground arith, ground arith)

module _ {ℓ} {S : Type ℓ} (u : Weights) (cfg : Config) (client : LeaseClient S)
    (has_writer running : Bool) where
  lost_lem :
      (p : Phase) (row : OutboxInnerMessage) (w : World S)
      → closed u (emit_lease_lost cfg client has_writer running p row w).metrics
        ≡ closed u w.metrics + weight u.untimed row.handler_duration_seconds
  unfolding emit_lease_lost
  lost_lem p row w =
      closed-emit u w.metrics (tagged (Event.lease_lost p) row.handler_duration_seconds none row)

  abandoned_lem :
      (row : OutboxInnerMessage) (w : World S)
      → closed u (emit_dispatch_abandoned cfg client has_writer running row w).metrics
        ≡ closed u w.metrics + weight 0 row.handler_duration_seconds
  unfolding emit_dispatch_abandoned
  abandoned_lem row w = elim (Option-cases row.handler_duration_seconds) [
    | inl e ↦ rw (e, emit_dispatch_abandoned) (omega arith)
    | inr (d, e) ↦
        abandoned-closes u cfg client has_writer running row w e
        ∙ ap (λ o. closed u w.metrics + weight 0 o) (sym e)
  ]

  report_flushed-Settles :
      (deleted : List (ℕ × ℕ)) (buffer : List PendingFlush) (w : World S)
      → All (Buffered u) buffer
      → Settles u
          (length buffer)
          (timed_rows buffer)
          w
          (report_flushed cfg client has_writer running deleted buffer w)
  unfolding report_flushed timed_rows
  report_flushed-Settles deleted [] w h = (omega arith, (omega arith, refl))
  report_flushed-Settles deleted (p ∷ ps) w h =
      let counts = uncounted u.untimed p.row.handler_duration_seconds h.0.1 in
      elim (Bool-cases (landed cfg client has_writer running p.row deleted)) [
        | inl e ↦
            rw (e, report_flushed)
              (ground (
                arith,
                counts,
                h.0.0,
                closed-emit u w.metrics p.emission,
                report_flushed-Settles deleted ps (record (emit p.emission w) { done = w.done + 1 })
                    h.1,
              ))
        | inr e ↦
            let lost = emit_lease_lost cfg client has_writer running Phase.terminal p.row w in
            rw (e, report_flushed)
              (ground (
                arith,
                counts,
                lost-keeps cfg client has_writer running Phase.terminal p.row w,
                lost_lem Phase.terminal p.row w,
                report_flushed-Settles deleted ps (record lost { done = lost.done + 1 }) h.1,
              ))
      ]

  report_abandoned-Settles :
      (buffer : List PendingFlush) (w : World S)
      → Settles u
          (length buffer)
          (timed_rows buffer)
          w
          (report_abandoned cfg client has_writer running buffer w)
  unfolding report_abandoned timed_rows
  report_abandoned-Settles [] w = (omega arith, (omega arith, refl))
  report_abandoned-Settles (p ∷ ps) w =
      let left = emit_dispatch_abandoned cfg client has_writer running p.row w in
      ground (
        arith,
        abandoned-keeps cfg client has_writer running p.row w,
        abandoned_lem p.row w,
        report_abandoned-Settles ps (record left { done = left.done + 1 }),
      )

  flushed-Settles :
      (buffer : List PendingFlush) (a : S × Result (List (ℕ × ℕ))) (w : World S)
      → All (Buffered u) buffer
      → Settles u
          (length buffer)
          (timed_rows buffer)
          w
          (flushed cfg client has_writer running buffer a w).0
  unfolding flushed
  flushed-Settles buffer (s, ok deleted) w h =
      report_flushed-Settles deleted buffer (answered s w) h
  flushed-Settles buffer (s, raise e) w h = report_abandoned-Settles buffer (answered s w)

  -- Flushing the buffer calls task_done once for each buffered row, and emits one closing event with
  -- the duration for each row whose handler ran, and none for the others, whether the DELETE runs or
  -- raises; it takes no row off the queue. Events without a duration are counted too, with any weight,
  -- if a handler ran for every row.
  pub flush_buffer-Settles :
      (buffer : List PendingFlush) (w : World S)
      → All (Buffered u) buffer
      → Settles u
          (length buffer)
          (timed_rows buffer)
          w
          (flush_buffer cfg client has_writer running buffer w).0
  unfolding flush_buffer timed_rows
  flush_buffer-Settles [] w h = (omega arith, (omega arith, refl))
  flush_buffer-Settles (p ∷ ps) w h =
      flushed-Settles (p ∷ ps)
        (client.delete_batch_with_lease (pairs_of cfg client has_writer running (p ∷ ps)) w.client)
        w h
