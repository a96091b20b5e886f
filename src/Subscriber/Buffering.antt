-- ===== src/Subscriber/Buffering.antt =====
-- faststream_outbox/subscriber/usecase.py, `_flush_buffer`: the buffered rows deleted in one statement.
use faststream_outbox.Base.{
  ℕ, ◌+◌, Bool, false, ◌&&◌, none, some, List, [], ◌∷◌, Result, ok, raise, ◌==◌, nat_eq, any,
  if◌then◌else◌,
}
use faststream_outbox.Message.Types.{OutboxInnerMessage}
use faststream_outbox.Subscriber.Types.{
  LeaseClient, Config, Phase, PendingFlush, World, emit, answered,
}
use faststream_outbox.Subscriber.Flush.{emit_lease_lost, emit_dispatch_abandoned}

module _ {ℓ} {S : Type ℓ} (cfg : Config) (client : LeaseClient S) (has_writer running : Bool) where
  -- The row's pair is among the deleted ones.
  unfoldable pub landed : OutboxInnerMessage → List (ℕ × ℕ) → Bool
  landed row deleted = elim row.acquired_token [
    | none ↦ false
    | some token ↦ any (λ d. d.0 == row.id && d.1 == token) deleted
  ]

  -- The loop of `_flush_buffer` after the DELETE.
  unfoldable pub report_flushed : List (ℕ × ℕ) → List PendingFlush → World S → World S
  unfolding landed
  report_flushed deleted [] w = w
  report_flushed deleted (p ∷ ps) w =
      let w' =
        if landed p.row deleted
        then emit p.emission w
        else emit_lease_lost cfg client has_writer running Phase.terminal p.row w in
      report_flushed deleted ps (record w' { done = w'.done + 1 })

  unfoldable pub report_abandoned : List PendingFlush → World S → World S
  report_abandoned [] w = w
  report_abandoned (p ∷ ps) w =
      let w' = emit_dispatch_abandoned cfg client has_writer running p.row w in
      report_abandoned ps (record w' { done = w'.done + 1 })

  unfoldable pub pairs_of : List PendingFlush → List (ℕ × ℕ)
  pairs_of [] = []
  pairs_of (p ∷ ps) = elim p.row.acquired_token [
    | none ↦ pairs_of ps
    | some token ↦ (p.row.id, token) ∷ pairs_of ps
  ]

  unfoldable pub flushed :
      List PendingFlush → S × Result (List (ℕ × ℕ)) → World S → World S × Result (Unit {0})
  unfolding report_flushed report_abandoned
  flushed buffer (s, ok deleted) w = (report_flushed deleted buffer (answered s w), ok tt)
  flushed buffer (s, raise e) w = (report_abandoned buffer (answered s w), raise e)

  -- Either way the buffer is empty afterwards.
  unfoldable pub flush_buffer : List PendingFlush → World S → World S × Result (Unit {0})
  unfolding pairs_of flushed
  flush_buffer [] w = (w, ok tt)
  flush_buffer (p ∷ ps) w =
      flushed (p ∷ ps) (client.delete_batch_with_lease (pairs_of (p ∷ ps)) w.client) w
