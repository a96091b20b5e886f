-- ===== src/Subscriber/Processing/Capture.antt =====
-- faststream_outbox/broker.py, `_CaptureExceptionMiddleware`: the exception of a handler is on the row
-- before the acknowledgement middleware of FastStream, which is a parameter, nacks it. `describe` is
-- what is read of an exception.
use faststream_outbox.Base.{ℕ, ◌≡◌, false, Option, none, some, List, ok, Error}
use faststream_outbox.Message.Types.{HandlerError, OutboxInnerMessage}
use faststream_outbox.Message.{nack}
use faststream_outbox.Subscriber.Processing.{Mark, Run, Middleware}

-- `after_processed`.
unfoldable pub after_processed :
    (Error → HandlerError) → Option Error → OutboxInnerMessage → OutboxInnerMessage
after_processed describe none row = row
after_processed describe (some e) row = record row { last_exception = some (describe e) }

unfoldable pub capture {ℓ} :
    {T : Type ℓ} → ℕ → (Error → HandlerError) → Middleware (T × OutboxInnerMessage)
unfolding after_processed
capture id describe = record {
  id = id;
  enter = λ s. (s, ok tt);
  exit = λ e s. ((s.0, after_processed describe e s.1), ok false);
}

-- What is assumed of FastStream's AcknowledgementMiddleware for an exception that its policy nacks: it
-- nacks the row and lets the exception through.
pub record NacksOn {ℓ} {T : Type ℓ} (now : ℕ) (e : Error)
    (ack : Middleware (T × OutboxInnerMessage)) : Type ℓ where
  pub enters : (s : T × OutboxInnerMessage) → ack.enter s ≡ (s, ok tt)
  pub nacks :
      (t : T) (row : OutboxInnerMessage)
      → ack.exit (some e) (t, row) ≡ ((t, nack now row), ok false)

-- A middleware that changes nothing and lets the exception through.
pub record IsTransparent {ℓ} {S : Type ℓ} (e : Error) (m : Middleware S) : Type ℓ where
  pub enters : (s : S) → m.enter s ≡ (s, ok tt)
  pub exits : (s : S) → m.exit (some e) s ≡ (s, ok false)

abbrev with_marks {ℓ} : {S : Type ℓ} → Run S → List Mark → Run S
with_marks r marks = record r { marks = marks }
