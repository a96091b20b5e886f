-- ===== src/Metrics/InProcess.antt =====
-- faststream_outbox/metrics/prometheus.py with subscriber/usecase.py: the gauge of the messages in
-- process goes up and down once for each dispatch.
use Prim.Native.String.{String}
use faststream_outbox.Base.{ℕ, ◌+◌, ◌≡◌, Bool, true, List, [], ◌∷◌, ◌++◌, Result}
use faststream_outbox.Subscriber.Types.{Event, Emission, World}
use faststream_outbox.Subscriber.Closing.{Weights, awaited}
use faststream_outbox.Metrics.Prometheus.{Update, record_event}

abbrev pub is_inc : Update → ℕ
is_inc (Update.in_process_inc labels) = 1
is_inc _ = 0

abbrev pub is_dec : Update → ℕ
is_dec (Update.in_process_dec labels) = 1
is_dec _ = 0

abbrev pub total : (Update → ℕ) → List Update → ℕ
total f [] = 0
total f (x ∷ xs) = f x + total f xs

-- What the recorder did at the emissions of a dispatch.
abbrev pub recorded : List String → List Emission → List Update
recorded labels [] = []
recorded labels (e ∷ es) = record_event true labels e ++ recorded labels es

abbrev timed_only : Weights
timed_only = record { untimed = 0; opening = 0 }

abbrev with_opening : Weights
with_opening = record { untimed = 0; opening = 1 }

abbrev pub opens : Event → ℕ
opens (Event.dispatched n) = 1
opens _ = 0

-- From `w`, the gauge has gone up once and down once, or will go down when the buffered row is
-- settled.
abbrev pub Balances {ℓ} : {S : Type ℓ} → List String → World S → World S × Result Bool → Type 0
Balances labels w (w', r) =
    (total is_inc (recorded labels w'.metrics) ≡ total is_inc (recorded labels w.metrics) + 1)
    × (total is_dec (recorded labels w'.metrics) + awaited r
        ≡ total is_dec (recorded labels w.metrics) + 1)
