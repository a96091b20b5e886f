-- ===== src/Examples/Wiring.antt =====
-- Concrete settings, responses, batches and starts of a broker.
use faststream_outbox.Broker.Registration.{Registrator, subscriber}
use faststream_outbox.Broker.Registration.Overlaps.{subscriber_each-duplicated}
use faststream_outbox.Base.{
  ℕ, ◌+◌, ◌⊎◌, String, Bool, any, contains, string_eq, arith, ◌++◌, ◌≡◌, ◌↔◌, refl, true, false,
  none, some, List, [], ◌∷◌, Result, ok, raise, Error, pos,
}
use faststream_outbox.Client.Insert.{append_batch}
use faststream_outbox.Publish.Command.{Queue, PublishArgs, OutboxPublishCommand}
use faststream_outbox.Publish.Response.{
  OutboxResponse, as_publish_command, inferred, outbox_response,
}
use faststream_outbox.Subscriber.Settings.{int, finite, Settings, Warning, validate, warnings}
use faststream_outbox.Subscriber.Settings.Accepted.{IsConfigured, validate-IsConfigured}
use faststream_outbox.Broker.Publishing.{batch_args}
use faststream_outbox.Broker.Foreign.{Relaying, Warned, warn_on_unstarted_foreign_publishers}
use faststream_outbox.Broker.Queues.{Sub, duplicated}
use faststream_outbox.Fake.{FakeOutboxClient}
use faststream_outbox.Fake.Batch.{fake_insert_batch}
use faststream_outbox.Fake.Batch.Refines.{IsStored, batch_refines}
use faststream_outbox.Examples.{fake_orders}
use faststream_outbox.Examples.Publishing.{whole}

abbrev settings : Settings ℕ
settings = record {
  queues = Queue.text "orders" ∷ Queue.text "mail" ∷ [];
  max_workers = int (pos 2);
  fetch_batch_size = int (pos 10);
  terminal_flush_batch_size = int (pos 1);
  max_deliveries = some (int (pos 5));
  min_fetch_interval = finite 1;
  max_fetch_interval = finite 10;
  lease_ttl_seconds = finite 10;
  query_timeout_seconds = none;
  ack_policy = none;
  no_retry = some true;
}

settings_lem :
    validate whole settings ≡ ok (Warning.cap_unreachable ∷ Warning.lease_within_wait ∷ [])
unfolding validate
settings_lem = refl

repeated_lem :
    validate whole (record settings { queues = Queue.text "a" ∷ Queue.text "a" ∷ [] })
    ≡ raise Error.value_error
unfolding validate
repeated_lem = refl

validate-IsConfigured_example :
    (validate whole settings ≡ ok (warnings whole settings)) ↔ IsConfigured whole settings
validate-IsConfigured_example = validate-IsConfigured whole settings

abbrev args : PublishArgs
args = batch_args (Queue.text "orders") true none none

abbrev response : OutboxResponse ℕ
response = record {
  body = 4;
  args = args;
  headers = some (("correlation_id", "c") ∷ []);
  correlation_id = some "c";
}

response_lem :
    (outbox_response 4 args (some (("correlation_id", "c") ∷ [])) none ≡ ok response)
    × (as_publish_command response
        ≡ ok (record {
          body = 4;
          extra_bodies = [];
          args = args;
          headers = some (("correlation_id", "c") ∷ []);
          correlation_id = some "c";
        }))
unfolding inferred outbox_response as_publish_command
response_lem = (refl, refl)

abbrev keep : OutboxPublishCommand ℕ → ℕ → ℕ × Result (Unit {0})
keep cmd s = (s + 1, ok tt)

abbrev relaying : List Relaying
relaying =
    record {
      queues = "orders" ∷ [];
      calls =
          (record { config = 5; wired = false } ∷ record { config = 6; wired = true } ∷ [])
          ∷ (record { config = 5; wired = false } ∷ [])
          ∷ [];
    }
    ∷ []

abbrev nothing_warned : Warned
nothing_warned = record { ids = []; log = [] }

relaying_lem :
    warn_on_unstarted_foreign_publishers relaying nothing_warned
    ≡ record { ids = 5 ∷ []; log = record { config = 5; queues = "orders" ∷ [] } ∷ [] }
unfolding warn_on_unstarted_foreign_publishers
relaying_lem = refl

abbrev routed : Sub
routed = record { queues = "mail" ∷ "orders" ∷ []; max_workers = 1; lease_ttl = 60; direct = false }

duplicated_lem : duplicated (routed ∷ routed ∷ []) ≡ "mail" ∷ "orders" ∷ []
unfolding duplicated
duplicated_lem = refl

batch_refines_example :
    (l : FakeOutboxClient) × ((fake_insert_batch 50 none none "orders"
          ((1 ∷ [], none) ∷ (2 ∷ [], none) ∷ [])
          fake_orders
        ≡ ok l)
      × IsStored fake_orders l
          (append_batch 50 none "orders" ((1 ∷ [], none) ∷ (2 ∷ [], none) ∷ []) fake_orders.tables))
unfolding faststream_outbox.Fake.Batch.validate_each
    faststream_outbox.Message.Scheduling.resolve_next_attempt_client_side
    faststream_outbox.Fake.Insert.validate_like_postgres
batch_refines_example =
    batch_refines 50 none none none "orders" ((1 ∷ [], none) ∷ (2 ∷ [], none) ∷ []) fake_orders refl
      refl

-- Two subscribers of the broker share "orders", and a router's serves "mails" with one of them.
abbrev served : List String → Bool → Sub
served queues direct = record { queues = queues; max_workers = 1; lease_ttl = 60; direct = direct }

abbrev registrations : List (Result (Unit {0}) × Sub)
registrations =
    (ok tt, served ("orders" ∷ []) true) ∷ (ok tt, served ("orders" ∷ "mails" ∷ []) true) ∷ []

abbrev registered : Registrator
registered = record {
  subscribers = served ("orders" ∷ []) true ∷ served ("orders" ∷ "mails" ∷ []) true ∷ [];
  warned = ("orders" ∷ []) ∷ [];
}

subscriber_each-duplicated_example :
    (any (contains "mails") registered.warned ≡ true)
    ⊎ (contains "mails" (duplicated (registered.subscribers ++ served ("mails" ∷ []) false ∷ []))
        ≡ true)
unfolding subscriber
subscriber_each-duplicated_example =
    subscriber_each-duplicated registrations (served ("mails" ∷ []) false ∷ []) "mails" registered
      refl (refl, tt) (omega arith)
