-- ===== src/Lib.antt =====
-- faststream_outbox is a transactional outbox for FastStream: a publisher inserts a row into a
-- Postgres table on the caller's own session, and subscribers claim rows under a lease, run a
-- handler, and then delete the row, reschedule it, or move it to a dead-letter table. This library
-- models the parts of the package that decide what happens to a row, and proves what keeps a row
-- from being lost, handled by two workers at once, or reported wrongly.
--
-- How the parts interact: the publisher (faststream_outbox/publisher/producer.py,
-- faststream_outbox/envelope.py, faststream_outbox/response.py) hands a row to the client
-- (faststream_outbox/client.py), whose statements change the two tables
-- (faststream_outbox/schema.py). A subscriber (faststream_outbox/subscriber/usecase.py) fetches
-- messages (faststream_outbox/message.py) through the client, dispatches each to the handler,
-- which records an outcome on it, with a delay that a retry strategy (faststream_outbox/retry.py)
-- gives, and writes that outcome back under the lease. The test broker replaces the client by an
-- in-memory one (faststream_outbox/testing.py).
--
-- Which file models what:
--
-- - Base (with Base.Tests, Base.Lists, Base.Sort, Base.Int, Base.Results): Boolean tests, lists
--   over the native numbers, sorting by a pair of numbers, signed numbers, and the result of a
--   fallible call.
-- - Message, Message.Types, Message.Scheduling, Message.Parser: faststream_outbox/message.py,
--   faststream_outbox/_scheduling.py and faststream_outbox/parser/parser.py. OutboxInnerMessage
--   is a record; `_ack`, `_nack`, `_reject` are do_ack, do_nack, do_reject; ack, nack, reject,
--   allow_delivery and assert_state_set keep their names.
-- - Table, Table.Rows, Table.Identifiers: faststream_outbox/schema.py. A row is a record with
--   the columns as fields; the tables and the id sequence are a Database; the CHECK and the
--   unique indexes are predicates.
-- - Client, Client.Insert: faststream_outbox/client.py, with the NOTIFY in Client.Insert.Notify.
--   Each method of OutboxClient is a function of the same name from the tables to the tables and
--   the answer; `_build_fetch_stmt` is ready and claim_rows, `_build_insert_stmts` is
--   run_insert.
-- - Fake, Fake.Insert, Fake.Batch: faststream_outbox/testing.py, FakeOutboxClient, with the
--   loops over its list as they are written; Fake.Fetch, Fake.Writes, Fake.Reads,
--   Fake.Insert.Refines and Fake.Batch.Refines relate it to Client. Fake.Delivering is the
--   synchronous dispatch of TestOutboxBroker, through the subscriber's own dispatch_one;
--   Fake.Harness its start and close of the subscribers.
-- - Lease: every interleaving of the clients of all hosts as a list of statements on the tables.
-- - Subscriber.Flush: `_safe_flush`, `_flush_terminal`, `_flush_retry` and the metrics of
--   faststream_outbox/subscriber/usecase.py, over an interface of client calls that may raise;
--   Subscriber.Effects fills it with Client. Subscriber.Dispatch: dispatch_one,
--   `_write_outcome`, `_flush_or_buffer`. Subscriber.Buffering: `_flush_buffer`.
--   Subscriber.Worker: `_worker_inner`. Subscriber.Truncate: `_truncate_str`.
-- - Subscriber.Draining: the fetch loop, the workers and `stop` of
--   faststream_outbox/subscriber/usecase.py around the `_inflight` queue, as steps between two
--   awaits in any order; Subscriber.Draining.Steady, Claims, Stops, Reached and Joined hold what
--   is proved of their runs. Subscriber.Processing: `process_message` and `consume`, as the
--   entry of the middlewares, the search for a handler, the publishers of its reply, and the
--   exits in reverse; Subscriber.Processing.Capture has the middleware of
--   faststream_outbox/broker.py. Subscriber.Listening: `_open_fetch_resources`, the LISTEN
--   connection and `_on_notify`. Subscriber.Reconnect: `_run_with_reconnect` and
--   `_compute_backoff`. Subscriber.Settings: faststream_outbox/subscriber/config.py.
-- - Retry: faststream_outbox/retry.py, over an interface of floats.
-- - Broker: faststream_outbox/broker.py; Broker.Queues the pool and queue checks of `start` and
--   the leases of `_start_queue_lag`, Broker.Foreign the warnings about foreign publishers,
--   Broker.Start `start`, `_connect` and the lag sampler from start to stop, Broker.Shutdown
--   `stop` and `ping`, Broker.Registration faststream_outbox/registrator.py, Broker.Publishing
--   `publish`, `publish_batch` and faststream_outbox/publisher/usecase.py.
-- - Schema: faststream_outbox/schema_validation.py and faststream_outbox/autovacuum.py;
--   Schema.Probes and Schema.Drift find the mismatches (Schema.Probes.Named writes the expected
--   indexes out), Schema.Validate is `validate_schema`, Schema.Autovacuum the statement and the
--   check of the vacuum settings. A message is the data that it is printed from.
-- - Metrics: faststream_outbox/metrics/prometheus.py, as the updates of the series;
--   Metrics.InProcess joins it to the dispatch. Metrics.OpenTelemetry:
--   faststream_outbox/metrics/opentelemetry.py, as the measurements of the instruments.
--   Metrics.Lag: faststream_outbox/metrics/lag.py, the statement and, in Metrics.Lag.Sampler,
--   the gauges from the entry of the context to its exit.
-- - Publish: faststream_outbox/envelope.py, faststream_outbox/response.py,
--   faststream_outbox/publisher/producer.py, and what a response inherits in
--   faststream_outbox/subscriber/usecase.py.
-- - Examples: concrete data, and each theorem at it.
--
-- Times are microseconds on one clock, and the clock is an argument where the code reads it; time
-- differences and delays are signed. A UUID is a number. Postgres runs a statement whole; `locked`
-- says which rows SKIP LOCKED passes over. No definition takes fuel: every loop of the model runs
-- over a list, the worker loop over the list of its turns and the reconnect loop over that of its
-- cycles, so each is total.
--
-- Parameters of the model, for code that is not in the repository: the connection (a client call
-- may raise anything), the answers of the catalog queries and of Alembic's compare_metadata, the
-- body of a handler and a retry strategy of the user's own, the middlewares and the foreign
-- publishers, the `connect`, `start` and `_basic_publish` of FastStream, encode_message and
-- gen_cor_id, the float operations and the random draw.
--
-- Not modelled: the context scopes, locks and parsers of FastStream around a handler; the mocks by
-- which TestOutboxBroker patches a broker; the router, the factories, the specifications and the
-- FastAPI router, which forward arguments to FastStream; the construction of the metric
-- instruments, their custom labels, and the middlewares with their providers, which hand fields to
-- FastStream; a retry strategy that raises a BaseException which is no Exception, such as
-- KeyboardInterrupt, out of a nack; logging beyond the lines named above. The benchmarks are no
-- part of the package.
pub mod Base
pub mod Message
pub mod Table
pub mod Client
pub mod Fake
pub mod Lease
pub mod Subscriber
pub mod Retry
pub mod Publish
pub mod Examples
pub mod Broker
pub mod Metrics
pub mod Schema
