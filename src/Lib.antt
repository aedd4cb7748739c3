-- ===== src/Lib.antt =====
-- The Go server of the order system, server/. It consumes plan events from Kafka, applies them to
-- orders in Postgres in the sequence that their seq_ids give, and notifies a webhook of each applied
-- event through a transactional outbox.
--
-- Parts, and the files that model them:
--
-- * server/pkg/models/event.go, Models.antt: the envelope `EventEnvelope`, `validate`
--   (EventEnvelope.Validate), `status_from_event_type`. Models/Validity.antt says which events are
--   valid.
-- * server/internal/sequencing/sequencing.go, Sequencing.antt: `decide` and `decide_abort`, pure rules
--   on an `OrderState`. Sequencing/Rules.antt says what they mean.
-- * server/internal/db/postgres.go, under Db. Db/Tables.antt has the tables of init.sql as lists of rows
--   and the session; Db/Statements.antt has one function for each SQL statement, over the row functions
--   of Db/Rows.antt; Db/Repository.antt composes them the way ApplyEvent and AbortPlan do
--   (`apply_event`, `abort_plan`, with `write_event` for applyEvent, `drain_pending`, `buffer_event`,
--   `insert_outbox`, `lock_order`), calling `decide` and `decide_abort`. Db/Expiry.antt has ExpirePending
--   (`expire_pending`), whose state is the session and that of its sink, and PendingEventsCount.
--   Db/Ensures.antt and Db/Progress.antt have the proof rules for what an action establishes and for when
--   it succeeds; the other files of Db are named for what they prove.
-- * server/internal/db/outbox.go, Db/Outbox.antt, with its WHERE clauses in Db/Outbox/Rows.antt.
-- * server/internal/dispatcher/dispatcher.go, Dispatcher.antt (`deliver`, `dispatch_batch`) over the
--   interface `OutboxStore`, which `repository_store` fills with the repository; its defaults and
--   timeouts in Dispatcher/Defaults.antt, its retry delay in Dispatcher/Backoff.antt, the loop Run in
--   Dispatcher/Loop.antt (`run`, over a list of rounds that say what happens between and during the
--   batches), its requests in Dispatcher/Post.antt (`post`), and the settings and the metrics of its
--   circuit breaker in Dispatcher/Circuit.antt.
-- * server/internal/consumer/consumer.go, Consumer.antt: `handle_record` and what it calls,
--   `process_with_retry`, and `consume` for one batch of Run, over the interfaces `Store`, which
--   `event_store` fills with the repository, and `DeadLetter`, whose law is that an acknowledged message
--   is on the topic. Consumer/Sweeper.antt has expirePending (`sweep_pending`) over the store's
--   ExpirePending; Consumer/Delays.antt the delays between the attempts at a record (`delay_after`).
-- * server/internal/dlq/dlq.go, Dlq.antt: `send` and `send_raw` over a client of Kafka; `producer` of
--   Dlq/Producer.antt fills `DeadLetter`.
-- * server/internal/config/config.go, Config.antt: `load`, `load_env`, `config_of` and `validate`, with the
--   functions on texts in Config/Texts.antt. The environment is what os.Getenv reads.
-- * server/cmd/server/main.go, Server.antt: the configuration of the dispatcher (`dispatcher_config`).
-- * server/internal/metrics, Metrics.antt: the label values and the series of New; Metrics/Backlog.antt the
--   collector (`collect`) over the repository.
-- * Prelude.antt and Exec.antt are shared: tests, lists, integers, and the actions that return an error
--   and change state. Scenarios.antt has concrete runs.
--
-- State and failures. A `Session` holds the tables, the sequence of outbox.position, the clock and the
-- faults of the requests to come: each request to Postgres may fail, and a COMMIT may also take effect
-- while its answer is lost. A transaction (pgx.BeginFunc) puts the tables back when its body or its
-- COMMIT fails; a single statement commits on its own. SQL is translated as Postgres defines it. The
-- transactions of one order run one after another, as the advisory lock makes them where the order's id
-- is always spelled the same.
--
-- The invariant of the tables is `Inv` of Db/Invariant.antt: an order has notified of the seq_ids 1, 2, …
-- up to its last applied one, each once and in order; its last applied seq_id is not negative; and every
-- row of the reorder buffer holds a sequenced event under its own key that, decided again, would be
-- buffered again or belongs to another plan.
--
-- Parameters. What the code calls and does not implement is in the record `Platform`: the JSON codec,
-- uuid and decimal casts, the driver's encoding of INTEGER, the length of VARCHAR. `RoundTrips` is its one
-- hypothesis on JSON: an envelope that was marshalled and stored reads back as itself. uuid.Parse,
-- time.ParseDuration, the circuit breaker's admission, the client of net/http (`HttpClient`) and the rows
-- locked by others are arguments; the client of Kafka is the record `Kafka` with the laws `KafkaLaws`.
--
-- Bounds and fuel. Go's int is an integer `ℤ`: a seq_id that is written passes the INTEGER encoding, so
-- the additions on it do not wrap. `backoff` and the delays of the
-- consumer wrap at 64 bits. The loop of drainPending runs on fuel, one
-- round more than there are buffered rows, of which each round but the last takes one; so does the loop
-- of expirePending, of which each batch but the last deletes a row.
--
-- Not modelled: the histogram of the requests of the dispatcher, that of the time until a record is
-- settled, a CommitRecords that fails (the records that the code commits count as committed), the
-- ticker of the sweeper, the lag of the consumer, opening and closing the connections to Postgres
-- and to Kafka, the names and the registration of the metrics, telemetry, the rest of the server's
-- entry point and the test helper, which are input and output or wiring; and the Python agent,
-- simulators and scripts around the server.
pub mod Prelude
pub mod Exec
pub mod Models
pub mod Sequencing
pub mod Db
pub mod Dispatcher
pub mod Consumer
pub mod Scenarios
pub mod Config
pub mod Server
pub mod Metrics
pub mod Dlq
