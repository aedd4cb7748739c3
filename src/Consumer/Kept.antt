-- ===== src/Consumer/Kept.antt =====
-- server/internal/consumer/consumer.go over server/internal/db/postgres.go: the consumer and the
-- invariant of the tables.
use distribuid_system_simula.Prelude.{ℕ, String, Bool, true, List, ◌≡◌, ◌⊎◌, inl, inr, refl, ◌==◌}
use distribuid_system_simula.Exec.{Result, ok, err}
use distribuid_system_simula.Models.{EventEnvelope, validate, event_type_abort_plan}
use distribuid_system_simula.Models.Validity.{IsSequenced, validate-IsWellFormed}
use distribuid_system_simula.Db.Platform.{Platform, RoundTrips}
use distribuid_system_simula.Db.Tables.{PendingEvent, Session}
use distribuid_system_simula.Db.Invariant.{Inv}
use distribuid_system_simula.Db.Invariant.Apply.{apply_event-Inv}
use distribuid_system_simula.Db.Invariant.Abort.{abort_plan-Inv}
use distribuid_system_simula.Consumer.{
  DeadLetter, Consuming, handle_sequenced, handle_abort, handle_valid, handle_event, handle_decoded,
  handle_record, consume, event_store,
}
use distribuid_system_simula.Consumer.Batch.{consume-keeps}
use distribuid_system_simula.Consumer.Letters.{store-send_counted, store-conclude_event}

module _ {P D V : Type 0} (env : Platform P) (trips : RoundTrips env) (dlq : DeadLetter D V)
    (is_uuid : String → Bool) (unmarshal : V → Result EventEnvelope)
    (locked : PendingEvent P → Bool) where
  abbrev Kept : Consuming (Session P) D → Type 0
  Kept s = Inv env s.store.tables

  handle_valid-Kept :
      (event : EventEnvelope) (s : Consuming (Session P) D)
      → ((event.event_type == event_type_abort_plan) ≡ true) ⊎ IsSequenced event
      → Kept s
      → Kept (handle_valid (event_store env locked) dlq event s).1
  unfolding handle_valid handle_sequenced handle_abort event_store
  handle_valid-Kept event s (inl abort) v =
      rw (abort, store-conclude_event (event_store env locked) dlq "abort" (λ _. 0) event _ _)
        (abort_plan-Inv env trips event s.store abort v)
  handle_valid-Kept event s (inr q) v =
      rw
        (
          q.not_abort,
          store-conclude_event (event_store env locked) dlq "sequenced" (λ res. res.drained) event _
              _,
        )
        (apply_event-Inv env trips event s.store q v)

  handle_event-Kept :
      (event : EventEnvelope) (r : Result Unit) (s : Consuming (Session P) D)
      → validate is_uuid event ≡ r
      → Kept s
      → Kept (handle_event (event_store env locked) dlq event r s).1
  unfolding handle_event
  handle_event-Kept event (err e) s h v = rw (store-send_counted (event_store env locked) dlq _ s) v
  handle_event-Kept event (ok _) s h v =
      handle_valid-Kept event s ((validate-IsWellFormed is_uuid event).0 h).kind v

  handle_decoded-Kept :
      (value : V) (r : Result EventEnvelope) (s : Consuming (Session P) D)
      → Kept s
      → Kept (handle_decoded (event_store env locked) dlq is_uuid value r s).1
  unfolding handle_decoded
  handle_decoded-Kept value (err e) s v = rw (store-send_counted (event_store env locked) dlq _ s) v
  handle_decoded-Kept value (ok event) s v = handle_event-Kept event _ s refl v

  handle_record-Kept :
      (value : V) (s : Consuming (Session P) D)
      → Kept s
      → Kept (handle_record (event_store env locked) dlq is_uuid unmarshal value s).1
  unfolding handle_record
  handle_record-Kept value s v = handle_decoded-Kept value (unmarshal value) s v

  -- Over the repository, the consumer keeps the invariant of the tables: for every batch of
  -- records, malformed and invalid ones included, whatever requests to Postgres and to Kafka fail,
  -- and wherever it is cancelled.
  pub consume-Inv :
      (records : List (V × ℕ × Bool)) (s : Consuming (Session P) D)
      → Inv env s.store.tables
      → Inv env (consume (event_store env locked) dlq is_uuid unmarshal records s).1.store.tables
  consume-Inv =
      consume-keeps (event_store env locked) dlq is_uuid unmarshal Kept
        (record { retries = λ s v. v; records = handle_record-Kept })
