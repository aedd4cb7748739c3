-- ===== src/Scenarios/Records.antt =====
-- Kafka records: a batch with an event out of order, an invalid event and a failing request.
use distribuid_system_simula.Prelude.{
  arith, ℕ, String, Bool, true, false, List, [], ◌∷◌, ◌≡◌, ◌⊎◌, refl, sym, ap,
}
use distribuid_system_simula.Exec.{plain, Result, ok}
use distribuid_system_simula.Models.{EventEnvelope, validate}
use distribuid_system_simula.Db.Tables.{Session, lost}
use distribuid_system_simula.Db.Invariant.{Inv}
use distribuid_system_simula.Consumer.{
  Letter, DeadLetter, Consuming, counted_letter, send_counted, handle_event, handle_decoded,
  handle_record, consume, event_store,
}
use distribuid_system_simula.Consumer.Letters.{IsDead}
use distribuid_system_simula.Consumer.Settled.{IsStored, IsAbout, handle_record_lem}
use distribuid_system_simula.Consumer.Committed.{IsPrefix, consume-IsPrefix}
use distribuid_system_simula.Consumer.Delays.{
  delay_after, retry_base_delay, retry_max_delay, delay_after-backoff,
}
use distribuid_system_simula.Dispatcher.Backoff.{backoff}
use distribuid_system_simula.Consumer.Kept.{consume-Inv}
use distribuid_system_simula.Scenarios.Setting.{
  platform, trips, event, created, validated, empty, empty-Inv,
}

-- A broker that acknowledges every message.
abbrev pub broker : DeadLetter (List (Letter EventEnvelope)) EventEnvelope
broker = record {
  send = λ l d. (ok tt, l ∷ d);
  delivered = λ d. d;
  acknowledged = λ l d d' h. sym (ap (λ p. p.1) h);
}

-- The first request to Postgres fails.
abbrev pub start : Consuming (Session EventEnvelope) (List (Letter EventEnvelope))
start = record {
  store = record empty { faults = lost (plain "reset") ∷ [] };
  letters = [];
  events_processed = [];
  events_drained = 0;
  dlq_messages = [];
  consumer_retries = 0;
}

abbrev pub decode : EventEnvelope → Result EventEnvelope
decode e = ok e

abbrev unknown : EventEnvelope
unknown = event "OrderLost" 1

abbrev pub is_any : String → Bool
is_any t = true

unknown_settled :
    handle_record (event_store platform (λ r. false)) broker is_any decode unknown start ≡ (
      ok tt,
      (handle_record (event_store platform (λ r. false)) broker is_any decode unknown start).1,
    )
unfolding handle_record handle_decoded handle_event validate send_counted counted_letter
unknown_settled = refl

handle_record_lem_example :
    IsDead
      (event_store platform (λ r. false))
      broker
      (IsAbout (event_store platform (λ r. false)) broker is_any decode unknown)
      start
      (handle_record (event_store platform (λ r. false)) broker is_any decode unknown start).1
    ⊎ IsStored
        (event_store platform (λ r. false))
        broker
        is_any
        decode
        unknown
        start
        (handle_record (event_store platform (λ r. false)) broker is_any decode unknown start).1
handle_record_lem_example =
    handle_record_lem (event_store platform (λ r. false)) broker is_any decode unknown start _
      unknown_settled

abbrev pub batch : List (EventEnvelope × ℕ × Bool)
batch = (validated, 3, false) ∷ (unknown, 0, false) ∷ (created, 0, true) ∷ []

consume-IsPrefix_example :
    IsPrefix
      (event_store platform (λ r. false))
      broker
      is_any
      decode
      batch
      (consume (event_store platform (λ r. false)) broker is_any decode batch start).0
consume-IsPrefix_example =
    consume-IsPrefix (event_store platform (λ r. false)) broker is_any decode batch start

consume-Inv_example :
    Inv platform
      (consume (event_store platform (λ r. false)) broker is_any decode batch start).1.store.tables
consume-Inv_example =
    consume-Inv platform trips broker is_any decode (λ r. false) batch start empty-Inv

-- The sixth failure in a row: the cap is reached.
delay_after-backoff_example :
    delay_after 5 retry_base_delay retry_max_delay ≡ backoff 6 retry_base_delay retry_max_delay
delay_after-backoff_example =
    delay_after-backoff 6 200000000 10000000000 (omega arith) (omega arith)
