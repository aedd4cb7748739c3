-- ===== src/Dlq.antt =====
-- server/internal/dlq/dlq.go: the dead-letter producer over a Kafka client.
pub mod Producer
use distribuid_system_simula.Prelude.{ℕ, String, Option, none, some, List, [], ◌∷◌, ◌≡◌}
use distribuid_system_simula.Exec.{Error, plain, Result, ok, err, Exec, raise, within, ◌>>=◌}
use distribuid_system_simula.Models.{EventEnvelope}
use distribuid_system_simula.Consumer.{Letter, of_event, of_raw}

-- `DLQMessage` of server/pkg/models/event.go; the time is in nanoseconds.
pub record DlqMessage : Type 0 where
  pub original_event : EventEnvelope
  pub error_reason : String
  pub error_code : String
  pub failed_at : ℕ

-- `kgo.Record` with a value of type `B`; a record without a key has a nil one.
pub record KafkaRecord (B : Type 0) : Type 0 where
  pub key : Option String
  pub value : B
  pub headers : List (String × String)

-- What the producer calls: the client of Kafka over its state `K`, the JSON of a message, and the
-- clock.
pub record Kafka (K B : Type 0) : Type 0 where
  -- `ProduceSync`, which waits for the broker
  pub produce_sync : KafkaRecord B → Exec K Unit
  -- the records of the topic, newest first
  pub topic : K → List (KafkaRecord B)
  pub marshal : DlqMessage → Option B
  pub unmarshal : B → Option DlqMessage
  pub now : K → ℕ

-- A record that is produced with no error is on the topic, and a message that was marshalled reads
-- back.
pub record KafkaLaws {K B : Type 0} (kafka : Kafka K B) : Type 0 where
  pub acknowledged :
      (r : KafkaRecord B) (k k' : K)
      → kafka.produce_sync r k ≡ (ok tt, k')
      → kafka.topic k' ≡ r ∷ kafka.topic k
  pub read_back : (m : DlqMessage) (b : B) → kafka.marshal m ≡ some b → kafka.unmarshal b ≡ some m

module _ {K B : Type 0} (kafka : Kafka K B) where
  unfoldable pub event_record : EventEnvelope → String → String → B → KafkaRecord B
  event_record event reason code value = record {
    key = some event.order_id;
    value = value;
    headers =
        ("error_reason", reason)
        ∷ ("error_code", code)
        ∷ ("original_event_id", event.event_id)
        ∷ [];
  }

  unfoldable pub produce_marshalled : EventEnvelope → String → String → Option B → Exec K Unit
  produce_marshalled event reason code none = raise (plain "marshal DLQ message")
  produce_marshalled event reason code (some value) =
      within "producing to DLQ" (kafka.produce_sync (event_record event reason code value))

  -- `Send`
  unfoldable pub send : EventEnvelope → String → String → Exec K Unit
  send event reason code k =
      produce_marshalled event reason code
        (kafka.marshal (record {
          original_event = event;
          error_reason = reason;
          error_code = code;
          failed_at = kafka.now k;
        }))
        k

  unfoldable pub raw_record : B → String → String → KafkaRecord B
  raw_record raw reason code = record {
    key = none;
    value = raw;
    headers = ("error_reason", reason) ∷ ("error_code", code) ∷ [];
  }

  -- `SendRaw`
  unfoldable pub send_raw : B → String → String → Exec K Unit
  send_raw raw reason code =
      within "producing raw to DLQ" (kafka.produce_sync (raw_record raw reason code))

  -- The two methods, as the consumer calls them.
  unfoldable pub send_letter : Letter B → Exec K Unit
  send_letter (of_event event reason code) = send event reason code
  send_letter (of_raw raw reason code) = send_raw raw reason code
