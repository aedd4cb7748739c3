-- ===== src/Dlq/Producer.antt =====
-- server/internal/dlq/dlq.go: what is on the topic after a send, and how the producer fills the
-- consumer's interface.
use distribuid_system_simula.Prelude.{
  ℕ, String, Option, none, some, List, [], ◌∷◌, map, ◌==◌, if◌then◌else◌, ◌≡◌, refl, ap, ◌∙◌,
}
use distribuid_system_simula.Exec.{Result, ok, err, within, ◌>>=◌}
use distribuid_system_simula.Models.{EventEnvelope}
use distribuid_system_simula.Consumer.{Letter, of_event, of_raw, DeadLetter}
use distribuid_system_simula.Dlq.{
  DlqMessage, KafkaRecord, Kafka, KafkaLaws, event_record, produce_marshalled, send, raw_record,
  send_raw, send_letter,
}

-- The value of a header, by its name.
pub header_value : String → List (String × String) → Option String
header_value name [] = none
header_value name ((other, value) ∷ rest) =
    if other == name then some value else header_value name rest

text_or_empty : Option String → String
text_or_empty none = ""
text_or_empty (some t) = t

module _ {B : Type 0} where
  -- The message of a record that carries one.
  letter_of_message : Option DlqMessage → B → Letter B
  letter_of_message none value = of_raw value "" ""
  letter_of_message (some m) value = of_event m.original_event m.error_reason m.error_code

  -- A raw record's reason and code are in its headers.
  letter_of_headers : B → List (String × String) → Letter B
  letter_of_headers value headers =
      of_raw value (text_or_empty (header_value "error_reason" headers))
        (text_or_empty (header_value "error_code" headers))

module _ {K B : Type 0} (kafka : Kafka K B) where
  read_keyed : Option String → KafkaRecord B → Letter B
  unfolding letter_of_message letter_of_headers
  read_keyed none r = letter_of_headers r.value r.headers
  read_keyed (some key) r = letter_of_message (kafka.unmarshal r.value) r.value

  -- What a reader of the topic takes a record for.
  pub letter_of : KafkaRecord B → Letter B
  unfolding read_keyed
  letter_of r = read_keyed r.key r

  produced :
      (prefix : String) (r : Result Unit) (k k' : K)
      → within prefix (λ _. (r, k)) k ≡ (ok tt, k')
      → ◌≡◌ {A = Result Unit × K} (r, k) (ok tt, k')
  unfolding ◌>>=◌
  produced prefix (ok _) k k' h = h
  produced prefix (err e) k k' h = absurd cc

module _ {K B : Type 0} (kafka : Kafka K B) (laws : KafkaLaws kafka) where
  -- The reason and the code stand in the headers, each under its name.
  abbrev pub IsLabelled : String → String → KafkaRecord B → Type 0
  IsLabelled reason code r =
      (header_value "error_reason" r.headers ≡ some reason)
      × (header_value "error_code" r.headers ≡ some code)

  -- The record holds the message: of an event, under the key of its order and with the id of the event
  -- in a header, a JSON message with the event and the time; of a raw value, that value with no key.
  abbrev pub IsRecordOf : Letter B → ℕ → KafkaRecord B → Type 0
  IsRecordOf (of_event e reason code) now r =
      (r.key ≡ some e.order_id)
      × (kafka.unmarshal r.value
          ≡ some (record {
            original_event = e;
            error_reason = reason;
            error_code = code;
            failed_at = now;
          }))
      × (header_value "original_event_id" r.headers ≡ some e.event_id)
      × IsLabelled reason code r
  IsRecordOf (of_raw value reason code) now r =
      (r.key ≡ none) × (r.value ≡ value) × IsLabelled reason code r

  -- One record was added to the topic, which holds the message, and a reader gets the message back.
  abbrev pub IsSent : Letter B → K → K → Type 0
  IsSent l k k' =
      (r : KafkaRecord B) × (kafka.topic k' ≡ r ∷ kafka.topic k)
      × IsRecordOf l (kafka.now k) r
      × (letter_of kafka r ≡ l)

  event-IsRecordOf :
      (event : EventEnvelope) (reason code : String) (now : ℕ) (b : B)
      → kafka.marshal (record {
        original_event = event;
        error_reason = reason;
        error_code = code;
        failed_at = now;
      })
        ≡ some b
      → IsRecordOf (of_event event reason code) now (event_record kafka event reason code b)
  unfolding event_record header_value
  event-IsRecordOf event reason code now b m = (refl, laws.read_back _ b m, refl, (refl, refl))

  raw-IsRecordOf :
      (raw : B) (reason code : String) (now : ℕ)
      → IsRecordOf (of_raw raw reason code) now (raw_record kafka raw reason code)
  unfolding raw_record header_value
  raw-IsRecordOf raw reason code now = (refl, refl, (refl, refl))

  read_event :
      (event : EventEnvelope) (reason code : String) (now : ℕ) (b : B)
      → kafka.marshal (record {
        original_event = event;
        error_reason = reason;
        error_code = code;
        failed_at = now;
      })
        ≡ some b
      → letter_of kafka (event_record kafka event reason code b) ≡ of_event event reason code
  unfolding letter_of read_keyed event_record letter_of_message
  read_event event reason code now b m = rw (laws.read_back _ b m) refl

  event_IsSent :
      (event : EventEnvelope) (reason code : String) (o : Option B) (k k' : K)
      → kafka.marshal (record {
        original_event = event;
        error_reason = reason;
        error_code = code;
        failed_at = kafka.now k;
      })
        ≡ o
      → produce_marshalled kafka event reason code o k ≡ (ok tt, k')
      → IsSent (of_event event reason code) k k'
  unfolding produce_marshalled ◌>>=◌
  event_IsSent event reason code none k k' m h = absurd cc
  event_IsSent event reason code (some b) k k' m h =
      let r = event_record kafka event reason code b in
      let ran =
        produced kafka "producing to DLQ" (kafka.produce_sync r k).0 (kafka.produce_sync r k).1 k'
          h in
      (
        r,
        laws.acknowledged r k k' ran,
        event-IsRecordOf event reason code (kafka.now k) b m,
        read_event event reason code (kafka.now k) b m,
      )

  -- When `Send` or `SendRaw` returns no error, one record was added to the topic. Its headers hold the
  -- reason as error_reason and the code as error_code. For an event, its key is the order_id, its
  -- header original_event_id the event_id, and its value reads back as the message with the event,
  -- the reason, the code and the time; for a raw value, it has no key and holds that value. A reader
  -- who takes a record without a key for a raw value gets the event or the raw value back, with the
  -- reason and the code. The broker keeps what it acknowledges, and a message that was marshalled
  -- reads back.
  pub send_letter_ok :
      (l : Letter B) (k k' : K) → send_letter kafka l k ≡ (ok tt, k') → IsSent l k k'
  unfolding send_letter send_raw send ◌>>=◌
  send_letter_ok (of_raw raw reason code) k k' h =
      let r = raw_record kafka raw reason code in
      let ran =
        produced kafka "producing raw to DLQ" (kafka.produce_sync r k).0 (kafka.produce_sync r k).1
          k' h in
      (
        r,
        laws.acknowledged r k k' ran,
        raw-IsRecordOf raw reason code (kafka.now k),
        unfold letter_of read_keyed raw_record letter_of_headers header_value text_or_empty in refl,
      )
  send_letter_ok (of_event event reason code) k k' h = event_IsSent event reason code _ k k' refl h

  -- The producer as the consumer's dead-letter topic.
  unfoldable pub producer : DeadLetter K B
  producer = record {
    send = send_letter kafka;
    delivered = λ k. map (letter_of kafka) (kafka.topic k);
    acknowledged = λ l k k' h.
        let (r, added, _, reads) = send_letter_ok l k k' h in
        ap (map (letter_of kafka)) added
        ∙ ap (λ x. x ∷ map (letter_of kafka) (kafka.topic k)) reads;
  }
