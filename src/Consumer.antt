-- ===== src/Consumer.antt =====
-- server/internal/consumer/consumer.go: how one Kafka record is settled, and which records of a batch
-- are committed. Logs and traces are left out.
pub mod Letters
pub mod Settled
pub mod Committed
pub mod Delays
pub mod Batch
pub mod Kept
pub mod Sweeper
use Prim.Native.String.{◌++◌}
use distribuid_system_simula.Prelude.{
  ℕ, zero, suc, ◌+◌, String, Bool, true, false, Option, some, none, List, [], ◌∷◌, ◌==◌, ◌≡◌,
  if◌then◌else◌,
}
use distribuid_system_simula.Prelude.Int.{ℤ}
use distribuid_system_simula.Exec.{
  Error, pg, plain, wrap, panic, out_of_fuel, Result, ok, err, Exec,
}
use distribuid_system_simula.Models.{EventEnvelope, event_type_abort_plan, validate}
use distribuid_system_simula.Sequencing.{Outcome, plan_mismatch}
use distribuid_system_simula.Db.Repository.{Applied, is_permanent, apply_event, abort_plan}
use distribuid_system_simula.Db.Platform.{Platform}
use distribuid_system_simula.Db.Tables.{PendingEvent, Session}
use distribuid_system_simula.Db.Expiry.{expire_pending}

-- A message for the dead-letter topic: an event or the raw value of a record, with its reason and code.
pub data Letter (V : Type 0) : Type 0 where
  of_event : EventEnvelope → String → String → Letter V
  of_raw : V → String → String → Letter V

-- `Store`, over its state `S`; the sink of `ExpirePending` has a state of its own.
pub record Store (S : Type 0) : Type 1 where
  pub apply_event : EventEnvelope → Exec S Applied
  pub abort_plan : EventEnvelope → Exec S Applied
  pub expire_pending : {K : Type 0} → ℤ → ℤ → (EventEnvelope → Exec K Unit) → Exec (S × K) ℕ

-- `DeadLetter`, over its state `D`; `delivered` are the messages that the broker has, and no error
-- means that it has acknowledged the message.
pub record DeadLetter (D V : Type 0) : Type 0 where
  pub send : Letter V → Exec D Unit
  pub delivered : D → List (Letter V)
  pub acknowledged :
      (l : Letter V) (d d' : D) → send l d ≡ (ok tt, d') → delivered d' ≡ l ∷ delivered d

-- The state that a record is handled in: the store, the dead-letter topic, and the counters, by the
-- labels that they were incremented under, newest first; `outcomeLabel` is the lower-case text of an
-- outcome, which stands for it here.
pub record Consuming (S D : Type 0) : Type 0 where
  pub store : S
  pub letters : D
  pub events_processed : List (String × Outcome)
  pub events_drained : ℕ
  pub dlq_messages : List String
  pub consumer_retries : ℕ

-- `err.Error()`
unfoldable pub error_text : Error → String
error_text (pg code message) = "ERROR: " ++ (message ++ (" (SQLSTATE " ++ (code ++ ")")))
error_text (plain text) = text
error_text (wrap prefix e) = prefix ++ (": " ++ error_text e)
error_text panic = ""
error_text out_of_fuel = ""

unfoldable pub code_of : {V : Type 0} → Letter V → String
code_of (of_event e reason code) = code
code_of (of_raw v reason code) = code

module _ {S D V : Type 0} (dlq : DeadLetter D V) where
  unfoldable pub counted_letter :
      Letter V → Result Unit → Consuming S D → Result Unit × Consuming S D
  counted_letter l (err e) s = (err e, s)
  counted_letter l (ok _) s = (ok tt, record s { dlq_messages = code_of l ∷ s.dlq_messages })

  -- `countingDLQ.Send` and `countingDLQ.SendRaw`
  unfoldable pub send_counted : Letter V → Exec (Consuming S D) Unit
  send_counted l s =
      let (r, d) = dlq.send l s.letters in counted_letter l r (record s { letters = d })

  -- `handleStoreError`
  unfoldable pub handle_store_error : EventEnvelope → Error → Exec (Consuming S D) Unit
  handle_store_error event e s =
      if is_permanent e
      then send_counted (of_event event ("rejected by database: " ++ error_text e) "DB_REJECTED") s
      else (err (wrap "store" e), s)

  -- The metrics of a settled event; `label` is "sequenced" or "abort".
  unfoldable pub count_settled :
      String → Applied → ℕ → Result Unit → Consuming S D → Result Unit × Consuming S D
  count_settled label res drained (err e) s = (err e, s)
  count_settled label res drained (ok _) s = (
    ok tt,
    record s {
      events_processed = (label, res.outcome) ∷ s.events_processed;
      events_drained = s.events_drained + drained;
    },
  )

  unfoldable pub report_mismatch : EventEnvelope → Outcome → Exec (Consuming S D) Unit
  report_mismatch event plan_mismatch s =
      send_counted (of_event event "order belongs to another plan" "PLAN_MISMATCH") s
  report_mismatch event outcome s = (ok tt, s)

  -- What `handleSequenced` and `handleAbort` do with the answer of the store.
  unfoldable pub conclude_event :
      String → (Applied → ℕ) → EventEnvelope → Result Applied → Exec (Consuming S D) Unit
  conclude_event label drained event (err e) s = handle_store_error event e s
  conclude_event label drained event (ok res) s =
      let (r, t) = report_mismatch event res.outcome s in count_settled label res (drained res) r t

module _ {S D V : Type 0} (store : Store S) (dlq : DeadLetter D V) where
  -- `handleSequenced`
  unfoldable pub handle_sequenced : EventEnvelope → Exec (Consuming S D) Unit
  handle_sequenced event s =
      let (r, t) = store.apply_event event s.store in
      conclude_event dlq "sequenced" (λ res. res.drained) event r (record s { store = t })

  -- `handleAbort`, which counts no drained events
  unfoldable pub handle_abort : EventEnvelope → Exec (Consuming S D) Unit
  handle_abort event s =
      let (r, t) = store.abort_plan event s.store in
      conclude_event dlq "abort" (λ res. 0) event r (record s { store = t })

  unfoldable pub handle_valid : EventEnvelope → Exec (Consuming S D) Unit
  handle_valid event s =
      if event.event_type == event_type_abort_plan
      then handle_abort event s
      else handle_sequenced event s

  unfoldable pub handle_event : EventEnvelope → Result Unit → Exec (Consuming S D) Unit
  handle_event event (err e) s = send_counted dlq (of_event event (error_text e) "INVALID_EVENT") s
  handle_event event (ok _) s = handle_valid event s

  unfoldable pub handle_decoded :
      (String → Bool) → V → Result EventEnvelope → Exec (Consuming S D) Unit
  handle_decoded is_uuid value (err e) s =
      send_counted dlq (of_raw value ("failed to parse event JSON: " ++ error_text e) "PARSE_ERROR")
        s
  handle_decoded is_uuid value (ok event) s = handle_event event (validate is_uuid event) s

  -- `handleRecord` of a record's value; `unmarshal` is `json.Unmarshal`.
  unfoldable pub handle_record :
      (String → Bool) → (V → Result EventEnvelope) → V → Exec (Consuming S D) Unit
  handle_record is_uuid unmarshal value s = handle_decoded is_uuid value (unmarshal value) s

module _ {S D : Type 0} where
  -- The end of the loop of `processWithRetry` when the context is cancelled: during the call, or
  -- `waiting` for the next attempt, which the failure has been counted for.
  unfoldable pub give_up : Bool → Result Unit → Consuming S D → Bool × Consuming S D
  give_up waiting (ok _) s = (true, s)
  give_up true (err e) s = (false, record s { consumer_retries = s.consumer_retries + 1 })
  give_up false (err e) s = (false, s)

  unfoldable pub retry :
      Result Unit → (Consuming S D → Bool × Consuming S D) → Consuming S D → Bool × Consuming S D
  retry (ok _) more s = (true, s)
  retry (err e) more s = more (record s { consumer_retries = s.consumer_retries + 1 })

module _ {S D V : Type 0} (store : Store S) (dlq : DeadLetter D V) (is_uuid : String → Bool)
    (unmarshal : V → Result EventEnvelope) where
  -- `processWithRetry`, with the context cancelled after that many failed attempts and one more;
  -- the delays between them are left out. True is a settled record.
  unfoldable pub process_with_retry : ℕ → Bool → V → Consuming S D → Bool × Consuming S D
  process_with_retry zero waiting value s =
      let (r, t) = handle_record store dlq is_uuid unmarshal value s in give_up waiting r t
  process_with_retry (suc n) waiting value s =
      let (r, t) = handle_record store dlq is_uuid unmarshal value s in
      retry r (process_with_retry n waiting value) t

  unfoldable pub add_settled :
      V → Bool → (Consuming S D → List V × Consuming S D) → Consuming S D → List V × Consuming S D
  add_settled value true rest s = let (values, t) = rest s in (value ∷ values, t)
  add_settled value false rest s = ([], s)

  -- The loop of `Run` over one batch: the records that are committed after it. Each record comes with
  -- the attempts that the context leaves it.
  unfoldable pub consume : List (V × ℕ × Bool) → Consuming S D → List V × Consuming S D
  consume [] s = ([], s)
  consume ((value, n, waiting) ∷ records) s =
      let (settled, t) = process_with_retry n waiting value s in
      add_settled value settled (consume records) t

-- The repository as the consumer's store. `locked` tells the rows of the buffer that transactions of
-- other consumers hold.
unfoldable pub event_store : {P : Type 0} → Platform P → (PendingEvent P → Bool) → Store (Session P)
event_store env locked = record {
  apply_event = apply_event env;
  abort_plan = abort_plan env;
  expire_pending = λ max_age limit sink. expire_pending env sink locked max_age limit;
}
