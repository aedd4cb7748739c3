-- ===== src/Metrics/Known.antt =====
-- server/internal/metrics/metrics.go, and the labels that the consumer and the dispatcher count under.
use distribuid_system_simula.Prelude.{
  ℕ, String, Bool, true, ◌==◌, List, ◌≡◌, refl, All, inl, inr, Bool-cases,
}
use distribuid_system_simula.Exec.{Error, Result, ok, err}
use distribuid_system_simula.Models.{EventEnvelope, event_type_abort_plan}
use distribuid_system_simula.Sequencing.{
  Outcome, apply, duplicate, buffer, discard, plan_mismatch, tombstone,
}
use distribuid_system_simula.Db.Repository.{Applied, is_permanent}
use distribuid_system_simula.Consumer.{
  Letter, code_of, Store, DeadLetter, Consuming, counted_letter, send_counted, handle_store_error,
  count_settled, report_mismatch, conclude_event, handle_sequenced, handle_abort, handle_valid,
  handle_event, handle_decoded, handle_record, consume,
}
use distribuid_system_simula.Consumer.Batch.{consume-keeps}
use distribuid_system_simula.Metrics.{
  new_series, kind_series, outcome_label, contains, contains_pair,
}

-- Every label that was counted under is that of a series that `New` creates.
pub record IsKnown {S D : Type 0} (s : Consuming S D) : Type 0 where
  pub events :
      All
        (λ e. contains_pair new_series.events_processed e.0 (outcome_label e.1) ≡ true)
        s.events_processed
  pub letters : All (λ c. contains new_series.dlq_messages c ≡ true) s.dlq_messages

sequenced-known :
    (o : Outcome) → contains_pair new_series.events_processed "sequenced" (outcome_label o) ≡ true
unfolding new_series kind_series outcome_label
sequenced-known apply = refl
sequenced-known duplicate = refl
sequenced-known buffer = refl
sequenced-known discard = refl
sequenced-known plan_mismatch = refl
sequenced-known tombstone = refl

abort-known :
    (o : Outcome) → contains_pair new_series.events_processed "abort" (outcome_label o) ≡ true
unfolding new_series kind_series outcome_label
abort-known apply = refl
abort-known duplicate = refl
abort-known buffer = refl
abort-known discard = refl
abort-known plan_mismatch = refl
abort-known tombstone = refl

module _ {S D V : Type 0} (dlq : DeadLetter D V) where
  counted_letter-IsKnown :
      (l : Letter V) (r : Result Unit) (s : Consuming S D)
      → contains new_series.dlq_messages (code_of l) ≡ true
      → IsKnown s
      → IsKnown (counted_letter dlq l r s).1
  unfolding counted_letter
  counted_letter-IsKnown l (ok _) s h k = record { events = k.events; letters = (h, k.letters) }
  counted_letter-IsKnown l (err e) s h k = k

  pub send_counted-IsKnown :
      (l : Letter V) (s : Consuming S D)
      → contains new_series.dlq_messages (code_of l) ≡ true
      → IsKnown s
      → IsKnown (send_counted dlq l s).1
  unfolding send_counted
  send_counted-IsKnown l s h k =
      counted_letter-IsKnown l (dlq.send l s.letters).0 _ h
        (record { events = k.events; letters = k.letters })

  handle_store_error-IsKnown :
      (event : EventEnvelope) (e : Error) (s : Consuming S D)
      → IsKnown s
      → IsKnown (handle_store_error dlq event e s).1
  unfolding handle_store_error code_of new_series
  handle_store_error-IsKnown event e s k = elim (Bool-cases (is_permanent e)) [
    | inl permanent ↦ rw permanent (send_counted-IsKnown _ s (unfold code_of new_series in refl) k)
    | inr transient ↦ rw transient k
  ]

  report_mismatch-IsKnown :
      (event : EventEnvelope) (o : Outcome) (s : Consuming S D)
      → IsKnown s
      → IsKnown (report_mismatch dlq event o s).1
  unfolding report_mismatch
  report_mismatch-IsKnown event plan_mismatch s k =
      send_counted-IsKnown _ s (unfold code_of new_series in refl) k
  report_mismatch-IsKnown event apply s k = k
  report_mismatch-IsKnown event duplicate s k = k
  report_mismatch-IsKnown event buffer s k = k
  report_mismatch-IsKnown event discard s k = k
  report_mismatch-IsKnown event tombstone s k = k

  count_settled-IsKnown :
      (label : String) (res : Applied) (drained : ℕ) (r : Result Unit) (s : Consuming S D)
      → ((o : Outcome) → contains_pair new_series.events_processed label (outcome_label o) ≡ true)
      → IsKnown s
      → IsKnown (count_settled dlq label res drained r s).1
  unfolding count_settled
  count_settled-IsKnown label res drained (ok _) s h k = record {
    events = (h res.outcome, k.events);
    letters = k.letters;
  }
  count_settled-IsKnown label res drained (err e) s h k = k

  conclude_event-IsKnown :
      (label : String) (drained : Applied → ℕ) (event : EventEnvelope) (r : Result Applied)
      (s : Consuming S D)
      → ((o : Outcome) → contains_pair new_series.events_processed label (outcome_label o) ≡ true)
      → IsKnown s
      → IsKnown (conclude_event dlq label drained event r s).1
  unfolding conclude_event
  conclude_event-IsKnown label drained event (ok res) s h k =
      count_settled-IsKnown label res (drained res) _ _ h
        (report_mismatch-IsKnown event res.outcome s k)
  conclude_event-IsKnown label drained event (err e) s h k = handle_store_error-IsKnown event e s k

module _ {S D V : Type 0} (store : Store S) (dlq : DeadLetter D V) (is_uuid : String → Bool)
    (unmarshal : V → Result EventEnvelope) where
  handle_valid-IsKnown :
      (event : EventEnvelope) (s : Consuming S D)
      → IsKnown s
      → IsKnown (handle_valid store dlq event s).1
  unfolding handle_valid handle_sequenced handle_abort
  handle_valid-IsKnown event s k = elim (Bool-cases (event.event_type == event_type_abort_plan)) [
    | inl abort ↦ rw abort (
        conclude_event-IsKnown dlq "abort" _ event _ _ abort-known
          (record { events = k.events; letters = k.letters }))
    | inr other ↦ rw other (
        conclude_event-IsKnown dlq "sequenced" _ event _ _ sequenced-known
          (record { events = k.events; letters = k.letters }))
  ]

  handle_event-IsKnown :
      (event : EventEnvelope) (r : Result Unit) (s : Consuming S D)
      → IsKnown s
      → IsKnown (handle_event store dlq event r s).1
  unfolding handle_event
  handle_event-IsKnown event (ok _) s k = handle_valid-IsKnown event s k
  handle_event-IsKnown event (err e) s k =
      send_counted-IsKnown dlq _ s (unfold code_of new_series in refl) k

  handle_decoded-IsKnown :
      (value : V) (r : Result EventEnvelope) (s : Consuming S D)
      → IsKnown s
      → IsKnown (handle_decoded store dlq is_uuid value r s).1
  unfolding handle_decoded
  handle_decoded-IsKnown value (ok event) s k = handle_event-IsKnown event _ s k
  handle_decoded-IsKnown value (err e) s k =
      send_counted-IsKnown dlq _ s (unfold code_of new_series in refl) k

  handle_record-IsKnown :
      (value : V) (s : Consuming S D)
      → IsKnown s
      → IsKnown (handle_record store dlq is_uuid unmarshal value s).1
  unfolding handle_record
  handle_record-IsKnown value s k = handle_decoded-IsKnown value (unmarshal value) s k

  -- Whatever the store and the dead-letter topic do, a batch counts events and dead letters under no
  -- labels but those of the series that the metrics start with.
  pub consume-IsKnown :
      (records : List (V × ℕ × Bool)) (s : Consuming S D)
      → IsKnown s
      → IsKnown (consume store dlq is_uuid unmarshal records s).1
  consume-IsKnown = consume-keeps store dlq is_uuid unmarshal IsKnown (record {
    retries = λ s k. record { events = k.events; letters = k.letters };
    records = handle_record-IsKnown;
  })
