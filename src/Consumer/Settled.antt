-- ===== src/Consumer/Settled.antt =====
-- server/internal/consumer/consumer.go, handleRecord: what becomes of a record that it settles.
use distribuid_system_simula.Prelude.{
  String, Bool, ◌≡◌, ◌⊎◌, inl, inr, refl, Bool-cases, ◌==◌, ◌≢◌, true, false,
}
use distribuid_system_simula.Exec.{Result, ok, err}
use distribuid_system_simula.Models.{EventEnvelope, validate, event_type_abort_plan}
use distribuid_system_simula.Sequencing.{plan_mismatch}
use distribuid_system_simula.Db.Repository.{Applied}
use distribuid_system_simula.Consumer.{
  Letter, of_event, of_raw, Store, DeadLetter, Consuming, handle_sequenced, handle_abort,
  handle_valid, handle_event, handle_decoded, handle_record,
}
use distribuid_system_simula.Consumer.Letters.{IsDead, send_counted-IsDead, settles}

module _ {S D V : Type 0} (store : Store S) (dlq : DeadLetter D V) where
  -- The store's operation for the kind of the event gave the result.
  abbrev pub IsCarriedOut : EventEnvelope → Applied → Consuming S D → Consuming S D → Type 0
  IsCarriedOut event res s s' =
      (((event.event_type == event_type_abort_plan) ≡ true)
        × (store.abort_plan event s.store ≡ (ok res, s'.store)))
      ⊎ (((event.event_type == event_type_abort_plan) ≡ false)
          × (store.apply_event event s.store ≡ (ok res, s'.store)))

  -- The operation of the store for the event of the value has succeeded, and its outcome is not that
  -- the order belongs to another plan.
  pub record IsStored (is_uuid : String → Bool) (unmarshal : V → Result EventEnvelope) (value : V)
      (s s' : Consuming S D) : Type 0 where
    pub event : EventEnvelope
    pub decoded : unmarshal value ≡ ok event
    pub valid : validate is_uuid event ≡ ok tt
    pub result : Applied
    pub fits : result.outcome ≢ plan_mismatch
    pub accepted : IsCarriedOut event result s s'

module _ {S D V : Type 0} (store : Store S) (dlq : DeadLetter D V) (is_uuid : String → Bool)
    (unmarshal : V → Result EventEnvelope) where
  -- The message holds the value of the record, or the event that it decodes to.
  pub IsAbout : V → Letter V → Type 0
  IsAbout value (of_raw v reason code) = v ≡ value
  IsAbout value (of_event e reason code) = unmarshal value ≡ ok e

  handle_valid_ok :
      (value : V) (event : EventEnvelope) (s s' : Consuming S D)
      → unmarshal value ≡ ok event
      → handle_valid store dlq event s ≡ (ok tt, s')
      → IsDead store dlq (IsAbout value) s s'
        ⊎ ((res : Applied) × IsCarriedOut store dlq event res s s' × (res.outcome ≢ plan_mismatch))
  unfolding handle_valid handle_sequenced IsAbout handle_abort
  handle_valid_ok value event s s' decoded h =
      elim (Bool-cases (event.event_type == event_type_abort_plan)) [
        | inl abort ↦
            elim (settles store dlq (IsAbout value) (store.abort_plan event) _ _ event s s'
              (λ _ _. decoded) (rw abort at h)) [
                | inl d ↦ inl d
                | inr (res, e, f) ↦ inr (res, inl (abort, e), f)
              ]
        | inr other ↦
            elim (settles store dlq (IsAbout value) (store.apply_event event) _ _ event s s'
              (λ _ _. decoded) (rw other at h)) [
                | inl d ↦ inl d
                | inr (res, e, f) ↦ inr (res, inr (other, e), f)
              ]
      ]

  handle_event_ok :
      (value : V) (event : EventEnvelope) (r : Result Unit) (s s' : Consuming S D)
      → unmarshal value ≡ ok event
      → validate is_uuid event ≡ r
      → handle_event store dlq event r s ≡ (ok tt, s')
      → IsDead store dlq (IsAbout value) s s' ⊎ IsStored store dlq is_uuid unmarshal value s s'
  unfolding handle_event IsAbout
  handle_event_ok value event (err e) s s' decoded checked h =
      inl (send_counted-IsDead store dlq (IsAbout value) _ s s' decoded h)
  handle_event_ok value event (ok _) s s' decoded checked h =
      elim (handle_valid_ok value event s s' decoded h) [
        | inl d ↦ inl d
        | inr (res, a, f) ↦ inr (record {
          event = event;
          decoded = decoded;
          valid = checked;
          result = res;
          fits = f;
          accepted = a;
        })
      ]

  handle_decoded_ok :
      (value : V) (r : Result EventEnvelope) (s s' : Consuming S D)
      → unmarshal value ≡ r
      → handle_decoded store dlq is_uuid value r s ≡ (ok tt, s')
      → IsDead store dlq (IsAbout value) s s' ⊎ IsStored store dlq is_uuid unmarshal value s s'
  unfolding handle_decoded IsAbout
  handle_decoded_ok value (err e) s s' decoded h =
      inl (send_counted-IsDead store dlq (IsAbout value) _ s s' refl h)
  handle_decoded_ok value (ok event) s s' decoded h =
      handle_event_ok value event (validate is_uuid event) s s' decoded refl h

  -- A record that `handleRecord` reports as settled has put a message about it on the dead-letter
  -- topic, or holds a valid event for which AbortPlan, if it is an ABORT_PLAN, or ApplyEvent, if not,
  -- has returned no error and an outcome other than PLAN_MISMATCH.
  pub handle_record_lem :
      (value : V) (s s' : Consuming S D)
      → handle_record store dlq is_uuid unmarshal value s ≡ (ok tt, s')
      → IsDead store dlq (IsAbout value) s s' ⊎ IsStored store dlq is_uuid unmarshal value s s'
  unfolding handle_record
  handle_record_lem value s s' h = handle_decoded_ok value (unmarshal value) s s' refl h
