-- ===== src/Consumer/Letters.antt =====
-- server/internal/consumer/consumer.go, countingDLQ and handleStoreError: what the dead-letter topic
-- receives, and what the handling of an event leaves of the store.
use distribuid_system_simula.Prelude.{
  ℕ, String, ◌∷◌, ◌≡◌, ◌≢◌, ◌⊎◌, inl, inr, refl, sym, ap, ◌∙◌, Bool-cases,
}
use distribuid_system_simula.Exec.{Error, Result, ok, err, Exec}
use distribuid_system_simula.Models.{EventEnvelope}
use distribuid_system_simula.Sequencing.{
  Outcome, apply, duplicate, buffer, discard, plan_mismatch, tombstone,
}
use distribuid_system_simula.Db.Repository.{Applied, is_permanent}
use distribuid_system_simula.Consumer.{
  Letter, of_event, Store, DeadLetter, Consuming, counted_letter, send_counted, handle_store_error,
  count_settled, report_mismatch, conclude_event,
}

module _ {S D V : Type 0} (dlq : DeadLetter D V) where
  counted_letter_ok :
      (l : Letter V) (r : Result Unit) (t s' : Consuming S D)
      → counted_letter dlq l r t ≡ (ok tt, s')
      → (r ≡ ok tt) × (s'.letters ≡ t.letters)
  unfolding counted_letter
  counted_letter_ok l (ok _) t s' h = (refl, sym (ap (λ p. p.1.letters) h))
  counted_letter_ok l (err e) t s' h = absurd cc

  letters-counted_letter :
      (l : Letter V) (r : Result Unit) (t : Consuming S D)
      → (counted_letter dlq l r t).1.letters ≡ t.letters
  unfolding counted_letter
  letters-counted_letter l (ok _) t = refl
  letters-counted_letter l (err e) t = refl

  pub letters-send_counted :
      (l : Letter V) (s : Consuming S D)
      → (send_counted dlq l s).1.letters ≡ (dlq.send l s.letters).1
  unfolding send_counted
  letters-send_counted l s = letters-counted_letter l (dlq.send l s.letters).0 _

  -- A message that was sent without an error is there.
  pub send_counted_ok :
      (l : Letter V) (s s' : Consuming S D)
      → send_counted dlq l s ≡ (ok tt, s')
      → dlq.delivered s'.letters ≡ l ∷ dlq.delivered s.letters
  unfolding send_counted
  send_counted_ok l s s' h =
      let (sent, kept) = counted_letter_ok l (dlq.send l s.letters).0 _ s' h in
      rw kept (
        dlq.acknowledged l s.letters (dlq.send l s.letters).1
          (λ i. (sent i, (dlq.send l s.letters).1)))

mismatches : (o : Outcome) → (o ≡ plan_mismatch) ⊎ (o ≢ plan_mismatch)
mismatches plan_mismatch = inl refl
mismatches apply = inr (λ h. cc)
mismatches duplicate = inr (λ h. cc)
mismatches buffer = inr (λ h. cc)
mismatches discard = inr (λ h. cc)
mismatches tombstone = inr (λ h. cc)

module _ {S D V : Type 0} (store : Store S) (dlq : DeadLetter D V) where
  -- A new message, of which `Q` holds, is on the dead-letter topic.
  pub record IsDead (Q : Letter V → Type 0) (s s' : Consuming S D) : Type 0 where
    pub letter : Letter V
    pub about : Q letter
    pub added : dlq.delivered s'.letters ≡ letter ∷ dlq.delivered s.letters

  store-counted_letter :
      (l : Letter V) (r : Result Unit) (t : Consuming S D)
      → (counted_letter dlq l r t).1.store ≡ t.store
  unfolding counted_letter
  store-counted_letter l (ok _) t = refl
  store-counted_letter l (err e) t = refl

  pub send_counted-IsDead :
      (Q : Letter V → Type 0) (l : Letter V) (s s' : Consuming S D)
      → Q l
      → send_counted dlq l s ≡ (ok tt, s')
      → IsDead Q s s'
  send_counted-IsDead Q l s s' q h = record {
    letter = l;
    about = q;
    added = send_counted_ok dlq l s s' h;
  }

  pub store-send_counted :
      (l : Letter V) (s : Consuming S D) → (send_counted dlq l s).1.store ≡ s.store
  unfolding send_counted
  store-send_counted l s = store-counted_letter l (dlq.send l s.letters).0 _

  store-report_mismatch :
      (event : EventEnvelope) (o : Outcome) (s : Consuming S D)
      → (report_mismatch dlq event o s).1.store ≡ s.store
  unfolding report_mismatch
  store-report_mismatch event plan_mismatch s = store-send_counted _ s
  store-report_mismatch event apply s = refl
  store-report_mismatch event duplicate s = refl
  store-report_mismatch event buffer s = refl
  store-report_mismatch event discard s = refl
  store-report_mismatch event tombstone s = refl

  store-count_settled :
      (label : String) (res : Applied) (n : ℕ) (r : Result Unit) (t : Consuming S D)
      → (count_settled dlq label res n r t).1.store ≡ t.store
  unfolding count_settled
  store-count_settled label res n (ok _) t = refl
  store-count_settled label res n (err e) t = refl

  handle_store_error-IsDead :
      (Q : Letter V → Type 0) (event : EventEnvelope) (e : Error) (s s' : Consuming S D)
      → ((reason code : String) → Q (of_event event reason code))
      → handle_store_error dlq event e s ≡ (ok tt, s')
      → IsDead Q s s'
  unfolding handle_store_error
  handle_store_error-IsDead Q event e s s' q h = elim (Bool-cases (is_permanent e)) [
    | inl permanent ↦ send_counted-IsDead Q _ s s' (q _ _) (rw permanent at h)
    | inr transient ↦ let k = rw transient at h in absurd cc
  ]

  store-handle_store_error :
      (event : EventEnvelope) (e : Error) (s : Consuming S D)
      → (handle_store_error dlq event e s).1.store ≡ s.store
  unfolding handle_store_error
  store-handle_store_error event e s = elim (Bool-cases (is_permanent e)) [
    | inl permanent ↦ rw permanent (store-send_counted _ s)
    | inr transient ↦ rw transient refl
  ]

  -- The store's part of the state is what its operation left.
  pub store-conclude_event :
      (label : String) (n : Applied → ℕ) (event : EventEnvelope) (r : Result Applied)
      (s : Consuming S D)
      → (conclude_event dlq label n event r s).1.store ≡ s.store
  unfolding conclude_event
  store-conclude_event label n event (err e) s = store-handle_store_error event e s
  store-conclude_event label n event (ok res) s =
      store-count_settled label res (n res) (report_mismatch dlq event res.outcome s).0 _
      ∙ store-report_mismatch event res.outcome s

  count_settled_ok :
      (label : String) (res : Applied) (n : ℕ) (r : Result Unit) (t s' : Consuming S D)
      → count_settled dlq label res n r t ≡ (ok tt, s')
      → (r ≡ ok tt) × (s'.letters ≡ t.letters)
  unfolding count_settled
  count_settled_ok label res n (ok _) t s' h = (refl, sym (ap (λ p. p.1.letters) h))
  count_settled_ok label res n (err e) t s' h = absurd cc

  reported-IsDead :
      (Q : Letter V → Type 0) (event : EventEnvelope) (o : Outcome) (s s' : Consuming S D)
      → ((reason code : String) → Q (of_event event reason code))
      → o ≡ plan_mismatch
      → report_mismatch dlq event o s ≡ (ok tt, s')
      → IsDead Q s s'
  unfolding report_mismatch
  reported-IsDead Q event o s s' q m h = send_counted-IsDead Q _ s s' (q _ _) (rw m at h)

  -- A settled event of another plan has been sent.
  mismatch-IsDead :
      (Q : Letter V → Type 0) (label : String) (n : Applied → ℕ) (event : EventEnvelope)
      (res : Applied) (s s' : Consuming S D)
      → ((reason code : String) → Q (of_event event reason code))
      → res.outcome ≡ plan_mismatch
      → conclude_event dlq label n event (ok res) s ≡ (ok tt, s')
      → IsDead Q s s'
  unfolding conclude_event
  mismatch-IsDead Q label n event res s s' q m h =
      let sent = report_mismatch dlq event res.outcome s in
      let (told, kept) = count_settled_ok label res (n res) sent.0 sent.1 s' h in
      let d = reported-IsDead Q event res.outcome s sent.1 q m (λ i. (told i, sent.1)) in
      record { letter = d.letter; about = d.about; added = ap dlq.delivered kept ∙ d.added }

  conclude_event_ok :
      (Q : Letter V → Type 0) (label : String) (n : Applied → ℕ) (event : EventEnvelope)
      (r : Result Applied) (s s' : Consuming S D)
      → ((reason code : String) → Q (of_event event reason code))
      → conclude_event dlq label n event r s ≡ (ok tt, s')
      → IsDead Q s s' ⊎ ((res : Applied) × (r ≡ ok res) × (res.outcome ≢ plan_mismatch))
  unfolding conclude_event
  conclude_event_ok Q label n event (err e) s s' q h =
      inl (handle_store_error-IsDead Q event e s s' q h)
  conclude_event_ok Q label n event (ok res) s s' q h = elim (mismatches res.outcome) [
    | inl m ↦ inl (mismatch-IsDead Q label n event res s s' q m h)
    | inr fits ↦ inr (res, refl, fits)
  ]

  -- What an operation of the store and `conclude_event` settle.
  pub settles :
      (Q : Letter V → Type 0) (op : Exec S Applied) (label : String) (n : Applied → ℕ)
      (event : EventEnvelope) (s s' : Consuming S D)
      → ((reason code : String) → Q (of_event event reason code))
      → conclude_event dlq label n event (op s.store).0 (record s { store = (op s.store).1 })
        ≡ (ok tt, s')
      → IsDead Q s s'
        ⊎ ((res : Applied) × (op s.store ≡ (ok res, s'.store)) × (res.outcome ≢ plan_mismatch))
  settles Q op label n event s s' q h =
      let kept =
        sym
          (store-conclude_event label n event (op s.store).0 (record s { store = (op s.store).1 }))
        ∙ ap (λ p. p.1.store) h in
      elim (conclude_event_ok Q label n event (op s.store).0 _ s' q h) [
        | inl d ↦ inl (record { letter = d.letter; about = d.about; added = d.added })
        | inr (res, e, fits) ↦ inr (res, (λ i. (e i, kept i)), fits)
      ]
