-- ===== src/Db/Redelivery.antt =====
-- server/internal/db/postgres.go, ApplyEvent: an event that is delivered again.
use distribuid_system_simula.Prelude.{ℕ, String, Option, none, some, ◌≡◌, ◌≢◌, refl}
use distribuid_system_simula.Prelude.Int.{ℤ}
use distribuid_system_simula.Exec.{ok}
use distribuid_system_simula.Models.{EventEnvelope}
use distribuid_system_simula.Models.Validity.{IsSequenced}
use distribuid_system_simula.Sequencing.{
  Outcome, apply, duplicate, buffer, discard, plan_mismatch, tombstone, decide,
}
use distribuid_system_simula.Db.Platform.{Platform, RoundTrips}
use distribuid_system_simula.Db.Tables.{PendingEvent, Tables, Session}
use distribuid_system_simula.Db.Rows.{is_row, find_pending}
use distribuid_system_simula.Db.Statements.{
  insert_pending, insert_unless, encode_int4, cast_uuid, fits, to_jsonb,
}
use distribuid_system_simula.Db.Ensures.{
  Ensures, Ensures-ok, Ensures-pure, Ensures-read, Ensures-within, Ensures-mono, Ensures-bind,
  check_then, request_then, or_reject_then, gets_then, now_then,
}
use distribuid_system_simula.Db.Transaction.{begin_func-keeps, Ensures-begin_func}
use distribuid_system_simula.Db.Repository.{
  Applied, buffer_event, carry_out, apply_body, apply_event,
}
use distribuid_system_simula.Db.Effects.{order_state}
use distribuid_system_simula.Db.Invariant.{Inv}
use distribuid_system_simula.Db.Invariant.Write.{deref-some}
use distribuid_system_simula.Db.Invariant.Buffer.{lock_order-reads}
use distribuid_system_simula.Db.Invariant.Apply.{again, Handled, apply_body-Handled}

module _ {P : Type 0} (env : Platform P) where
  insert_unless-kept :
      (present : Option P) (r : PendingEvent P) (t : Tables P)
      → present ≢ none
      → Ensures t (insert_unless env present r) (λ _ u. u ≡ t)
  unfolding insert_unless
  insert_unless-kept none r t h = absurd (h refl)
  insert_unless-kept (some p) r t h = Ensures-pure _ refl

  insert_pending-kept :
      (order_id plan : String) (id : ℕ) (seq : ℤ) (p : P) (t : Tables P)
      → env.uuid order_id ≡ some id
      → find_pending (is_row id plan seq) t.pending ≢ none
      → Ensures t (insert_pending env order_id plan seq p) (λ _ u. u ≡ t)
  unfolding insert_pending encode_int4 cast_uuid fits to_jsonb
  insert_pending-kept order_id plan id seq p t cast h = check_then _ _ _ λ _. request_then _ (
      or_reject_then _ _ _ λ id' cast'. check_then _ _ _ λ _. or_reject_then _ _ _ λ q stored.
        check_then _ _ _ λ positive.
          gets_then (λ x. find_pending (is_row id' plan seq) x.pending) _
            (now_then _ λ now.
              let same : id' ≡ id = cc (cast', cast) in insert_unless-kept _ _ t (rw same h)))

  -- An event that is not next, and is in the buffer if it is to be buffered.
  carry_out-kept :
      (o : Outcome) (event : EventEnvelope) (id : ℕ) (seq : ℤ) (t : Tables P)
      → env.uuid event.order_id ≡ some id
      → event.seq_id ≡ some seq
      → o ≢ apply
      → (o ≡ buffer → find_pending (is_row id event.plan_id seq) t.pending ≢ none)
      → Ensures t
          (carry_out env o (order_state id t) event seq)
          (λ res u. (u ≡ t) × (res.outcome ≡ o))
  unfolding carry_out buffer_event
  carry_out-kept apply event id seq t cast numbered n b = absurd (n refl)
  carry_out-kept buffer event id seq t cast numbered n b =
      Ensures-bind _ _ (λ _ u. u ≡ t)
        (or_reject_then _ _ _ λ p _. Ensures-read _ _ _ (deref-some env event.seq_id t) λ k is_k.
          Ensures-within _ _ (
            let same : k ≡ seq = cc (is_k, numbered) in
            rw same (insert_pending-kept event.order_id event.plan_id id seq p t cast (b refl))))
        λ _ u e. Ensures-pure _ (e, refl)
  carry_out-kept duplicate event id seq t cast numbered n b = Ensures-pure _ (refl, refl)
  carry_out-kept discard event id seq t cast numbered n b = Ensures-pure _ (refl, refl)
  carry_out-kept plan_mismatch event id seq t cast numbered n b = Ensures-pure _ (refl, refl)
  carry_out-kept tombstone event id seq t cast numbered n b = Ensures-pure _ (refl, refl)

  pub apply_body-kept :
      (event : EventEnvelope) (id : ℕ) (seq : ℤ) (t : Tables P) (o : Outcome)
      → env.uuid event.order_id ≡ some id
      → event.seq_id ≡ some seq
      → decide (order_state id t) event.plan_id seq ≡ o
      → o ≢ apply
      → (o ≡ buffer → find_pending (is_row id event.plan_id seq) t.pending ≢ none)
      → Ensures t (apply_body env event) (λ res u. (u ≡ t) × (res.outcome ≡ o))
  unfolding apply_body
  apply_body-kept event id seq t o cast numbered e n b =
      Ensures-read _ _ _ (lock_order-reads env event.order_id t) λ s (id', cast', is_s).
        Ensures-read _ _ _ (deref-some env event.seq_id t) λ k is_k.
          let same : id' ≡ id = cc (cast', cast) in
          let same_seq : k ≡ seq = cc (is_k, numbered) in
          rw (is_s, same, same_seq, e) (carry_out-kept o event id seq t cast numbered n b)

again-ne-apply : (o : Outcome) → again o ≢ apply
again-ne-apply apply h = cc
again-ne-apply duplicate h = cc
again-ne-apply buffer h = cc
again-ne-apply discard h = cc
again-ne-apply plan_mismatch h = cc
again-ne-apply tombstone h = cc

again-buffer : (o : Outcome) → again o ≡ buffer → o ≡ buffer
again-buffer apply h = cc
again-buffer duplicate h = h
again-buffer buffer h = h
again-buffer discard h = h
again-buffer plan_mismatch h = h
again-buffer tombstone h = h

module _ {P : Type 0} (env : Platform P) (trips : RoundTrips env) where
  pub handled_again :
      (event : EventEnvelope) (t u : Tables P) (res : Applied)
      → Handled env trips event t res u
      → Ensures u (apply_body env event) (λ r v. (v ≡ u) × (r.outcome ≡ again res.outcome))
  handled_again event t u res h =
      apply_body-kept env event h.id h.seq u (again res.outcome) h.cast h.numbered h.done.redecided
        (again-ne-apply res.outcome) (λ b. h.done.stored (again-buffer res.outcome b))

  first :
      (event : EventEnvelope) (s s' : Session P) (res : Applied)
      → IsSequenced event
      → Inv env s.tables
      → apply_event env event s ≡ (ok res, s')
      → Handled env trips event s.tables res s'.tables
  unfolding apply_event
  first event s s' res q v e =
      Ensures-ok (Ensures-begin_func s.tables _ _ (apply_body-Handled env trips event s.tables q v))
        s refl e

  -- Once `ApplyEvent` of a valid event has succeeded on tables with the invariant, applying the
  -- event again to the tables that this left changes nothing, whatever requests fail then.
  pub apply_event_again :
      (event : EventEnvelope) (s s' s'' : Session P) (res : Applied)
      → IsSequenced event
      → Inv env s.tables
      → apply_event env event s ≡ (ok res, s')
      → s''.tables ≡ s'.tables
      → (apply_event env event s'').1.tables ≡ s'.tables
  unfolding apply_event
  apply_event_again event s s' s'' res q v e same =
      begin_func-keeps (λ u. u ≡ s'.tables) _ s''
        (λ t is. rw is (
          Ensures-mono _ _ _
            (handled_again event s.tables s'.tables res (first event s s' res q v e))
            (λ r u k. k.0)))
        same

  -- When both succeed, the second `ApplyEvent` of a valid event, on the tables that the first one
  -- left, has the outcome DUPLICATE if the first had APPLY, and the same outcome otherwise.
  pub outcome-apply_event-again :
      (event : EventEnvelope) (s s' s'' s''' : Session P) (res res' : Applied)
      → IsSequenced event
      → Inv env s.tables
      → apply_event env event s ≡ (ok res, s')
      → s''.tables ≡ s'.tables
      → apply_event env event s'' ≡ (ok res', s''')
      → res'.outcome ≡ again res.outcome
  unfolding apply_event
  outcome-apply_event-again event s s' s'' s''' res res' q v e same e' =
      (Ensures-ok
        (Ensures-begin_func s'.tables _ _
          (handled_again event s.tables s'.tables res (first event s s' res q v e)))
        s'' same e').1
