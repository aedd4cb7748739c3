-- ===== src/Db/Progress/Writes.antt =====
-- server/internal/db/postgres.go, applyEvent, insertOutbox and bufferEvent where no request fails: which
-- events they can write.
use mathlib.Core.Path.{subst}
use distribuid_system_simula.Prelude.{
  ℕ, suc, String, Bool, true, false, Option, none, some, ◌≡◌, refl, sym, ◌∙◌, ◌==◌,
}
use distribuid_system_simula.Prelude.Int.{ℤ, pos}
use distribuid_system_simula.Exec.{◌>>=◌}
use distribuid_system_simula.Models.{EventEnvelope, status_from_event_type}
use distribuid_system_simula.Db.Progress.Statuses.{status_allowed-status_from_event_type}
use distribuid_system_simula.Db.Platform.{Platform}
use distribuid_system_simula.Db.Tables.{Order, PendingEvent, Tables}
use distribuid_system_simula.Db.Rows.{find_order, add_order, change_order, add_outbox}
use distribuid_system_simula.Db.Statements.{
  status_allowed, cast_uuid, fits, allowed, to_jsonb, to_decimal, unique, encode_int4, insert_order,
  update_row, update_order, next_position, insert_outbox_row,
}
use distribuid_system_simula.Db.Repository.{
  total_amount, user_id, deref, insert_outbox, write_order, write_event,
}
use distribuid_system_simula.Db.Progress.{
  Tx, Succeeds, Succeeds-pure, Succeeds-write, Succeeds-within, Succeeds-read, Succeeds-bind,
  Succeeds-mono, request_passes, or_reject_passes, check_passes, gets_passes, now_passes,
}

module _ {P : Type 0} (env : Platform P) where
  -- The columns take what the envelope holds.
  pub record Writable (e : EventEnvelope) : Type 0 where
    pub id : ℕ
    pub order : env.uuid e.order_id ≡ some id
    pub text : P
    pub stored : P
    pub marshals : env.marshal e ≡ some text
    pub kept : env.jsonb text ≡ some stored
    pub plan_fits : env.varchar 100 e.plan_id ≡ true
    pub kind_fits : env.varchar 50 e.event_type ≡ true
    pub user_fits : env.varchar 50 (user_id e) ≡ true

  abbrev pub AmountFits : Option ℕ → Type 0
  AmountFits none = Unit
  AmountFits (some x) = (a : ℤ) × (env.decimal x ≡ some a)

  -- So is a sequenced event, its seq_id and the one after it.
  pub record Storable (e : EventEnvelope) : Type 0 where
    pub writable : Writable e
    pub known : (status_from_event_type e.event_type == "") ≡ false
    pub amount : AmountFits (total_amount e)
    pub seq : ℕ
    pub numbered : e.seq_id ≡ some (pos (suc seq))
    pub seq_fits : env.int4 (pos (suc seq)) ≡ true
    pub next_fits : env.int4 (pos (suc (suc seq))) ≡ true

  -- A row of the buffer reads as a storable event of its seq_id.
  pub record Loadable (r : PendingEvent P) : Type 0 where
    pub event : EventEnvelope
    pub reads : env.unmarshal r.payload ≡ some event
    pub seq : event.seq_id ≡ some r.seq_id
    pub storable : Storable event

  to_decimal-Succeeds :
      (total : Option ℕ) (t : Tables P)
      → AmountFits total
      → Succeeds t (to_decimal env total) (λ _ u. (u ≡ t) × Unit {0})
  unfolding to_decimal
  to_decimal-Succeeds none t h = Succeeds-pure _ (refl, tt)
  to_decimal-Succeeds (some x) t (a, is) = or_reject_passes _ _ _ a is (Succeeds-pure _ (refl, tt))

  update_row-Succeeds :
      (id : ℕ) (kind : String) (total : Option ℕ) (seq : ℤ) (o : Option Order) (t : Tables P)
      → (status_from_event_type kind == "") ≡ false
      → AmountFits total
      → Succeeds t
          (update_row env id (status_from_event_type kind) total seq o)
          (λ _ u. u.pending ≡ t.pending)
  unfolding update_row allowed change_order
  update_row-Succeeds id kind total seq none t known amount = Succeeds-pure _ refl
  update_row-Succeeds id kind total seq (some o) t known amount =
      check_passes _ _ _ (status_allowed-status_from_event_type kind known) (
        Succeeds-read _ _ (λ _. Unit {0}) (to_decimal-Succeeds total t amount)
          λ a _. now_passes _ λ now. Succeeds-write _ refl)

  pub insert_order-Succeeds :
      (order_id user_id status plan_id : String) (total : Option ℕ) (seq : ℤ) (id : ℕ)
      (t : Tables P)
      → env.uuid order_id ≡ some id
      → find_order id t.orders ≡ none
      → env.varchar 50 user_id ≡ true
      → status_allowed status ≡ true
      → env.varchar 100 plan_id ≡ true
      → AmountFits total
      → Succeeds t
          (insert_order env order_id user_id status plan_id total seq)
          (λ _ u. u.pending ≡ t.pending)
  unfolding insert_order cast_uuid fits allowed unique add_order
  insert_order-Succeeds order_id user_id status plan_id total seq id t cast absent user ok_ plan
        amount =
      request_passes _ (
        or_reject_passes _ _ _ id cast (
          check_passes _ _ _ user (
            check_passes _ _ _ ok_ (
              check_passes _ _ _ plan (
                Succeeds-read _ _ (λ _. Unit {0}) (to_decimal-Succeeds total t amount)
                  λ a _.
                    gets_passes (λ x. find_order id x.orders) _
                      (rw absent (
                        Succeeds-read _ _ (λ _. Unit {0}) (Succeeds-pure _ (refl, tt))
                          λ _ _. now_passes _ λ now. Succeeds-write _ refl)))))))

  next_position-Succeeds :
      (t : Tables P) → Succeeds t (next_position env) (λ _ u. (u ≡ t) × Unit {0})
  unfolding next_position
  next_position-Succeeds t = record { run = λ s e f. (f, (e, tt)) }

  pub insert_outbox-Succeeds :
      (e : EventEnvelope) (t : Tables P)
      → Writable e
      → Succeeds t (insert_outbox env e) (λ _ u. u.pending ≡ t.pending)
  unfolding insert_outbox insert_outbox_row cast_uuid fits to_jsonb add_outbox
  insert_outbox-Succeeds e t w = or_reject_passes _ _ _ w.text w.marshals (
      Succeeds-within _ _ (
        request_passes _ (
          or_reject_passes _ _ _ w.id w.order (
            check_passes _ _ _ w.kind_fits (
              or_reject_passes _ _ _ w.stored w.kept (
                Succeeds-read _ _ (λ _. Unit {0}) (next_position-Succeeds t)
                  λ position _. now_passes _ λ now. Succeeds-write _ refl))))))

  write_order-Succeeds :
      (exists : Bool) (e : EventEnvelope) (t : Tables P)
      → (s : Storable e) → (exists ≡ false → find_order s.writable.id t.orders ≡ none)
      → Succeeds t (write_order env exists e (pos (suc s.seq))) (λ _ u. u.pending ≡ t.pending)
  unfolding write_order encode_int4 update_order cast_uuid
  write_order-Succeeds true e t s absent = check_passes _ _ _ s.seq_fits (
      request_passes _ (
        or_reject_passes _ _ _ s.writable.id s.writable.order (
          gets_passes (λ x. find_order s.writable.id x.orders) _
            (update_row-Succeeds s.writable.id e.event_type _ _ _ t s.known s.amount))))
  write_order-Succeeds false e t s absent = check_passes _ _ _ s.seq_fits (
      insert_order-Succeeds e.order_id (user_id e) _ e.plan_id _ _ s.writable.id t s.writable.order
        (absent refl) s.writable.user_fits
        (status_allowed-status_from_event_type e.event_type s.known) s.writable.plan_fits s.amount)

  deref-Succeeds :
      (o : Option ℤ) (n : ℤ) (t : Tables P)
      → o ≡ some n
      → Succeeds t (deref env o) (λ m u. (u ≡ t) × (m ≡ n))
  unfolding deref
  deref-Succeeds o n t is = rw is (Succeeds-pure n (refl, refl))

  pub deref_passes :
      {B : Type 0} {t : Tables P} {Q : B → Tables P → Type 0} (o : Option ℤ) (n : ℤ)
      (f : ℤ → Tx P B)
      → o ≡ some n
      → Succeeds t (f n) Q
      → Succeeds t (deref env o >>= f) Q
  deref_passes {t} {Q} o n f is h =
      Succeeds-read (deref env o) f (λ m. m ≡ n) (deref-Succeeds o n t is)
        λ m e. subst (λ x. Succeeds t (f x) Q) (sym e) h

  pub write_event-Succeeds :
      (exists : Bool) (e : EventEnvelope) (t : Tables P)
      → (s : Storable e) → (exists ≡ false → find_order s.writable.id t.orders ≡ none)
      → Succeeds t (write_event env exists e) (λ _ u. u.pending ≡ t.pending)
  unfolding write_event
  write_event-Succeeds exists e t s absent = deref_passes _ _ _ s.numbered (
      Succeeds-bind _ _ (λ _ u. u.pending ≡ t.pending)
        (Succeeds-within _ _ (write_order-Succeeds exists e t s absent))
        λ _ u same. Succeeds-mono _ _ _ (insert_outbox-Succeeds e u s.writable) λ _ v h. h ∙ same)
