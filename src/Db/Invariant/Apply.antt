-- ===== src/Db/Invariant/Apply.antt =====
-- `ApplyEvent`: what it establishes when it succeeds, and keeps in any case.
use distribuid_system_simula.Prelude.{
  ◌∙◌, sym, ℕ, String, false, none, some, ◌≡◌, ◌≢◌, refl, ap, length, ◌==◌, All-map,
}
use distribuid_system_simula.Prelude.Int.{ℤ}
use distribuid_system_simula.Exec.{ok}
use distribuid_system_simula.Models.{EventEnvelope, event_type_abort_plan}
use distribuid_system_simula.Models.Validity.{IsSequenced}
use distribuid_system_simula.Sequencing.{
  Outcome, apply, duplicate, buffer, discard, plan_mismatch, tombstone, decide,
}
use distribuid_system_simula.Db.Platform.{Platform, RoundTrips}
use distribuid_system_simula.Db.Tables.{Tables, Session}
use distribuid_system_simula.Db.Rows.{is_row, find_pending, find_order}
use distribuid_system_simula.Db.Ensures.{
  Ensures, Ensures-ok, Ensures-pure, Ensures-bind, Ensures-read, Ensures-mono, gets_then,
}
use distribuid_system_simula.Db.Transaction.{begin_func-keeps, Ensures-begin_func}
use distribuid_system_simula.Db.Repository.{
  add_drained, Applied, state_of, carry_out, apply_body, apply_event,
}
use distribuid_system_simula.Db.Effects.{order_state}
use distribuid_system_simula.Db.Invariant.{Inv}
use distribuid_system_simula.Db.Invariant.Write.{deref-some}
use distribuid_system_simula.Db.Invariant.Step.{zero_value}
use distribuid_system_simula.Db.Invariant.Decisions.{
  decide-suc_ℤ, decide-applied, leb_ℤ-add_drained,
}
use distribuid_system_simula.Db.Invariant.Seen.{Seen, Seen-apply}
use distribuid_system_simula.Db.Invariant.Buffer.{
  lock_order-reads, parked-Before, buffer_event-Stored,
}
use distribuid_system_simula.Db.Invariant.Drain.{write_event-Draining, drain_pending-Drained}

-- The outcome of an event that is delivered once more.
abbrev pub again : Outcome → Outcome
again apply = duplicate
again o = o

module _ {P : Type 0} (env : Platform P) (trips : RoundTrips env) where
  -- What `ApplyEvent` establishes, from the tables `t`, for the event `seq` of the order `id`.
  pub record Done (id : ℕ) (plan : String) (seq : ℤ) (t : Tables P) (res : Applied) (u : Tables P)
      : Type 0 where
    pub inv : Inv env u
    pub last : (order_state id u).last_seq ≡ res.last_seq
    pub decided : res.outcome ≡ decide (order_state id t) plan seq
    pub redecided : decide (order_state id u) plan seq ≡ again res.outcome
    pub stored : res.outcome ≡ buffer → find_pending (is_row id plan seq) u.pending ≢ none
    pub seen : (q : ℤ) → Seen id plan q t → Seen id plan q u
    pub order_kept : res.outcome ≢ apply → order_state id u ≡ order_state id t

  abbrev Carried : Outcome → Type 0
  Carried o =
      (event : EventEnvelope) (id : ℕ) (seq : ℤ) (t : Tables P)
      → env.uuid event.order_id ≡ some id
      → event.seq_id ≡ some seq
      → (event.event_type == event_type_abort_plan) ≡ false
      → Inv env t
      → decide (order_state id t) event.plan_id seq ≡ o
      → Ensures t (carry_out env o (order_state id t) event seq) (Done id event.plan_id seq t)

  carry_out_apply-Done : Carried apply
  unfolding carry_out
  carry_out_apply-Done event id seq t cast numbered live v e =
      Ensures-bind _ _ _
        (write_event-Draining env trips _ event id seq t cast numbered live refl e v.ledger
          v.counted
          (All-map t.pending (λ r. parked-Before env t id event.plan_id seq r e) v.parked))
        λ _ u (d, last, rows).
          gets_then (λ x. length x.pending) _
            (Ensures-bind _ _ _
              (drain_pending-Drained env trips _ event.order_id event.plan_id id seq 0 t u cast d
                last
                (λ q.
                  Seen-apply id event.plan_id q seq t u
                    (decide-suc_ℤ (order_state id t) event.plan_id seq (zero_value env id t) e) last
                    rows))
              λ n w h. Ensures-pure _ (record {
                inv = h.inv;
                last = h.last;
                decided = sym e;
                redecided =
                    decide-applied (order_state id w) event.plan_id seq (add_drained seq n) h.there
                      h.ready h.last (leb_ℤ-add_drained seq n);
                stored = λ p. cc;
                seen = h.seen;
                order_kept = λ n. absurd (n refl);
              }))

  carry_out_buffer-Done : Carried buffer
  unfolding carry_out
  carry_out_buffer-Done event id seq t cast numbered live v e =
      Ensures-bind _ _ _ (buffer_event-Stored env trips event id seq t cast numbered live v e)
        λ _ u h. Ensures-pure _ (
          let same : order_state id u ≡ order_state id t =
            ap (λ os. state_of (find_order id os)) h.orders_kept in
          record {
            inv = h.inv;
            last = ap (λ s. s.last_seq) same;
            decided = sym e;
            redecided = rw same e;
            stored = λ _. h.stored;
            seen = λ q seen above. h.rows_kept q (seen (rw same at above));
            order_kept = λ _. same;
          })

  -- The other outcomes change nothing.
  unchanged :
      (o : Outcome) (event : EventEnvelope) (id : ℕ) (seq : ℤ) (t : Tables P)
      → Inv env t
      → decide (order_state id t) event.plan_id seq ≡ o
      → again o ≡ o
      → o ≢ buffer
      → Done id event.plan_id seq t
          (record { outcome = o; last_seq = (order_state id t).last_seq; drained = 0 })
          t
  unchanged o event id seq t v e same n = record {
    inv = v;
    last = refl;
    decided = sym e;
    redecided = e ∙ sym same;
    stored = λ p. absurd (n p);
    seen = λ q h. h;
    order_kept = λ _. refl;
  }

  carry_out-Done : (o : Outcome) → Carried o
  unfolding carry_out
  carry_out-Done apply event id seq t = carry_out_apply-Done event id seq t
  carry_out-Done buffer event id seq t = carry_out_buffer-Done event id seq t
  carry_out-Done duplicate event id seq t = λ cast numbered live v e.
      Ensures-pure _ (unchanged duplicate event id seq t v e refl (λ p. cc))
  carry_out-Done discard event id seq t =
      λ cast numbered live v e. Ensures-pure _ (unchanged discard event id seq t v e refl (λ p. cc))
  carry_out-Done plan_mismatch event id seq t = λ cast numbered live v e.
      Ensures-pure _ (unchanged plan_mismatch event id seq t v e refl (λ p. cc))
  carry_out-Done tombstone event id seq t = λ cast numbered live v e.
      Ensures-pure _ (unchanged tombstone event id seq t v e refl (λ p. cc))

  -- The event's order and number, with what `ApplyEvent` establishes of them.
  pub record Handled (event : EventEnvelope) (t : Tables P) (res : Applied) (u : Tables P)
      : Type 0 where
    pub id : ℕ
    pub seq : ℤ
    pub cast : env.uuid event.order_id ≡ some id
    pub numbered : event.seq_id ≡ some seq
    pub done : Done id event.plan_id seq t res u

  pub apply_body-Handled :
      (event : EventEnvelope) (t : Tables P)
      → IsSequenced event
      → Inv env t
      → Ensures t (apply_body env event) (Handled event t)
  unfolding apply_body
  apply_body-Handled event t q v =
      Ensures-read _ _ _ (lock_order-reads env event.order_id t) λ s (id, cast, is_s).
        Ensures-read _ _ _ (deref-some env event.seq_id t) λ seq numbered.
          Ensures-mono _ _ _
            (rw is_s (carry_out-Done _ event id seq t cast numbered q.not_abort v refl))
            λ res u done. record {
              id = id;
              seq = seq;
              cast = cast;
              numbered = numbered;
              done = done;
            }

  -- `ApplyEvent` keeps the invariant for every valid event, whether it succeeds or fails, and
  -- whatever requests to Postgres fail.
  pub apply_event-Inv :
      (event : EventEnvelope) (s : Session P)
      → IsSequenced event
      → Inv env s.tables
      → Inv env (apply_event env event s).1.tables
  unfolding apply_event
  apply_event-Inv event s q v =
      begin_func-keeps (Inv env) _ s
        (λ t v. Ensures-mono _ _ _ (apply_body-Handled event t q v) (λ res u h. h.done.inv)) v

  -- On tables with the invariant: when `ApplyEvent` of a valid event returns no error, its
  -- `LastSeq` is the order's last applied seq_id, the buffered events that it applied included.
  pub last_seq-apply_event :
      (event : EventEnvelope) (s s' : Session P) (res : Applied)
      → IsSequenced event
      → Inv env s.tables
      → apply_event env event s ≡ (ok res, s')
      → (id : ℕ) × (env.uuid event.order_id ≡ some id)
        × ((order_state id s'.tables).last_seq ≡ res.last_seq)
  unfolding apply_event
  last_seq-apply_event event s s' res q v e =
      let h =
        Ensures-ok (Ensures-begin_func s.tables _ _ (apply_body-Handled event s.tables q v)) s refl
          e in
      (h.id, h.cast, h.done.last)
