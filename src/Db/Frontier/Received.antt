-- ===== src/Db/Frontier/Received.antt =====
-- server/internal/db/postgres.go, ApplyEvent: it applies and buffers nothing that has not arrived.
use mathlib.Core.Path.{subst}
use distribuid_system_simula.Prelude.{
  ℕ, zero, suc, String, Bool, true, false, Option, none, some, [], ◌∷◌, ◌==◌, ◌≡◌, inl, inr, refl,
  sym, ap, ◌∙◌, length, arith, All, All-map, All-append, Bool-cases,
}
use distribuid_system_simula.Prelude.Int.{ℤ, pos, suc_ℤ, leb_ℤ, ltb_ℤ, eqb_ℤ_iff}
use distribuid_system_simula.Models.{EventEnvelope, event_type_abort_plan}
use distribuid_system_simula.Sequencing.{
  Outcome, apply, duplicate, buffer, discard, plan_mismatch, tombstone, decide,
}
use distribuid_system_simula.Db.Platform.{Platform, RoundTrips}
use distribuid_system_simula.Db.Tables.{PendingEvent, Tables}
use distribuid_system_simula.Db.Rows.{
  is_row, is_of_plan, find_pending, delete_pending, remove_pending, add_pending,
}
use distribuid_system_simula.Db.Rows.Laws.{All-delete, find_pending-All}
use distribuid_system_simula.Db.Statements.{
  Tx, insert_pending, insert_unless, encode_int4, cast_uuid, fits, to_jsonb,
}
use distribuid_system_simula.Db.Ensures.{
  Ensures, Ensures-pure, Ensures-raise, Ensures-bind, Ensures-read, Ensures-within, Ensures-write,
  check_then, request_then, or_reject_then, gets_then, now_then,
}
use distribuid_system_simula.Db.Repository.{
  add_drained, drain_round, drain_pending, buffer_event, carry_out,
}
use distribuid_system_simula.Db.Effects.{order_state}
use distribuid_system_simula.Db.Invariant.{Inv}
use distribuid_system_simula.Db.Invariant.Write.{deref-some}
use distribuid_system_simula.Db.Invariant.Decisions.{decide-suc_ℤ}
use distribuid_system_simula.Db.Invariant.Step.{Draining, zero_value}
use distribuid_system_simula.Db.Invariant.Seen.{between}
use distribuid_system_simula.Db.Invariant.Buffer.{parked-Before}
use distribuid_system_simula.Db.Invariant.Drain.{
  take_pending-takes, write_event-Draining, write_event-taken,
}

module _ {P : Type 0} (R : ℤ → Type 0) (id : ℕ) (plan : String) where
  -- a row of the plan and the order is one of `R`
  abbrev pub RowIn : PendingEvent P → Type 0
  RowIn r = is_of_plan id plan r ≡ true → R r.seq_id

  -- What was applied to the order, and what waits for it, is in `R`.
  pub record Within (t : Tables P) : Type 0 where
    pub applied :
        (q : ℤ) → ltb_ℤ (pos 0) q ≡ true → leb_ℤ q (order_state id t).last_seq ≡ true → R q
    pub waiting : All RowIn t.pending

  -- One more event is applied.
  Within-next :
      (next : ℤ) (t u : Tables P)
      → R next
      → next ≡ suc_ℤ (order_state id t).last_seq
      → (order_state id u).last_seq ≡ next
      → All RowIn u.pending
      → Within t
      → Within u
  Within-next next t u h is_next last rows w = record {
    applied = λ q positive le. elim (Bool-cases (leb_ℤ q (order_state id t).last_seq)) [
      | inl old ↦ w.applied q positive old
      | inr above ↦ subst R (sym (between q _ above (rw (last, is_next) at le) ∙ sym is_next)) h
    ];
    waiting = rows;
  }

  RowIn-remove :
      (f : PendingEvent P → Bool) (t : Tables P)
      → All RowIn t.pending
      → All RowIn (remove_pending f t).pending
  unfolding remove_pending
  RowIn-remove f t h =
      All-map (delete_pending f t.pending) (λ r k. k.1) (All-delete _ f t.pending h)

  RowIn-found :
      (next : ℤ) (t : Tables P) (p : P)
      → All RowIn t.pending
      → find_pending (is_row id plan next) t.pending ≡ some p
      → R next
  RowIn-found next t p h found =
      let (r, _, hit, k) = find_pending-All _ _ t.pending h found in
      let is_next : r.seq_id ≡ next = ground (arith, eqb_ℤ_iff r.seq_id next) in
      subst R is_next (k (ground arith))

module _ {P : Type 0} (env : Platform P) (trips : RoundTrips env) (R : ℤ → Type 0) (id : ℕ)
    (plan : String) where
  drain_round-Within :
      (seq : ℤ) (drained : ℕ) (found : Option P) (t : Tables P) (rest : Tx P ℕ)
      → Draining env t id plan (suc_ℤ (add_drained seq drained))
      → (order_state id t).last_seq ≡ add_drained seq drained
      → Within R id plan t
      → found ≡ find_pending (is_row id plan (suc_ℤ (add_drained seq drained))) t.pending
      → ((u : Tables P)
          → Draining env u id plan (suc_ℤ (add_drained seq (suc drained)))
          → (order_state id u).last_seq ≡ add_drained seq (suc drained)
          → Within R id plan u
          → Ensures u rest (λ _ v. Within R id plan v))
      → Ensures
          (remove_pending (is_row id plan (suc_ℤ (add_drained seq drained))) t)
          (drain_round env found drained rest)
          (λ _ v. Within R id plan v)
  unfolding drain_round
  drain_round-Within seq drained none t rest d last w is k = Ensures-pure _ (record {
    applied = unfold remove_pending in w.applied;
    waiting = RowIn-remove R id plan _ t w.waiting;
  })
  drain_round-Within seq drained (some p) t rest d last w is k =
      or_reject_then _ _ _ λ event decoded.
        Ensures-bind _ _ _ (write_event-taken env trips t id plan _ p event d (sym is) decoded)
          λ _ u (d', last', rows). k u d' last' (
            Within-next R id plan _ t u (RowIn-found R id plan _ t p w.waiting (sym is))
              (ap suc_ℤ (sym last)) last'
              (subst (All (RowIn R id plan)) (sym rows) (RowIn-remove R id plan _ t w.waiting)) w)

  drain_pending-Within :
      (fuel : ℕ) (order_id : String) (seq : ℤ) (drained : ℕ) (t : Tables P)
      → env.uuid order_id ≡ some id
      → Draining env t id plan (suc_ℤ (add_drained seq drained))
      → (order_state id t).last_seq ≡ add_drained seq drained
      → Within R id plan t
      → Ensures t
          (drain_pending env fuel order_id plan (suc_ℤ (add_drained seq drained)) drained)
          (λ _ v. Within R id plan v)
  unfolding drain_pending
  drain_pending-Within zero order_id seq drained t cast d last w = Ensures-raise _
  drain_pending-Within (suc fuel) order_id seq drained t cast d last w =
      Ensures-bind _ _ _ (Ensures-within _ _ (take_pending-takes env order_id plan _ t))
        λ found u (id', cast', is_found, e).
          let same : id' ≡ id = cc (cast', cast) in
          rw (e, same)
            (drain_round-Within seq drained found t _ d last w (rw same at is_found)
              λ v. drain_pending-Within fuel order_id seq (suc drained) v cast)

  insert_unless-Within :
      (present : Option P) (r : PendingEvent P) (t : Tables P)
      → R r.seq_id
      → Within R id plan t
      → Ensures t (insert_unless env present r) (λ _ u. Within R id plan u)
  unfolding insert_unless add_pending
  insert_unless-Within none r t k w = Ensures-write _ (record {
    applied = w.applied;
    waiting = All-append _ t.pending (r ∷ []) w.waiting ((λ _. k), tt);
  })
  insert_unless-Within (some x) r t k w = Ensures-pure _ w

  insert_pending-RowIn :
      (order_id : String) (seq : ℤ) (p : P) (t : Tables P)
      → R seq
      → Within R id plan t
      → Ensures t (insert_pending env order_id plan seq p) (λ _ u. Within R id plan u)
  unfolding insert_pending encode_int4 cast_uuid fits to_jsonb
  insert_pending-RowIn order_id seq p t h w = check_then _ _ _ λ _. request_then _ (
      or_reject_then _ _ _ λ id' _. check_then _ _ _ λ _. or_reject_then _ _ _ λ q _.
        check_then _ _ _ λ _.
          gets_then (λ x. find_pending (is_row id' plan seq) x.pending) _
            (now_then _
              λ now. insert_unless-Within (find_pending (is_row id' plan seq) t.pending) _ t h w))

module _ {P : Type 0} (env : Platform P) (trips : RoundTrips env) (R : ℤ → Type 0) (id : ℕ) where
  write_drain-Within :
      (event : EventEnvelope) (seq : ℤ) (t : Tables P)
      → env.uuid event.order_id ≡ some id
      → event.seq_id ≡ some seq
      → (event.event_type == event_type_abort_plan) ≡ false
      → Inv env t
      → decide (order_state id t) event.plan_id seq ≡ apply
      → R seq
      → Within R id event.plan_id t
      → Ensures t
          (carry_out env apply (order_state id t) event seq)
          (λ _ u. Within R id event.plan_id u)
  unfolding carry_out
  write_drain-Within event seq t cast numbered live v e h w =
      Ensures-bind _ _ _
        (write_event-Draining env trips _ event id seq t cast numbered live refl e v.ledger
          v.counted
          (All-map t.pending (λ r. parked-Before env t id event.plan_id seq r e) v.parked))
        λ _ u (d, last, rows).
          gets_then (λ x. length x.pending) _
            (Ensures-bind _ _ _
              (drain_pending-Within env trips R id event.plan_id _ event.order_id seq 0 u cast d
                last
                (Within-next R id event.plan_id seq t u h
                  (decide-suc_ℤ (order_state id t) event.plan_id seq (zero_value env id t) e) last
                  (subst (All (RowIn R id event.plan_id)) (sym rows) w.waiting) w))
              λ n x k. Ensures-pure _ k)

  buffer_event-Within :
      (event : EventEnvelope) (seq : ℤ) (t : Tables P)
      → event.seq_id ≡ some seq
      → R seq
      → Within R id event.plan_id t
      → Ensures t (buffer_event env event) (λ _ u. Within R id event.plan_id u)
  unfolding buffer_event
  buffer_event-Within event seq t numbered h w = or_reject_then _ _ _ λ p _.
      Ensures-read _ _ _ (deref-some env event.seq_id t) λ n is_n. Ensures-within _ _ (
        let same : n ≡ seq = cc (is_n, numbered) in
        rw same (insert_pending-RowIn env trips R id event.plan_id event.order_id seq p t h w))

  -- If the event is in `R`, all that is applied or waits afterwards is.
  pub carry_out-Within :
      (o : Outcome) (event : EventEnvelope) (seq : ℤ) (t : Tables P)
      → env.uuid event.order_id ≡ some id
      → event.seq_id ≡ some seq
      → (event.event_type == event_type_abort_plan) ≡ false
      → Inv env t
      → decide (order_state id t) event.plan_id seq ≡ o
      → R seq
      → Within R id event.plan_id t
      → Ensures t
          (carry_out env o (order_state id t) event seq)
          (λ _ u. Within R id event.plan_id u)
  unfolding carry_out
  carry_out-Within apply event seq t cast numbered live v e h w =
      write_drain-Within event seq t cast numbered live v e h w
  carry_out-Within buffer event seq t cast numbered live v e h w =
      Ensures-bind _ _ _ (buffer_event-Within event seq t numbered h w) λ _ u k. Ensures-pure _ k
  carry_out-Within duplicate event seq t cast numbered live v e h w = Ensures-pure _ w
  carry_out-Within discard event seq t cast numbered live v e h w = Ensures-pure _ w
  carry_out-Within plan_mismatch event seq t cast numbered live v e h w = Ensures-pure _ w
  carry_out-Within tombstone event seq t cast numbered live v e h w = Ensures-pure _ w
