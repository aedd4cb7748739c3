-- ===== src/Db/Invariant/Drain.antt =====
-- server/internal/db/postgres.go, drainPending: the invariant from one round to the next.
use mathlib.Core.Path.{subst}
use distribuid_system_simula.Prelude.{
  ℕ, zero, suc, eq_iff, String, Bool, true, false, Option, none, some, ◌==◌, ◌≡◌, refl, sym, ap,
  ◌∙◌, arith, All, All-map,
}
use distribuid_system_simula.Prelude.Int.{ℤ, pos, suc_ℤ, leb_ℤ, eqb_ℤ_iff}
use distribuid_system_simula.Models.{EventEnvelope, event_type_abort_plan}
use distribuid_system_simula.Sequencing.{apply, decide}
use distribuid_system_simula.Db.Platform.{Platform, RoundTrips}
use distribuid_system_simula.Db.Tables.{Tables}
use distribuid_system_simula.Db.Rows.{is_row, find_pending, delete_pending, remove_pending}
use distribuid_system_simula.Db.Rows.Laws.{All-delete, find_pending-All}
use distribuid_system_simula.Db.Statements.{Tx, take_pending, encode_int4, cast_uuid}
use distribuid_system_simula.Db.Ensures.{
  Ensures, Ensures-pure, Ensures-raise, Ensures-bind, Ensures-within, Ensures-mono, Ensures-write,
  check_then, request_then, or_reject_then, gets_then,
}
use distribuid_system_simula.Db.Repository.{write_event, drain_round, drain_pending, add_drained}
use distribuid_system_simula.Db.Effects.{order_state}
use distribuid_system_simula.Db.Invariant.{one_to, notified, Inv}
use distribuid_system_simula.Db.Invariant.Decisions.{decide-owner}
use distribuid_system_simula.Db.Invariant.Write.{write_event-Wrote}
use distribuid_system_simula.Db.Invariant.Seen.{Seen, Seen-take, Seen-missing}
use distribuid_system_simula.Db.Invariant.Step.{Draining, Before, Draining-Wrote, drained-IsParked}

module _ {P : Type 0} (env : Platform P) where
  pub take_pending-takes :
      (order_id plan : String) (next : ℤ) (t : Tables P)
      → Ensures t (take_pending env order_id plan next) (λ found u.
        (id : ℕ) × (env.uuid order_id ≡ some id)
        × (found ≡ find_pending (is_row id plan next) t.pending)
        × (u ≡ remove_pending (is_row id plan next) t))
  unfolding take_pending encode_int4 cast_uuid
  take_pending-takes order_id plan next t = check_then _ _ _ λ _. request_then _ (
      or_reject_then _ _ _ λ id cast.
        gets_then (λ x. find_pending (is_row id plan next) x.pending) _
          (Ensures-bind _ _ (λ _ u. u ≡ remove_pending (is_row id plan next) t)
            (Ensures-write _ refl) (λ _ u e. Ensures-pure _ (id, cast, refl, e))))

  -- The tables after the row `next` was taken.
  Before-taken :
      (t : Tables P) (id : ℕ) (plan : String) (next : ℤ)
      → Draining env t id plan next
      → All
          (Before env (remove_pending (is_row id plan next) t) id plan next)
          (remove_pending (is_row id plan next) t).pending
  unfolding remove_pending
  Before-taken t id plan next d =
      All-map (delete_pending (is_row id plan next) t.pending) (λ r (f, bw). (f, bw.0, bw.1))
        (All-delete _ _ t.pending d.waits)

  -- With nothing more to take, the invariant holds.
  Inv-taken :
      (t : Tables P) (id : ℕ) (plan : String) (next : ℤ)
      → Draining env t id plan next
      → Inv env (remove_pending (is_row id plan next) t)
  unfolding remove_pending
  Inv-taken t id plan next d = record {
    ledger = d.ledger;
    counted = d.counted;
    parked =
        All-map (delete_pending (is_row id plan next) t.pending)
          (λ r (missed, b, w). (b, drained-IsParked env t id plan next r d.there d.ready missed w))
          (Before-taken t id plan next d);
  }

module _ {P : Type 0} (env : Platform P) (trips : RoundTrips env) where
  -- Writing the next event of an order.
  pub write_event-Draining :
      (exists : Bool) (event : EventEnvelope) (id : ℕ) (seq : ℤ) (t : Tables P)
      → env.uuid event.order_id ≡ some id
      → event.seq_id ≡ some seq
      → (event.event_type == event_type_abort_plan) ≡ false
      → (order_state id t).exists ≡ exists
      → decide (order_state id t) event.plan_id seq ≡ apply
      → ((j : ℕ) → notified env j t.outbox ≡ one_to (order_state j t).last_seq)
      → ((j : ℕ) → leb_ℤ (pos 0) (order_state j t).last_seq ≡ true)
      → All (Before env t id event.plan_id seq) t.pending
      → Ensures t (write_event env exists event) (λ _ u.
        Draining env u id event.plan_id (suc_ℤ seq)
        × ((order_state id u).last_seq ≡ seq)
        × (u.pending ≡ t.pending))
  write_event-Draining exists event id seq t cast numbered live there ready ledger counted rows =
      Ensures-mono _ _ _
        (write_event-Wrote env trips exists event id seq t cast numbered live there
          (λ e. decide-owner (order_state id t) event.plan_id seq ready (there ∙ e)))
        λ _ u w. (
          Draining-Wrote env w live ready ledger counted rows,
          ap (λ s. s.last_seq) w.set,
          w.pending_kept,
        )

  -- Writing the event that the row `next` of the buffer holds.
  pub write_event-taken :
      (t : Tables P) (id : ℕ) (plan : String) (next : ℤ) (p : P) (event : EventEnvelope)
      → Draining env t id plan next
      → find_pending (is_row id plan next) t.pending ≡ some p
      → env.unmarshal p ≡ some event
      → Ensures (remove_pending (is_row id plan next) t) (write_event env true event) (λ _ u.
        Draining env u id plan (suc_ℤ next)
        × ((order_state id u).last_seq ≡ next)
        × (u.pending ≡ (remove_pending (is_row id plan next) t).pending))
  write_event-taken t id plan next p event d found decoded =
      let t' = remove_pending (is_row id plan next) t in
      let (r, is_p, hit, bw) = find_pending-All _ _ t.pending d.waits found in
      let b = bw.0 in
      let same : b.event ≡ event = cc (b.reads, is_p, decoded) in
      let at_id : r.order_id ≡ id = ground arith in
      let is_next : r.seq_id ≡ next = ground (arith, eqb_ℤ_iff r.seq_id next) in
      let e : event.plan_id ≡ plan =
        ap (λ x. x.plan_id) (sym same) ∙ b.plan ∙ ground (arith, eq_iff r.plan_id plan) in
      subst
        (λ pl. Ensures t' (write_event env true event) (λ _ u.
          Draining env u id pl (suc_ℤ next)
          × ((order_state id u).last_seq ≡ next)
          × (u.pending ≡ t'.pending)))
        e
        (unfold remove_pending in
          write_event-Draining true event id next t'
            (ap (λ x. env.uuid x.order_id) (sym same) ∙ b.order ∙ ap some at_id)
            (ap (λ x. x.seq_id) (sym same) ∙ b.seq ∙ ap some is_next)
            (ap (λ x. x.event_type == event_type_abort_plan) (sym same) ∙ b.not_abort) d.there
            (rw e d.ready) d.ledger d.counted (rw e (Before-taken env t id plan next d)))

  -- What the loop leaves of the order `id`, `n` rounds after its event `seq` was written, with the
  -- tables `t` then.
  pub record Drained (id : ℕ) (plan : String) (seq : ℤ) (t : Tables P) (n : ℕ) (u : Tables P)
      : Type 0 where
    pub inv : Inv env u
    pub last : (order_state id u).last_seq ≡ add_drained seq n
    pub there : (order_state id u).exists ≡ true
    pub ready : decide (order_state id u) plan (suc_ℤ (add_drained seq n)) ≡ apply
    pub seen : (q : ℤ) → Seen id plan q t → Seen id plan q u

  -- The rest of the loop, from the tables `u` before a round.
  drain_round-Drained :
      (id : ℕ) (plan : String) (seq : ℤ) (drained : ℕ) (found : Option P) (t u : Tables P)
      (rest : Tx P ℕ)
      → Draining env u id plan (suc_ℤ (add_drained seq drained))
      → (order_state id u).last_seq ≡ add_drained seq drained
      → ((q : ℤ) → Seen id plan q t → Seen id plan q u)
      → found ≡ find_pending (is_row id plan (suc_ℤ (add_drained seq drained))) u.pending
      → ((v : Tables P)
          → Draining env v id plan (suc_ℤ (add_drained seq (suc drained)))
          → (order_state id v).last_seq ≡ add_drained seq (suc drained)
          → ((q : ℤ) → Seen id plan q t → Seen id plan q v)
          → Ensures v rest (Drained id plan seq t))
      → Ensures
          (remove_pending (is_row id plan (suc_ℤ (add_drained seq drained))) u)
          (drain_round env found drained rest)
          (Drained id plan seq t)
  unfolding drain_round
  drain_round-Drained id plan seq drained none t u rest d last seen e k = Ensures-pure _ (record {
    inv = Inv-taken env u id plan _ d;
    last = unfold remove_pending in last;
    there = unfold remove_pending in d.there;
    ready = unfold remove_pending in d.ready;
    seen = λ q h. Seen-missing id plan q _ u (ap suc_ℤ (sym last)) (sym e) (seen q h);
  })
  drain_round-Drained id plan seq drained (some p) t u rest d last seen e k =
      or_reject_then _ _ _ λ event decoded.
        Ensures-bind _ _ _ (write_event-taken u id plan _ p event d (sym e) decoded)
          λ _ v (d', last', rows).
            k v d' last'
              (λ q h. Seen-take id plan q _ u v (ap suc_ℤ (sym last)) last' rows (seen q h))

  pub drain_pending-Drained :
      (fuel : ℕ) (order_id plan : String) (id : ℕ) (seq : ℤ) (drained : ℕ) (t u : Tables P)
      → env.uuid order_id ≡ some id
      → Draining env u id plan (suc_ℤ (add_drained seq drained))
      → (order_state id u).last_seq ≡ add_drained seq drained
      → ((q : ℤ) → Seen id plan q t → Seen id plan q u)
      → Ensures u
          (drain_pending env fuel order_id plan (suc_ℤ (add_drained seq drained)) drained)
          (Drained id plan seq t)
  unfolding drain_pending
  drain_pending-Drained zero order_id plan id seq drained t u cast d last seen = Ensures-raise _
  drain_pending-Drained (suc fuel) order_id plan id seq drained t u cast d last seen =
      let next = suc_ℤ (add_drained seq drained) in
      Ensures-bind _ _ _ (Ensures-within _ _ (take_pending-takes env order_id plan next u))
        λ found w (id', cast', is_found, e).
          let same : id' ≡ id = cc (cast', cast) in
          rw (e, same)
            (drain_round-Drained id plan seq drained found t u _ d last seen (rw same at is_found)
              (λ v. drain_pending-Drained fuel order_id plan id seq (suc drained) t v cast))
