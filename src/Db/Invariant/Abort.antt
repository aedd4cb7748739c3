-- ===== src/Db/Invariant/Abort.antt =====
-- server/internal/db/postgres.go, AbortPlan: the invariant, and the aborted order.
use distribuid_system_simula.Prelude.{
  ℕ, eq_iff, String, true, false, none, some, ◌≡◌, inl, inr, refl, arith, Bool-cases, All, All-map,
  ◌==◌,
}
use distribuid_system_simula.Prelude.Int.{ℤ, pos}
use distribuid_system_simula.Exec.{ok}
use distribuid_system_simula.Models.{EventEnvelope, event_type_abort_plan, status_aborted}
use distribuid_system_simula.Sequencing.{
  Outcome, OrderState, apply, duplicate, buffer, discard, plan_mismatch, tombstone, decide,
  decide_abort,
}
use distribuid_system_simula.Db.Platform.{Platform, RoundTrips}
use distribuid_system_simula.Db.Tables.{PendingEvent, Tables, Session}
use distribuid_system_simula.Db.Rows.{is_of_plan, add_outbox}
use distribuid_system_simula.Db.Ensures.{
  Ensures, Ensures-ok, Ensures-pure, Ensures-bind, Ensures-read, Ensures-within, Ensures-mono,
}
use distribuid_system_simula.Db.Transaction.{begin_func-keeps, Ensures-begin_func}
use distribuid_system_simula.Db.Repository.{
  Applied, carry_out_abort, abort_body, abort_plan, user_id,
}
use distribuid_system_simula.Db.Effects.{
  order_state, insert_order-SetOrder, update_status-SetOrder, insert_outbox-IsNotice,
}
use distribuid_system_simula.Db.Invariant.{IsParked, Inv}
use distribuid_system_simula.Db.Invariant.Close.{
  IsAborted, cleared, tombstone-Closed, abort-Closed, closes, decide_abort-there,
  decide_abort-tombstone, decide_abort-duplicate,
}
use distribuid_system_simula.Db.Invariant.Buffer.{lock_order-reads}

decide_aborted :
    (s : OrderState) (plan : String) (q : ℤ)
    → s.exists ≡ true
    → s.plan_id ≡ plan
    → s.status ≡ status_aborted
    → decide s plan q ≡ discard
unfolding decide
decide_aborted s plan q there owner a =
    ground (arith, eq_iff s.plan_id plan, eq_iff s.status status_aborted)

module _ {P : Type 0} (env : Platform P) (trips : RoundTrips env) where
  -- What `AbortPlan` establishes of the order `id`.
  abbrev pub Ended : ℕ → String → Outcome → Tables P → Type 0
  Ended id plan o u = Inv env u × (closes o ≡ true → IsAborted env id plan u)

  pub carry_out_abort-Ended :
      (o : Outcome) (event : EventEnvelope) (id : ℕ) (t : Tables P)
      → env.uuid event.order_id ≡ some id
      → (event.event_type == event_type_abort_plan) ≡ true
      → Inv env t
      → decide_abort (order_state id t) event.plan_id ≡ o
      → Ensures t (carry_out_abort env o event) (λ _ u. Ended id event.plan_id o u)
  unfolding carry_out_abort
  carry_out_abort-Ended apply event id t cast abort v e =
      let (there, owner) =
        decide_abort-there (order_state id t) event.plan_id (rw e refl) (λ p. cc (e, p)) in
      Ensures-bind _ _ _
        (Ensures-within _ _ (update_status-SetOrder env event.order_id status_aborted t))
        λ _ u (id', cast', k).
          Ensures-bind _ _ _ (insert_outbox-IsNotice env trips event u) λ _ w (r, is_w, n).
            let same : id' ≡ id = cc (cast', cast) in
            rw is_w (
              Ensures-mono _ _ _
                (cleared env event id t (add_outbox r u) cast v
                  (abort-Closed env event id t u r there owner ((rw same at k) there) n abort))
                (λ _ x (v', a). (v', λ _. a)))
  carry_out_abort-Ended tombstone event id t cast abort v e =
      Ensures-bind _ _ _
        (Ensures-within _ _ (
          insert_order-SetOrder env event.order_id (user_id event) status_aborted event.plan_id none
            (pos 0) t))
        λ _ u (id', cast', k).
          let same : id' ≡ id = cc (cast', cast) in
          Ensures-mono _ _ _
            (cleared env event id t u cast v (
              tombstone-Closed env id event.plan_id t u
                (decide_abort-tombstone (order_state id t) event.plan_id e) (rw same at k)))
            (λ _ x (v', a). (v', λ _. a))
  carry_out_abort-Ended duplicate event id t cast abort v e =
      let (there, owner) =
        decide_abort-there (order_state id t) event.plan_id (rw e refl) (λ p. cc (e, p)) in
      Ensures-pure _ (
        v,
        λ _. record {
          there = there;
          owner = owner;
          status = decide_abort-duplicate (order_state id t) event.plan_id e;
        },
      )
  carry_out_abort-Ended buffer event id t cast abort v e = Ensures-pure _ (v, λ p. cc)
  carry_out_abort-Ended discard event id t cast abort v e = Ensures-pure _ (v, λ p. cc)
  carry_out_abort-Ended plan_mismatch event id t cast abort v e = Ensures-pure _ (v, λ p. cc)

  pub abort_body-Ended :
      (event : EventEnvelope) (t : Tables P)
      → (event.event_type == event_type_abort_plan) ≡ true
      → Inv env t
      → Ensures t (abort_body env event) (λ res u.
        (id : ℕ) × (env.uuid event.order_id ≡ some id) × Ended id event.plan_id res.outcome u)
  unfolding abort_body
  abort_body-Ended event t abort v =
      Ensures-read _ _ _ (lock_order-reads env event.order_id t) λ s (id, cast, is_s). rw is_s (
        Ensures-bind _ _ _ (carry_out_abort-Ended _ event id t cast abort v refl)
          λ _ u ended. Ensures-pure _ (id, cast, ended))

  -- `AbortPlan` of an ABORT_PLAN keeps the invariant, whether it succeeds or fails, and whatever
  -- requests to Postgres fail.
  pub abort_plan-Inv :
      (event : EventEnvelope) (s : Session P)
      → (event.event_type == event_type_abort_plan) ≡ true
      → Inv env s.tables
      → Inv env (abort_plan env event s).1.tables
  unfolding abort_plan
  abort_plan-Inv event s abort v =
      begin_func-keeps (Inv env) _ s
        (λ t v. Ensures-mono _ _ _ (abort_body-Ended event t abort v) (λ res u h. h.2.0)) v

  -- An aborted order has no event of its plan left in the buffer.
  IsAborted-clear :
      (id : ℕ) (plan : String) (t : Tables P) (r : PendingEvent P)
      → IsAborted env id plan t
      → IsParked env t r
      → is_of_plan id plan r ≡ false
  IsAborted-clear id plan t r a p = elim (Bool-cases (is_of_plan id plan r)) [
    | inr other ↦ other
    | inl hit ↦
        let at_id : r.order_id ≡ id = ground arith in
        let of_plan : r.plan_id ≡ plan = ground (arith, eq_iff r.plan_id plan) in
        let again : decide (order_state r.order_id t) r.plan_id r.seq_id ≡ discard =
          rw (at_id, of_plan)
            (decide_aborted (order_state id t) plan r.seq_id a.there a.owner a.status) in
        elim p [ inl q ↦ cc | inr q ↦ cc ]
  ]

  -- On tables with the invariant: when `AbortPlan` of an ABORT_PLAN returns APPLY, TOMBSTONE or
  -- DUPLICATE, the order belongs to the plan and is aborted, and no event of the plan is left in
  -- the buffer.
  pub abort_plan-IsAborted :
      (event : EventEnvelope) (s s' : Session P) (res : Applied)
      → (event.event_type == event_type_abort_plan) ≡ true
      → Inv env s.tables
      → abort_plan env event s ≡ (ok res, s')
      → closes res.outcome ≡ true
      → (id : ℕ) × (env.uuid event.order_id ≡ some id)
        × IsAborted env id event.plan_id s'.tables
        × All (λ r. is_of_plan id event.plan_id r ≡ false) s'.tables.pending
  unfolding abort_plan
  abort_plan-IsAborted event s s' res abort v e c =
      let (id, cast, ended) =
        Ensures-ok (Ensures-begin_func s.tables _ _ (abort_body-Ended event s.tables abort v)) s
          refl e in
      let a = ended.1 c in
      (
        id,
        cast,
        a,
        All-map s'.tables.pending (λ r b. IsAborted-clear id event.plan_id s'.tables r a b.1)
            ended.0.parked,
      )
