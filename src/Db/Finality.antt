-- ===== src/Db/Finality.antt =====
-- server/internal/db/postgres.go, AbortPlan: an abort that is delivered again, and an aborted order.
use distribuid_system_simula.Prelude.{
  ℕ, String, Bool, true, false, some, ◌≡◌, ◌≢◌, ◌⊎◌, inl, inr, refl, ◌∙◌, arith, eq_iff, Bool-cases,
  ◌==◌,
}
use distribuid_system_simula.Prelude.Int.{ℤ}
use distribuid_system_simula.Exec.{Result, ok, err}
use distribuid_system_simula.Models.{EventEnvelope, event_type_abort_plan, status_aborted}
use distribuid_system_simula.Sequencing.{
  Outcome, OrderState, apply, duplicate, buffer, discard, plan_mismatch, tombstone, decide,
  decide_abort,
}
use distribuid_system_simula.Db.Platform.{Platform, RoundTrips}
use distribuid_system_simula.Db.Tables.{Tables, Session}
use distribuid_system_simula.Db.Ensures.{
  Ensures, Ensures-ok, Ensures-pure, Ensures-bind, Ensures-read, Ensures-mono,
}
use distribuid_system_simula.Db.Transaction.{begin_func-keeps, Ensures-begin_func}
use distribuid_system_simula.Db.Repository.{
  Applied, carry_out_abort, abort_body, abort_plan, apply_event,
}
use distribuid_system_simula.Db.Effects.{order_state}
use distribuid_system_simula.Db.Invariant.{Inv}
use distribuid_system_simula.Db.Invariant.Close.{closes}
use distribuid_system_simula.Db.Invariant.Abort.{carry_out_abort-Ended, abort_plan-IsAborted}
use distribuid_system_simula.Db.Invariant.Buffer.{lock_order-reads}
use distribuid_system_simula.Db.Redelivery.{apply_body-kept}
use distribuid_system_simula.Db.Atomicity.{begin_func_error}

-- An error was returned.
abbrev pub IsError : {A : Type 0} → Result A → Type 0
IsError (ok _) = ⊥
IsError (err _) = Unit

-- The outcomes for which `AbortPlan` writes.
abbrev acts : Outcome → Bool
acts apply = true
acts tombstone = true
acts _ = false

acts-closes : (o : Outcome) → acts o ≡ true → closes o ≡ true
acts-closes apply h = refl
acts-closes tombstone h = refl
acts-closes duplicate h = refl
acts-closes buffer h = cc
acts-closes discard h = cc
acts-closes plan_mismatch h = cc

decide_abort-idle :
    (s : OrderState) (plan : String)
    → s.exists ≡ true
    → s.status ≡ status_aborted
    → acts (decide_abort s plan) ≡ false
unfolding decide_abort
decide_abort-idle s plan there a = ground (arith, eq_iff s.status status_aborted)

decide-idle :
    (s : OrderState) (plan : String) (seq : ℤ)
    → s.exists ≡ true
    → s.status ≡ status_aborted
    → (decide s plan seq ≢ apply) × (decide s plan seq ≢ buffer)
unfolding decide
decide-idle s plan seq there a =
    (ground (arith, eq_iff s.status status_aborted), ground (arith, eq_iff s.status status_aborted))

module _ {P : Type 0} (env : Platform P) where
  carry_out_abort-kept :
      (o : Outcome) (event : EventEnvelope) (t : Tables P)
      → acts o ≡ false
      → Ensures t (carry_out_abort env o event) (λ _ u. u ≡ t)
  unfolding carry_out_abort
  carry_out_abort-kept apply event t h = absurd cc
  carry_out_abort-kept tombstone event t h = absurd cc
  carry_out_abort-kept duplicate event t h = Ensures-pure _ refl
  carry_out_abort-kept buffer event t h = Ensures-pure _ refl
  carry_out_abort-kept discard event t h = Ensures-pure _ refl
  carry_out_abort-kept plan_mismatch event t h = Ensures-pure _ refl

  abort_body-kept :
      (event : EventEnvelope) (id : ℕ) (t : Tables P)
      → env.uuid event.order_id ≡ some id
      → acts (decide_abort (order_state id t) event.plan_id) ≡ false
      → Ensures t (abort_body env event) (λ _ u. u ≡ t)
  unfolding abort_body
  abort_body-kept event id t cast h =
      Ensures-read _ _ _ (lock_order-reads env event.order_id t) λ s (id', cast', is_s).
        let same : id' ≡ id = cc (cast', cast) in
        rw (is_s, same)
          (Ensures-bind _ _ _ (carry_out_abort-kept _ event t h) λ _ u e. Ensures-pure _ e)

  -- The abort, decided again, writes nothing.
  Settled : EventEnvelope → Tables P → Type 0
  Settled event u =
      (id : ℕ) × (env.uuid event.order_id ≡ some id)
      × (acts (decide_abort (order_state id u) event.plan_id) ≡ false)

module _ {P : Type 0} (env : Platform P) (trips : RoundTrips env) where
  abort_body-Settled :
      (event : EventEnvelope) (t : Tables P)
      → (event.event_type == event_type_abort_plan) ≡ true
      → Inv env t
      → Ensures t (abort_body env event) (λ _ u. Settled env event u)
  unfolding abort_body Settled
  abort_body-Settled event t abort v =
      Ensures-read _ _ _ (lock_order-reads env event.order_id t) λ s (id, cast, is_s).
        rw is_s (elim (Bool-cases (acts (decide_abort (order_state id t) event.plan_id))) [
          | inr idle ↦
              Ensures-bind _ _ _ (carry_out_abort-kept env _ event t idle)
                λ _ u e. Ensures-pure _ (id, cast, rw e idle)
          | inl busy ↦
              Ensures-bind _ _ _ (carry_out_abort-Ended env trips _ event id t cast abort v refl)
                λ _ u ended.
                  let a = ended.1 (acts-closes _ busy) in
                  Ensures-pure _ (id, cast, decide_abort-idle (order_state id u) _ a.there a.status)
        ])

  abort_plan-Settled :
      (event : EventEnvelope) (s : Session P) (u : Tables P)
      → Settled env event u
      → s.tables ≡ u
      → (abort_plan env event s).1.tables ≡ u
  unfolding abort_plan Settled
  abort_plan-Settled event s u (id, cast, idle) same =
      begin_func-keeps (λ w. w ≡ u) _ s (λ t is. rw is (abort_body-kept env event id u cast idle))
        same

  -- `AbortPlan` of an ABORT_PLAN, on tables with the invariant, has either returned an error and
  -- changed nothing, or, whether it returned an error or not, aborting again on the tables that it
  -- left changes nothing, whatever requests fail then.
  pub abort_plan_retry :
      (event : EventEnvelope) (s s' s'' : Session P) (r : Result Applied)
      → (event.event_type == event_type_abort_plan) ≡ true
      → Inv env s.tables
      → abort_plan env event s ≡ (r, s')
      → s''.tables ≡ s'.tables
      → (IsError r × (s'.tables ≡ s.tables)) ⊎ ((abort_plan env event s'').1.tables ≡ s'.tables)
  unfolding abort_plan
  abort_plan_retry event s s' s'' (ok res) abort v ran same = inr (
      abort_plan-Settled event s'' s'.tables
        (Ensures-ok (Ensures-begin_func s.tables _ _ (abort_body-Settled event s.tables abort v)) s
          refl ran)
        same)
  abort_plan_retry event s s' s'' (err x) abort v ran same =
      elim (begin_func_error (abort_body env event) s s' x ran) [
        | inl kept ↦ inl (tt, kept)
        | inr d ↦ inr (
            abort_plan-Settled event s'' s'.tables
              (rw d.committed (Ensures-ok (abort_body-Settled event s.tables abort v) _ refl d.ran))
              same)
      ]

  -- On tables with the invariant: once `AbortPlan` of an ABORT_PLAN has returned APPLY, TOMBSTONE or
  -- DUPLICATE, no ApplyEvent of an event of the order with a seq_id and no AbortPlan of the order
  -- changes the tables that this left any more, whatever the plan of the event, and whatever requests
  -- fail then.
  pub aborted_is_final :
      (abort event : EventEnvelope) (s s' s'' : Session P) (res : Applied) (seq : ℤ)
      → (abort.event_type == event_type_abort_plan) ≡ true
      → Inv env s.tables
      → abort_plan env abort s ≡ (ok res, s')
      → closes res.outcome ≡ true
      → env.uuid event.order_id ≡ env.uuid abort.order_id
      → event.seq_id ≡ some seq
      → s''.tables ≡ s'.tables
      → ((apply_event env event s'').1.tables ≡ s'.tables)
        × ((abort_plan env event s'').1.tables ≡ s'.tables)
  aborted_is_final abort event s s' s'' res seq kind v ran closed of_order numbered same =
      let (id, cast, a, _) = abort_plan-IsAborted env trips abort s s' res kind v ran closed in
      let cast' = of_order ∙ cast in
      let (not_apply, not_buffer) =
        decide-idle (order_state id s'.tables) event.plan_id seq a.there a.status in
      (
        unfold apply_event in
            begin_func-keeps (λ w. w ≡ s'.tables) _ s''
              (λ t is. rw is (
                Ensures-mono _ _ _
                  (apply_body-kept env event id seq s'.tables _ cast' numbered refl not_apply
                    (λ b. absurd (not_buffer b)))
                  (λ r u k. k.0)))
              same,
        abort_plan-Settled event s'' s'.tables
            (unfold Settled in (id, cast', decide_abort-idle _ event.plan_id a.there a.status))
            same,
      )
