-- ===== src/Db/Invariant/Close.antt =====
-- How closing an order, by an abort or by a tombstone, changes the invariant's parts.
use mathlib.Core.Path.{subst}
use mathlib.Core.List.{append-nil}
use distribuid_system_simula.Prelude.{
  ℕ, eq_iff, String, Bool, true, false, some, ◌≡◌, ◌≢◌, inl, inr, refl, sym, ap, ◌∙◌, eqb, arith,
  Bool-cases, All-map, ◌==◌,
}
use distribuid_system_simula.Prelude.Int.{ℤ, pos}
use distribuid_system_simula.Models.{EventEnvelope, event_type_abort_plan, status_aborted}
use distribuid_system_simula.Sequencing.{
  Outcome, OrderState, apply, duplicate, plan_mismatch, tombstone, decide, decide_abort,
}
use distribuid_system_simula.Db.Platform.{Platform}
use distribuid_system_simula.Db.Tables.{PendingEvent, OutboxRow, Tables}
use distribuid_system_simula.Db.Rows.{is_of_plan, delete_pending, remove_pending, add_outbox}
use distribuid_system_simula.Db.Rows.Laws.{All-delete}
use distribuid_system_simula.Db.Statements.{delete_plan, cast_uuid}
use distribuid_system_simula.Db.Ensures.{
  Ensures, Ensures-within, Ensures-mono, Ensures-write, request_then, or_reject_then,
}
use distribuid_system_simula.Db.Repository.{discard_pending}
use distribuid_system_simula.Db.Effects.{order_state, SetOrder, IsNotice}
use distribuid_system_simula.Db.Invariant.{is_of_order, notified, IsParked, Inv}
use distribuid_system_simula.Db.Invariant.Write.{notified-append}
use distribuid_system_simula.Db.Invariant.Step.{zero_value}

decide_other :
    (s : OrderState) (plan p : String) (q : ℤ)
    → s.exists ≡ true
    → s.plan_id ≡ plan
    → (p == plan) ≡ false
    → decide s p q ≡ plan_mismatch
unfolding decide
decide_other s plan p q there owner ne = ground (arith, eq_iff s.plan_id p, eq_iff p plan)

module _ {P : Type 0} (env : Platform P) where
  -- The order `id` of the plan was closed: its row says so, and no sequenced event was notified.
  pub record Closed (id : ℕ) (plan : String) (t u : Tables P) : Type 0 where
    pub there : (order_state id u).exists ≡ true
    pub owner : (order_state id u).plan_id ≡ plan
    pub status : (order_state id u).status ≡ status_aborted
    pub last_kept : (order_state id u).last_seq ≡ (order_state id t).last_seq
    pub others : (j : ℕ) → eqb id j ≡ false → order_state j u ≡ order_state j t
    pub pending_kept : u.pending ≡ t.pending
    pub notified_kept : (j : ℕ) → notified env j u.outbox ≡ notified env j t.outbox

  pub last_seq-Closed :
      {id : ℕ} {plan : String} {t u : Tables P}
      → Closed id plan t u
      → (j : ℕ) → (order_state j u).last_seq ≡ (order_state j t).last_seq
  last_seq-Closed {id} {plan} {t} {u} c j = elim (Bool-cases (eqb id j)) [
    | inl same ↦
        let e : id ≡ j = ground arith in
        subst (λ k. (order_state k u).last_seq ≡ (order_state k t).last_seq) e c.last_kept
    | inr other ↦ ap (λ s. s.last_seq) (c.others j other)
  ]

  pub IsParked-Closed :
      {id : ℕ} {plan : String} {t u : Tables P}
      → Closed id plan t u
      → (r : PendingEvent P) → is_of_plan id plan r ≡ false
      → IsParked env t r
      → IsParked env u r
  IsParked-Closed {id} {plan} {t} {u} c r kept h = elim (Bool-cases (eqb id r.order_id)) [
    | inl same ↦
        let e : id ≡ r.order_id = ground arith in
        let other : (r.plan_id == plan) ≡ false = ground arith in
        inr (
          subst (λ k. decide (order_state k u) r.plan_id r.seq_id ≡ plan_mismatch) e
            (decide_other (order_state id u) plan r.plan_id r.seq_id c.there c.owner other))
    | inr other ↦ rw (c.others r.order_id other) h
  ]

  pub Inv-Closed :
      {id : ℕ} {plan : String} {t u : Tables P}
      → Closed id plan t u
      → Inv env t
      → Inv env (remove_pending (is_of_plan id plan) u)
  unfolding remove_pending
  Inv-Closed {id} {plan} {t} {u} c v = record {
    ledger = λ j. c.notified_kept j ∙ v.ledger j ∙ rw (last_seq-Closed c j);
    counted = λ j. rw (last_seq-Closed c j) (v.counted j);
    parked = rw c.pending_kept (
        All-map (delete_pending (is_of_plan id plan) t.pending)
          (λ r (gone, bp). (bp.0, IsParked-Closed c r gone bp.1))
          (All-delete _ _ t.pending v.parked));
  }

  -- The order `id` of the plan is aborted.
  pub record IsAborted (id : ℕ) (plan : String) (t : Tables P) : Type 0 where
    pub there : (order_state id t).exists ≡ true
    pub owner : (order_state id t).plan_id ≡ plan
    pub status : (order_state id t).status ≡ status_aborted

  abort-is_of_order :
      (event : EventEnvelope) (r : OutboxRow P) (j : ℕ)
      → IsNotice env event r
      → (event.event_type == event_type_abort_plan) ≡ true
      → is_of_order env j r ≡ false
  abort-is_of_order event r j n abort = rw (n.kind, abort) (ground arith)

  discard_pending-removes :
      (event : EventEnvelope) (id : ℕ) (t : Tables P)
      → env.uuid event.order_id ≡ some id
      → Ensures t
          (discard_pending env event)
          (λ _ u. u ≡ remove_pending (is_of_plan id event.plan_id) t)
  unfolding discard_pending delete_plan cast_uuid
  discard_pending-removes event id t cast = Ensures-within _ _ (
      request_then _ (
        or_reject_then _ _ _
          λ id' cast'. let same : id' ≡ id = cc (cast', cast) in Ensures-write _ (rw same refl)))

  -- After the buffer was cleared.
  pub cleared :
      (event : EventEnvelope) (id : ℕ) (t u : Tables P)
      → env.uuid event.order_id ≡ some id
      → Inv env t
      → Closed id event.plan_id t u
      → Ensures u (discard_pending env event) (λ _ w. Inv env w × IsAborted id event.plan_id w)
  cleared event id t u cast v c =
      Ensures-mono _ _ _ (discard_pending-removes event id u cast) λ _ w e. rw e (
        Inv-Closed c v,
        unfold remove_pending in record { there = c.there; owner = c.owner; status = c.status },
      )

  pub tombstone-Closed :
      (id : ℕ) (plan : String) (t u : Tables P)
      → (order_state id t).exists ≡ false
      → SetOrder id
          (record { exists = true; plan_id = plan; last_seq = pos 0; status = status_aborted })
          t
          u
      → Closed id plan t u
  tombstone-Closed id plan t u absent w = record {
    there = ap (λ s. s.exists) w.set;
    owner = ap (λ s. s.plan_id) w.set;
    status = ap (λ s. s.status) w.set;
    last_kept = ap (λ s. s.last_seq) w.set ∙ sym (zero_value env id t absent);
    others = w.others;
    pending_kept = w.pending_kept;
    notified_kept = λ j. ap (notified env j) w.outbox_kept;
  }

  pub abort-Closed :
      (event : EventEnvelope) (id : ℕ) (t u : Tables P) (r : OutboxRow P)
      → (order_state id t).exists ≡ true
      → (order_state id t).plan_id ≡ event.plan_id
      → SetOrder id (record (order_state id t) { status = status_aborted }) t u
      → IsNotice env event r
      → (event.event_type == event_type_abort_plan) ≡ true
      → Closed id event.plan_id t (add_outbox r u)
  unfolding add_outbox
  abort-Closed event id t u r there owner w n abort = record {
    there = ap (λ s. s.exists) w.set ∙ there;
    owner = ap (λ s. s.plan_id) w.set ∙ owner;
    status = ap (λ s. s.status) w.set;
    last_kept = ap (λ s. s.last_seq) w.set;
    others = w.others;
    pending_kept = w.pending_kept;
    notified_kept = λ j.
        notified-append env j u.outbox r
        ∙ rw (abort-is_of_order event r j n abort, append-nil, w.outbox_kept);
  }

-- The outcomes after which the order is aborted.
abbrev pub closes : Outcome → Bool
closes apply = true
closes tombstone = true
closes duplicate = true
closes _ = false

pub decide_abort-there :
    (s : OrderState) (plan : String)
    → closes (decide_abort s plan) ≡ true
    → decide_abort s plan ≢ tombstone
    → (s.exists ≡ true) × (s.plan_id ≡ plan)
unfolding decide_abort
decide_abort-there s plan h n = ground (arith, eq_iff s.plan_id plan)

pub decide_abort-tombstone :
    (s : OrderState) (plan : String) → decide_abort s plan ≡ tombstone → s.exists ≡ false
unfolding decide_abort
decide_abort-tombstone s plan h = ground arith

pub decide_abort-duplicate :
    (s : OrderState) (plan : String) → decide_abort s plan ≡ duplicate → s.status ≡ status_aborted
unfolding decide_abort
decide_abort-duplicate s plan h = ground (arith, eq_iff s.status status_aborted)
