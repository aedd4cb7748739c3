-- ===== src/Db/Invariant/Write.antt =====
-- What writing an event does to the tables.
use mathlib.Core.Path.{subst}
use mathlib.Core.List.{append-nil, append_assoc}
use distribuid_system_simula.Prelude.{
  ℕ, Bool, true, false, Option, none, some, List, [], ◌∷◌, ◌++◌, ◌==◌, ◌≡◌, refl, ◌∙◌, eqb, arith,
  if◌then◌else◌, Bool-cases, inl, inr,
}
use distribuid_system_simula.Prelude.Int.{ℤ}
use distribuid_system_simula.Models.{EventEnvelope, event_type_abort_plan, status_from_event_type}
use distribuid_system_simula.Db.Platform.{Platform, RoundTrips}
use distribuid_system_simula.Db.Tables.{OutboxRow, Tables}
use distribuid_system_simula.Db.Rows.{add_outbox}
use distribuid_system_simula.Db.Statements.{encode_int4}
use distribuid_system_simula.Db.Ensures.{
  Ensures, Ensures-pure, Ensures-raise, Ensures-bind, Ensures-read, Ensures-within, Ensures-mono,
  check_then,
}
use distribuid_system_simula.Db.Repository.{deref, write_order, write_event}
use distribuid_system_simula.Db.Effects.{
  order_state, SetOrder, IsNotice, insert_order-SetOrder, update_order-SetOrder,
  insert_outbox-IsNotice,
}
use distribuid_system_simula.Db.Invariant.{seqs_of, is_of_order, notified}
use distribuid_system_simula.Db.Invariant.Decisions.{written}

module _ {P : Type 0} (env : Platform P) where
  pub notified-append :
      (id : ℕ) (rs : List (OutboxRow P)) (r : OutboxRow P)
      → notified env id (rs ++ r ∷ [])
        ≡ notified env id rs
          ++ (if is_of_order env id r then seqs_of (env.unmarshal r.payload) else [])
  unfolding notified
  notified-append id [] r = elim (Bool-cases (is_of_order env id r)) [
    | inl e ↦ rw (e, append-nil)
    | inr e ↦ rw e
  ]
  notified-append id (x ∷ rs) r = elim (Bool-cases (is_of_order env id x)) [
    | inl e ↦ rw (e, notified-append id rs r, append_assoc)
    | inr e ↦ rw e (notified-append id rs r)
  ]

  -- The event `seq` of the order `id` was written: the order's state, its notification, and
  -- nothing else changed.
  pub record Wrote (event : EventEnvelope) (id : ℕ) (seq : ℤ) (t u : Tables P) : Type 0 where
    pub set : order_state id u ≡ written event.plan_id seq (status_from_event_type event.event_type)
    pub others : (j : ℕ) → eqb id j ≡ false → order_state j u ≡ order_state j t
    pub pending_kept : u.pending ≡ t.pending
    pub noticed :
        (j : ℕ)
        → notified env j u.outbox ≡ notified env j t.outbox ++ (if eqb id j then seq ∷ [] else [])

  write_order-SetOrder :
      (exists : Bool) (event : EventEnvelope) (seq : ℤ) (t : Tables P)
      → Ensures t (write_order env exists event seq) (λ _ u.
        (id : ℕ) × (env.uuid event.order_id ≡ some id)
        × ((order_state id t).exists ≡ exists
            → (exists ≡ true → (order_state id t).plan_id ≡ event.plan_id)
            → SetOrder id
                (written event.plan_id seq (status_from_event_type event.event_type))
                t
                u))
  unfolding write_order encode_int4
  write_order-SetOrder true event seq t = check_then _ _ _ λ _.
      Ensures-mono _ _ _ (update_order-SetOrder env _ _ _ seq t) λ _ u (id, cast, k). (
        id,
        cast,
        λ there owned.
            subst (λ st. SetOrder id st t u)
              (λ i. record {
                exists = there i;
                plan_id = owned refl i;
                last_seq = seq;
                status = status_from_event_type event.event_type;
              })
              (k there),
      )
  write_order-SetOrder false event seq t = check_then _ _ _ λ _.
      Ensures-mono _ _ _ (insert_order-SetOrder env _ _ _ _ _ seq t)
        λ _ u (id, cast, k). (id, cast, λ _ _. k)

  pub deref-some :
      (o : Option ℤ) (t : Tables P) → Ensures t (deref env o) (λ n u. (u ≡ t) × (o ≡ some n))
  unfolding deref
  deref-some none t = Ensures-raise _
  deref-some (some n) t = Ensures-pure n (refl, refl)

  notice-is_of_order :
      (event : EventEnvelope) (r : OutboxRow P) (id j : ℕ)
      → IsNotice env event r
      → env.uuid event.order_id ≡ some id
      → (event.event_type == event_type_abort_plan) ≡ false
      → is_of_order env j r ≡ eqb id j
  notice-is_of_order event r id j n cast live =
      let same : r.aggregate_id ≡ id = cc (n.aggregate, cast) in
      rw (same, n.kind, live) (ground arith)

  Wrote-intro :
      (event : EventEnvelope) (id : ℕ) (seq : ℤ) (t u : Tables P) (r : OutboxRow P)
      → SetOrder id (written event.plan_id seq (status_from_event_type event.event_type)) t u
      → IsNotice env event r
      → env.uuid event.order_id ≡ some id
      → event.seq_id ≡ some seq
      → (event.event_type == event_type_abort_plan) ≡ false
      → Wrote event id seq t (add_outbox r u)
  unfolding add_outbox
  Wrote-intro event id seq t u r w n cast numbered live = record {
    set = w.set;
    others = w.others;
    pending_kept = w.pending_kept;
    noticed = λ j.
        notified-append j u.outbox r
        ∙ rw (notice-is_of_order event r id j n cast live, n.reads, numbered, w.outbox_kept);
  }

module _ {P : Type 0} (env : Platform P) (trips : RoundTrips env) where
  pub write_event-Wrote :
      (exists : Bool) (event : EventEnvelope) (id : ℕ) (seq : ℤ) (t : Tables P)
      → env.uuid event.order_id ≡ some id
      → event.seq_id ≡ some seq
      → (event.event_type == event_type_abort_plan) ≡ false
      → (order_state id t).exists ≡ exists
      → (exists ≡ true → (order_state id t).plan_id ≡ event.plan_id)
      → Ensures t (write_event env exists event) (λ _ u. Wrote env event id seq t u)
  unfolding write_event
  write_event-Wrote exists event id seq t cast numbered live there owned =
      Ensures-read _ _ _ (deref-some env event.seq_id t) λ n is_n.
        Ensures-bind _ _ _ (Ensures-within _ _ (write_order-SetOrder env exists event n t))
          λ _ v (id', cast', k).
            Ensures-mono _ _ _ (insert_outbox-IsNotice env trips event v) λ _ u (r, e, notice).
              rw e (
                let same_id : id' ≡ id = cc (cast', cast) in
                let same_n : n ≡ seq = cc (is_n, numbered) in
                Wrote-intro env event id seq t v r ((rw (same_id, same_n) at k) there owned) notice
                  cast numbered live)
