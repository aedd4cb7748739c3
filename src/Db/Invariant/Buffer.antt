-- ===== src/Db/Invariant/Buffer.antt =====
-- Reading an order's state, and parking an event in the buffer.
use distribuid_system_simula.Prelude.{
  ℕ, eq_iff, String, true, false, Option, none, some, [], ◌∷◌, ◌≡◌, ◌≢◌, inl, inr, refl, ap, arith,
  ◌==◌, Bool-cases, All-append,
}
use distribuid_system_simula.Prelude.Int.{ℤ, pos, ltb_ℤ, eqb_ℤ_iff}
use distribuid_system_simula.Models.{EventEnvelope, event_type_abort_plan}
use distribuid_system_simula.Sequencing.{apply, buffer, decide}
use distribuid_system_simula.Db.Platform.{Platform, RoundTrips}
use distribuid_system_simula.Db.Tables.{PendingEvent, Tables}
use distribuid_system_simula.Db.Rows.{is_row, find_pending, find_order, add_pending}
use distribuid_system_simula.Db.Statements.{
  insert_pending, insert_unless, select_order, encode_int4, cast_uuid, fits, to_jsonb,
}
use distribuid_system_simula.Db.Ensures.{
  Ensures, Ensures-pure, Ensures-read, Ensures-within, Ensures-write, Ensures-gets, Ensures-request,
  check_then, request_then, or_reject_then, gets_then, now_then,
}
use distribuid_system_simula.Db.Repository.{state_of, lock_order, buffer_event}
use distribuid_system_simula.Db.Effects.{order_state}
use distribuid_system_simula.Db.Invariant.{IsBuffered, IsParked, Inv}
use distribuid_system_simula.Db.Invariant.Write.{deref-some}
use distribuid_system_simula.Db.Rows.Laws.{find_pending-append, find_pending-append_self}
use distribuid_system_simula.Db.Invariant.Step.{Before}

module _ {P : Type 0} (env : Platform P) where
  pub lock_order-reads :
      (order_id : String) (t : Tables P)
      → Ensures t
          (lock_order env order_id)
          (λ s u. (u ≡ t) × ((id : ℕ) × (env.uuid order_id ≡ some id) × (s ≡ order_state id t)))
  unfolding lock_order select_order cast_uuid
  lock_order-reads order_id t =
      Ensures-read _ _ (λ _. Unit) (Ensures-within _ _ (Ensures-request (refl, tt)))
        λ _ _.
          Ensures-read _ _
            (λ o. (id : ℕ) × (env.uuid order_id ≡ some id) × (o ≡ find_order id t.orders))
            (Ensures-within _ _ (
              request_then _ (
                or_reject_then _ _ _
                  λ id cast. Ensures-gets (λ x. find_order id x.orders) (refl, (id, cast, refl)))))
            λ o (id, cast, e). Ensures-pure _ (refl, (id, cast, ap state_of e))

  -- Where `seq` is next it is not in the buffer.
  pub parked-Before :
      (t : Tables P) (id : ℕ) (plan : String) (seq : ℤ) (r : PendingEvent P)
      → decide (order_state id t) plan seq ≡ apply
      → IsBuffered env r × IsParked env t r
      → Before env t id plan seq r
  parked-Before t id plan seq r ready b = elim (Bool-cases (is_row id plan seq r)) [
    | inr missed ↦ (missed, b.0, inl b.1)
    | inl hit ↦
        let at_id : r.order_id ≡ id = ground arith in
        let of_plan : r.plan_id ≡ plan = ground (arith, eq_iff r.plan_id plan) in
        let is_seq : r.seq_id ≡ seq = ground (arith, eqb_ℤ_iff r.seq_id seq) in
        let again : decide (order_state r.order_id t) r.plan_id r.seq_id ≡ apply =
          rw (at_id, of_plan, is_seq) ready in
        elim b.1 [ inl p ↦ cc | inr p ↦ cc ]
  ]

  abbrev row_of : ℕ → String → ℤ → P → ℕ → PendingEvent P
  row_of id plan seq p now = record {
    order_id = id;
    plan_id = plan;
    seq_id = seq;
    payload = p;
    received_at = now;
  }

  -- The row of the event `seq` is in the buffer, and nothing else changed.
  pub record Stored (id : ℕ) (plan : String) (seq : ℤ) (t u : Tables P) : Type 0 where
    pub inv : Inv env u
    pub orders_kept : u.orders ≡ t.orders
    pub stored : find_pending (is_row id plan seq) u.pending ≢ none
    pub rows_kept :
        (q : ℤ)
        → find_pending (is_row id plan q) t.pending ≢ none
        → find_pending (is_row id plan q) u.pending ≢ none

  add_pending-Inv :
      (t : Tables P) (r : PendingEvent P)
      → Inv env t
      → IsBuffered env r × IsParked env t r
      → Inv env (add_pending r t)
  unfolding add_pending
  add_pending-Inv t r v b = record {
    ledger = v.ledger;
    counted = v.counted;
    parked = All-append _ t.pending (r ∷ []) v.parked (b, tt);
  }

  insert_unless-Stored :
      (id : ℕ) (plan : String) (seq : ℤ) (q : P) (now : ℕ) (present : Option P) (t : Tables P)
      → Inv env t
      → find_pending (is_row id plan seq) t.pending ≡ present
      → IsBuffered env (row_of id plan seq q now) × IsParked env t (row_of id plan seq q now)
      → Ensures t
          (insert_unless env present (row_of id plan seq q now))
          (λ _ u. Stored id plan seq t u)
  unfolding insert_unless
  insert_unless-Stored id plan seq q now none t v e b =
      let r = row_of id plan seq q now in
      Ensures-write _ (record {
        inv = add_pending-Inv t r v b;
        orders_kept = unfold add_pending in refl;
        stored =
            unfold add_pending in
            find_pending-append_self (is_row id plan seq) t.pending r
              (ground (arith, eq_iff plan plan));
        rows_kept = λ n. unfold add_pending in find_pending-append (is_row id plan n) t.pending r;
      })
  insert_unless-Stored id plan seq q now (some p) t v e b =
      Ensures-pure _
        (record { inv = v; orders_kept = refl; stored = λ n. cc (e, n); rows_kept = λ n h. h })

  insert_pending-Stored :
      (order_id plan : String) (id : ℕ) (seq : ℤ) (p : P) (t : Tables P)
      → env.uuid order_id ≡ some id
      → Inv env t
      → ((q : P) (now : ℕ)
          → env.jsonb p ≡ some q
          → ltb_ℤ (pos 0) seq ≡ true
          → IsBuffered env (row_of id plan seq q now) × IsParked env t (row_of id plan seq q now))
      → Ensures t (insert_pending env order_id plan seq p) (λ _ u. Stored id plan seq t u)
  unfolding insert_pending encode_int4 cast_uuid fits to_jsonb
  insert_pending-Stored order_id plan id seq p t cast v row = check_then _ _ _ λ _. request_then _ (
      or_reject_then _ _ _ λ id' cast'. check_then _ _ _ λ _. or_reject_then _ _ _ λ q stored.
        check_then _ _ _ λ positive.
          gets_then (λ x. find_pending (is_row id' plan seq) x.pending) _
            (now_then _ λ now.
              let same : id' ≡ id = cc (cast', cast) in
              rw same
                (insert_unless-Stored id plan seq q now _ t v refl (row q now stored positive))))

module _ {P : Type 0} (env : Platform P) (trips : RoundTrips env) where
  pub buffer_event-Stored :
      (event : EventEnvelope) (id : ℕ) (seq : ℤ) (t : Tables P)
      → env.uuid event.order_id ≡ some id
      → event.seq_id ≡ some seq
      → (event.event_type == event_type_abort_plan) ≡ false
      → Inv env t
      → decide (order_state id t) event.plan_id seq ≡ buffer
      → Ensures t (buffer_event env event) (λ _ u. Stored env id event.plan_id seq t u)
  unfolding buffer_event
  buffer_event-Stored event id seq t cast numbered live v parks =
      or_reject_then _ _ _ λ p marshalled.
        Ensures-read _ _ _ (deref-some env event.seq_id t) λ n is_n. Ensures-within _ _ (
          let same : n ≡ seq = cc (is_n, numbered) in
          rw same (
            insert_pending-Stored env event.order_id event.plan_id id seq p t cast v
              λ q now stored positive. (
                record {
                  event = event;
                  reads = trips.read_back event p q marshalled stored;
                  order = cast;
                  plan = refl;
                  seq = numbered;
                  positive = positive;
                  not_abort = live;
                },
                inl parks,
              )))
