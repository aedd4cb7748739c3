-- ===== src/Db/Effects.antt =====
-- What the statements on orders and on the outbox do to the tables, as the sequencing rules see
-- them.
use distribuid_system_simula.Prelude.{
  ℕ, String, true, false, Option, none, some, ◌≡◌, refl, eqb, arith,
}
use distribuid_system_simula.Prelude.Int.{ℤ}
use distribuid_system_simula.Models.{EventEnvelope}
use distribuid_system_simula.Sequencing.{OrderState}
use distribuid_system_simula.Db.Platform.{Platform, RoundTrips}
use distribuid_system_simula.Db.Tables.{Order, OutboxRow, Tables}
use distribuid_system_simula.Db.Rows.{find_order, add_order, change_order, add_outbox}
use distribuid_system_simula.Db.Rows.Laws.{find_order-append, find_order-set_order}
use distribuid_system_simula.Db.Statements.{
  cast_uuid, to_decimal, fits, allowed, to_jsonb, unique, update_row, insert_order, update_order,
  update_status, next_position, insert_outbox_row,
}
use distribuid_system_simula.Db.Ensures.{
  Ensures, Ensures-pure, Ensures-raise, Ensures-write, Ensures-read, Ensures-within, Ensures-mono,
  request_then, or_reject_then, check_then, gets_then, now_then,
}
use distribuid_system_simula.Db.Repository.{state_of, insert_outbox}

module _ {P : Type 0} where
  -- The state of the order `id`, which need not exist.
  abbrev pub order_state : ℕ → Tables P → OrderState
  order_state id t = state_of (find_order id t.orders)

  -- Only the order `id` changes, to the state `st`.
  pub record SetOrder (id : ℕ) (st : OrderState) (t u : Tables P) : Type 0 where
    pub set : order_state id u ≡ st
    pub others : (j : ℕ) → eqb id j ≡ false → order_state j u ≡ order_state j t
    pub pending_kept : u.pending ≡ t.pending
    pub outbox_kept : u.outbox ≡ t.outbox

  pub add_order-SetOrder :
      (o : Order) (t : Tables P)
      → find_order o.id t.orders ≡ none
      → SetOrder o.id (state_of (some o)) t (add_order o t)
  unfolding add_order
  add_order-SetOrder o t h = record {
    set = rw (find_order-append o.id o t.orders h) (ground arith);
    others = λ j ne. rw (find_order-append j o t.orders h) (rw ne refl);
    pending_kept = refl;
    outbox_kept = refl;
  }

  pub change_order-SetOrder :
      (id : ℕ) (f : Order → Order) (t : Tables P) (o : Order)
      → ((o : Order) → (f o).id ≡ o.id)
      → find_order id t.orders ≡ some o
      → SetOrder id (state_of (some (f o))) t (change_order id f t)
  unfolding change_order
  change_order-SetOrder id f t o keeps h = record {
    set = rw (find_order-set_order id id f t.orders keeps) (ground arith);
    others = λ j ne. rw (find_order-set_order id j f t.orders keeps) (rw ne refl);
    pending_kept = refl;
    outbox_kept = refl;
  }

module _ {P : Type 0} (env : Platform P) where
  pub to_decimal-reads :
      (total : Option ℕ) (t : Tables P) → Ensures t (to_decimal env total) (λ _ u. (u ≡ t) × Unit)
  unfolding to_decimal
  to_decimal-reads none t = Ensures-pure _ (refl, tt)
  to_decimal-reads (some x) t = or_reject_then _ _ _ (λ a p. Ensures-pure _ (refl, tt))

  pub next_position-reads :
      (t : Tables P) → Ensures t (next_position env) (λ _ u. (u ≡ t) × Unit {0})
  unfolding next_position
  next_position-reads t = record { run = λ s e. record { post = (e, tt) } }

  unique-reads :
      (o : Option Order) (t : Tables P) → Ensures t (unique env o) (λ _ u. (u ≡ t) × (o ≡ none))
  unfolding unique
  unique-reads none t = Ensures-pure _ (refl, refl)
  unique-reads (some o) t = Ensures-raise _

  update_row-SetOrder :
      (id : ℕ) (status : String) (total : Option ℕ) (seq : ℤ) (o : Option Order) (t : Tables P)
      → find_order id t.orders ≡ o
      → Ensures t (update_row env id status total seq o) (λ _ u.
        (order_state id t).exists ≡ true
        → SetOrder id (record (order_state id t) { last_seq = seq; status = status }) t u)
  unfolding update_row allowed
  update_row-SetOrder id status total seq none t e = Ensures-pure _ (λ there. absurd (ground arith))
  update_row-SetOrder id status total seq (some o) t e = check_then _ _ _ λ _.
      Ensures-read _ _ (λ _. Unit) (to_decimal-reads total t)
        λ amount _.
          now_then _
            λ now. Ensures-write _ (λ there. rw e (change_order-SetOrder id _ t o (λ _. refl) e))

  pub insert_order-SetOrder :
      (order_id user_id status plan_id : String) (total : Option ℕ) (seq : ℤ) (t : Tables P)
      → Ensures t (insert_order env order_id user_id status plan_id total seq) (λ _ u.
        (id : ℕ) × (env.uuid order_id ≡ some id)
        × SetOrder id
            (record { exists = true; plan_id = plan_id; last_seq = seq; status = status })
            t
            u)
  unfolding insert_order cast_uuid fits allowed
  insert_order-SetOrder order_id user_id status plan_id total seq t = request_then _ (
      or_reject_then _ _ _ λ id cast. check_then _ _ _ λ _. check_then _ _ _ λ _.
        check_then _ _ _ λ _.
          Ensures-read _ _ (λ _. Unit) (to_decimal-reads total t)
            λ amount _.
              gets_then (λ x. find_order id x.orders) _
                (Ensures-read _ _ (λ _. find_order id t.orders ≡ none) (unique-reads _ t)
                  λ _ absent.
                    now_then _ λ now. Ensures-write _ (id, cast, add_order-SetOrder _ t absent)))

  pub update_order-SetOrder :
      (order_id status : String) (total : Option ℕ) (seq : ℤ) (t : Tables P)
      → Ensures t (update_order env order_id status total seq) (λ _ u.
        (id : ℕ) × (env.uuid order_id ≡ some id)
        × ((order_state id t).exists ≡ true
            → SetOrder id (record (order_state id t) { last_seq = seq; status = status }) t u))
  unfolding update_order cast_uuid
  update_order-SetOrder order_id status total seq t = request_then _ (
      or_reject_then _ _ _ λ id cast.
        gets_then (λ x. find_order id x.orders) _
          (Ensures-mono _ _ _ (update_row-SetOrder id status total seq _ t refl)
            λ _ u h. (id, cast, h)))

  set_status-SetOrder :
      (id : ℕ) (status : String) (now : ℕ) (t : Tables P) (o : Option Order)
      → find_order id t.orders ≡ o
      → (order_state id t).exists ≡ true
      → SetOrder id
          (record (order_state id t) { status = status })
          t
          (change_order id (λ o. record o { status = status; updated_at = now }) t)
  set_status-SetOrder id status now t none e there = absurd (ground arith)
  set_status-SetOrder id status now t (some o) e there =
      rw e (change_order-SetOrder id _ t o (λ _. refl) e)

  pub update_status-SetOrder :
      (order_id status : String) (t : Tables P)
      → Ensures t (update_status env order_id status) (λ _ u.
        (id : ℕ) × (env.uuid order_id ≡ some id)
        × ((order_state id t).exists ≡ true
            → SetOrder id (record (order_state id t) { status = status }) t u))
  unfolding update_status cast_uuid allowed
  update_status-SetOrder order_id status t = request_then _ (
      or_reject_then _ _ _ λ id cast. check_then _ _ _ λ _. now_then _ λ now.
        Ensures-write _ (id, cast, λ there. set_status-SetOrder id status now t _ refl there))

-- `r` is the notification of `event`.
pub record IsNotice {P : Type 0} (env : Platform P) (event : EventEnvelope) (r : OutboxRow P)
    : Type 0 where
  pub aggregate : env.uuid event.order_id ≡ some r.aggregate_id
  pub kind : r.event_type ≡ event.event_type
  pub reads : env.unmarshal r.payload ≡ some event

module _ {P : Type 0} (env : Platform P) (trips : RoundTrips env) where
  pub insert_outbox-IsNotice :
      (event : EventEnvelope) (t : Tables P)
      → Ensures t
          (insert_outbox env event)
          (λ _ u. (r : OutboxRow P) × (u ≡ add_outbox r t) × IsNotice env event r)
  unfolding insert_outbox insert_outbox_row cast_uuid fits to_jsonb
  insert_outbox-IsNotice event t = or_reject_then _ _ _ λ p marshalled. Ensures-within _ _ (
      request_then _ (
        or_reject_then _ _ _ λ id cast. check_then _ _ _ λ _. or_reject_then _ _ _ λ q stored.
          Ensures-read _ _ (λ _. Unit) (next_position-reads env t)
            λ position _. now_then _ λ now. Ensures-write _ (
              _,
              refl,
              record {
                aggregate = cast;
                kind = refl;
                reads = trips.read_back event p q marshalled stored;
              },
            )))
