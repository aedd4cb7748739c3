-- ===== src/Db/Progress/Apply.antt =====
-- server/internal/db/postgres.go, ApplyEvent where no request fails.
use distribuid_system_simula.Prelude.{
  ℕ, zero, suc, String, Bool, true, false, Option, none, some, [], ◌∷◌, ◌≡◌, refl, sym, ap, ◌∙◌,
  ◌<◌, length, All, All-append, All-map, arith,
}
use distribuid_system_simula.Prelude.Int.{ℤ, pos, suc_ℤ, eqb_ℤ_iff}
use distribuid_system_simula.Models.{EventEnvelope}
use distribuid_system_simula.Sequencing.{
  Outcome, apply, buffer, duplicate, discard, tombstone, plan_mismatch, OrderState,
}
use distribuid_system_simula.Db.Platform.{Platform, RoundTrips}
use distribuid_system_simula.Db.Tables.{Order, PendingEvent, Tables}
use distribuid_system_simula.Db.Rows.{
  find_order, find_pending, is_row, delete_pending, remove_pending, add_pending,
}
use distribuid_system_simula.Db.Rows.Laws.{All-delete, find_pending-All, length-delete-lt}
use distribuid_system_simula.Db.Statements.{
  Tx, select_order, cast_uuid, fits, to_jsonb, encode_int4, take_pending, insert_unless,
  insert_pending,
}
use distribuid_system_simula.Db.Repository.{
  state_of, lock_order, drain_round, drain_pending, buffer_event, carry_out, apply_body,
  apply_event,
}
use distribuid_system_simula.Db.Progress.{
  subst, Succeeds, Succeeds-pure, Succeeds-gets, Succeeds-write, Succeeds-within, Succeeds-request,
  Succeeds-read, Succeeds-bind, Succeeds-begin_func, request_passes, or_reject_passes, check_passes,
  gets_passes, now_passes,
}
use distribuid_system_simula.Db.Progress.Writes.{
  Storable, Loadable, deref_passes, write_event-Succeeds,
}

module _ {P : Type 0} (env : Platform P) where
  abbrev pub AllLoadable : Tables P → Type 0
  AllLoadable t = All (Loadable env) t.pending

  take_pending-Succeeds :
      (order_id plan : String) (next : ℤ) (id : ℕ) (t : Tables P)
      → env.int4 next ≡ true
      → env.uuid order_id ≡ some id
      → Succeeds t (take_pending env order_id plan next) (λ found u.
        (found ≡ find_pending (is_row id plan next) t.pending)
        × (u ≡ remove_pending (is_row id plan next) t))
  unfolding take_pending encode_int4 cast_uuid
  take_pending-Succeeds order_id plan next id t fits cast = check_passes _ _ _ fits (
      request_passes _ (
        or_reject_passes _ _ _ id cast (
          gets_passes (λ x. find_pending (is_row id plan next) x.pending) _
            (Succeeds-bind _ _ (λ _ u. u ≡ remove_pending (is_row id plan next) t)
              (Succeeds-write _ refl) λ _ u e. Succeeds-pure _ (refl, e)))))

  AllLoadable-remove :
      (f : PendingEvent P → Bool) (t : Tables P) → AllLoadable t → AllLoadable (remove_pending f t)
  unfolding remove_pending
  AllLoadable-remove f t h =
      All-map (delete_pending f t.pending) (λ r k. k.1) (All-delete _ f t.pending h)

  length-remove :
      (f : PendingEvent P → Bool) (t : Tables P) {p : P}
      → find_pending f t.pending ≡ some p
      → length (remove_pending f t).pending < length t.pending
  unfolding remove_pending
  length-remove f t h = length-delete-lt f t.pending h

  -- The rest of the loop, after the row `next` was taken from the tables `t`.
  drain_round-Succeeds :
      (plan : String) (next : ℤ) (drained id : ℕ) (t : Tables P) (found : Option P) (rest : Tx P ℕ)
      → AllLoadable t
      → found ≡ find_pending (is_row id plan next) t.pending
      → ((u : Tables P)
          → length u.pending < length t.pending
          → env.int4 (suc_ℤ next) ≡ true
          → AllLoadable u
          → Succeeds u rest (λ _ v. AllLoadable v))
      → Succeeds
          (remove_pending (is_row id plan next) t)
          (drain_round env found drained rest)
          (λ _ v. AllLoadable v)
  unfolding drain_round
  drain_round-Succeeds plan next drained id t none rest h is k =
      Succeeds-pure _ (AllLoadable-remove _ t h)
  drain_round-Succeeds plan next drained id t (some p) rest h is k =
      let (r, is_p, hit, l) = find_pending-All _ _ t.pending h (sym is) in
      let is_next : r.seq_id ≡ next = ground (arith, eqb_ℤ_iff r.seq_id next) in
      let numbered : next ≡ pos (suc l.storable.seq) = cc (l.seq, l.storable.numbered, is_next) in
      let left = remove_pending (is_row id plan next) t in
      or_reject_passes _ _ _ l.event (ap env.unmarshal (sym is_p) ∙ l.reads) (
        Succeeds-bind _ _ _ (write_event-Succeeds env true l.event left l.storable (λ e. absurd cc))
          λ _ u same.
            k u (subst (λ rs. length rs < length t.pending) (sym same) (length-remove _ t (sym is)))
              (rw numbered l.storable.next_fits)
              (subst (All (Loadable env)) (sym same) (AllLoadable-remove _ t h)))

  drain_pending-Succeeds :
      (fuel : ℕ) (order_id plan : String) (next : ℤ) (drained id : ℕ) (t : Tables P)
      → length t.pending < fuel
      → env.int4 next ≡ true
      → env.uuid order_id ≡ some id
      → AllLoadable t
      → Succeeds t (drain_pending env fuel order_id plan next drained) (λ _ u. AllLoadable u)
  unfolding drain_pending
  drain_pending-Succeeds zero order_id plan next drained id t enough fits cast h =
      absurd (omega arith)
  drain_pending-Succeeds (suc fuel) order_id plan next drained id t enough fits cast h =
      Succeeds-bind _ _ _
        (Succeeds-within _ _ (take_pending-Succeeds order_id plan next id t fits cast))
        λ found u (is_found, e). rw e (
          drain_round-Succeeds plan next drained id t found _ h is_found λ v fewer fits' h'.
            drain_pending-Succeeds fuel order_id plan (suc_ℤ next) (suc drained) id v (omega arith)
              fits' cast h')

  -- What `lockOrder` returns.
  lock_order-Succeeds :
      (order_id : String) (id : ℕ) (t : Tables P)
      → env.uuid order_id ≡ some id
      → Succeeds t
          (lock_order env order_id)
          (λ state u. (u ≡ t) × (state ≡ state_of (find_order id t.orders)))
  unfolding lock_order select_order cast_uuid
  lock_order-Succeeds order_id id t cast =
      Succeeds-read _ _ (λ _. Unit {0}) (Succeeds-within _ _ (Succeeds-request (refl, tt)))
        λ _ _.
          Succeeds-read _ _ (λ row. row ≡ find_order id t.orders)
            (Succeeds-within _ _ (
              request_passes _ (
                or_reject_passes _ _ _ id cast
                  (Succeeds-gets (λ x. find_order id x.orders) (refl, refl)))))
            λ row is. Succeeds-pure _ (refl, ap state_of is)

  state_of-absent : (o : Option Order) → (state_of o).exists ≡ false → o ≡ none
  state_of-absent none h = refl
  state_of-absent (some o) h = absurd cc

  insert_unless-Succeeds :
      (present : Option P) (r : PendingEvent P) (t : Tables P)
      → Loadable env r
      → AllLoadable t
      → Succeeds t (insert_unless env present r) (λ _ u. AllLoadable u)
  unfolding insert_unless add_pending
  insert_unless-Succeeds none r t l h = Succeeds-write _ (All-append _ t.pending (r ∷ []) h (l, tt))
  insert_unless-Succeeds (some p) r t l h = Succeeds-pure _ h

module _ {P : Type 0} (env : Platform P) (trips : RoundTrips env) where
  insert_pending-Succeeds :
      (e : EventEnvelope) (s : Storable env e) (t : Tables P)
      → AllLoadable env t
      → Succeeds t
          (insert_pending env e.order_id e.plan_id (pos (suc s.seq)) s.writable.text)
          (λ _ u. AllLoadable env u)
  unfolding insert_pending cast_uuid fits to_jsonb encode_int4
  insert_pending-Succeeds e s t h = check_passes _ _ _ s.seq_fits (
      request_passes _ (
        or_reject_passes _ _ _ s.writable.id s.writable.order (
          check_passes _ _ _ s.writable.plan_fits (
            or_reject_passes _ _ _ s.writable.stored s.writable.kept (
              check_passes _ _ _ (ground arith) (
                gets_passes
                  (λ x. find_pending (is_row s.writable.id e.plan_id (pos (suc s.seq))) x.pending) _
                  (now_passes _ λ now.
                    insert_unless-Succeeds env
                      (find_pending (is_row s.writable.id e.plan_id (pos (suc s.seq))) t.pending) _
                      t
                      (record {
                        event = e;
                        reads =
                            trips.read_back e s.writable.text s.writable.stored s.writable.marshals
                              s.writable.kept;
                        seq = s.numbered;
                        storable = s;
                      })
                      h)))))))

  buffer_event-Succeeds :
      (e : EventEnvelope) (s : Storable env e) (t : Tables P)
      → AllLoadable env t
      → Succeeds t (buffer_event env e) (λ _ u. AllLoadable env u)
  unfolding buffer_event
  buffer_event-Succeeds e s t h =
      or_reject_passes _ _ _ s.writable.text s.writable.marshals
        (deref_passes env _ _ _ s.numbered (Succeeds-within _ _ (insert_pending-Succeeds e s t h)))

  carry_out-Succeeds :
      (o : Outcome) (e : EventEnvelope) (s : Storable env e) (state : OrderState) (t : Tables P)
      → state ≡ state_of (find_order s.writable.id t.orders)
      → AllLoadable env t
      → Succeeds t (carry_out env o state e (pos (suc s.seq))) (λ _ u. AllLoadable env u)
  unfolding carry_out
  carry_out-Succeeds apply e s state t is h =
      Succeeds-bind _ _ _
        (write_event-Succeeds env state.exists e t s
          (λ no. state_of-absent env _ (ap (λ x. x.exists) (sym is) ∙ no)))
        λ _ u same.
          gets_passes (λ x. length x.pending) _
            (Succeeds-bind _ _ _
              (drain_pending-Succeeds env (suc (length u.pending)) e.order_id e.plan_id
                (pos (suc (suc s.seq))) 0 s.writable.id u (omega arith) s.next_fits s.writable.order
                (subst (All (Loadable env)) (sym same) h))
              λ _ v k. Succeeds-pure _ k)
  carry_out-Succeeds buffer e s state t is h =
      Succeeds-bind _ _ _ (buffer_event-Succeeds e s t h) λ _ v k. Succeeds-pure _ k
  carry_out-Succeeds duplicate e s state t is h = Succeeds-pure _ h
  carry_out-Succeeds discard e s state t is h = Succeeds-pure _ h
  carry_out-Succeeds tombstone e s state t is h = Succeeds-pure _ h
  carry_out-Succeeds plan_mismatch e s state t is h = Succeeds-pure _ h

  pub apply_event-Succeeds :
      (e : EventEnvelope) (t : Tables P)
      → Storable env e
      → AllLoadable env t
      → Succeeds t (apply_event env e) (λ _ u. AllLoadable env u)
  unfolding apply_event apply_body
  apply_event-Succeeds e t s h = Succeeds-begin_func (
      Succeeds-read _ _ _ (lock_order-Succeeds env e.order_id s.writable.id t s.writable.order)
        λ state is. deref_passes env _ _ _ s.numbered (carry_out-Succeeds _ e s state t is h))
