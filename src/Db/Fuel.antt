-- ===== src/Db/Fuel.antt =====
-- server/internal/db/postgres.go, drainPending: the fuel of its loop.
use distribuid_system_simula.Prelude.{
  ◌∙◌, true, sym, ℕ, zero, suc, String, Option, none, some, ◌≡◌, refl, ◌<◌, length, arith,
}
use distribuid_system_simula.Prelude.Int.{ℤ, suc_ℤ}
use distribuid_system_simula.Exec.{Result, ok, err, ◌>>=◌}
use distribuid_system_simula.Exec.Yields.{Post}
use distribuid_system_simula.Models.{EventEnvelope}
use distribuid_system_simula.Db.Platform.{Platform}
use distribuid_system_simula.Db.Rows.{is_row, find_order, change_order, add_outbox, remove_pending}
use distribuid_system_simula.Db.Rows.Laws.{length-delete-lt}
use distribuid_system_simula.Db.Effects.{to_decimal-reads, next_position-reads}
use distribuid_system_simula.Db.Invariant.Drain.{take_pending-takes}
use distribuid_system_simula.Db.Ensures.{
  Ensures-pure, Ensures-raise, Ensures-bind, Ensures-write, Ensures-read, request_then,
  or_reject_then, check_then, gets_then, now_then,
}
use distribuid_system_simula.Db.Statements.{to_jsonb}
use distribuid_system_simula.Db.Repository.{deref}
use distribuid_system_simula.Db.Tables.{Order, Tables, Session}
use distribuid_system_simula.Db.Statements.{
  to_jsonb, update_order, fits, insert_outbox_row, allowed, update_row, cast_uuid, encode_int4,
  take_pending, Tx,
}
use distribuid_system_simula.Db.Ensures.{
  Ensures-pure, Ensures-within, Ensures-or_reject, Ensures-mono, Ensures,
}
use distribuid_system_simula.Db.Repository.{
  write_order, write_event, insert_outbox, drain_pending, drain_round,
}

module _ {P A B : Type 0} where
  continue-cong :
      (r : Result A) (u : Session P) (f g : A → Tx P B) (Q : A → Tables P → Type 0)
      → Post r u (λ a v. Q a v.tables)
      → ((a : A) (v : Session P) → Q a v.tables → f a v ≡ g a v)
      → ((λ t. (r, t)) >>= f) u ≡ ((λ t. (r, t)) >>= g) u
  unfolding ◌>>=◌
  continue-cong (ok a) u f g Q q h = h a u q
  continue-cong (err e) u f g Q q h = refl

  -- Two continuations that agree on what the first step establishes.
  pub bind-cong :
      (m : Tx P A) (f g : A → Tx P B) (Q : A → Tables P → Type 0) (s : Session P)
      → Ensures s.tables m Q
      → ((a : A) (v : Session P) → Q a v.tables → f a v ≡ g a v)
      → (m >>= f) s ≡ (m >>= g) s
  unfolding ◌>>=◌
  bind-cong m f g Q s k h = continue-cong (m s).0 (m s).1 f g Q (k.run s refl).post h

module _ {P : Type 0} (env : Platform P) where
  update_row-pending :
      (id : ℕ) (status : String) (total : Option ℕ) (seq : ℤ) (o : Option Order) (t : Tables P)
      → Ensures t (update_row env id status total seq o) (λ _ u. u.pending ≡ t.pending)
  unfolding update_row allowed change_order
  update_row-pending id status total seq none t = Ensures-pure _ refl
  update_row-pending id status total seq (some o) t = check_then _ _ _ λ _.
      Ensures-read _ _ (λ _. Unit) (to_decimal-reads env total t)
        λ amount _. now_then _ λ now. Ensures-write _ refl

  insert_outbox-pending :
      (event : EventEnvelope) (t : Tables P)
      → Ensures t (insert_outbox env event) (λ _ u. u.pending ≡ t.pending)
  unfolding insert_outbox insert_outbox_row cast_uuid fits to_jsonb add_outbox
  insert_outbox-pending event t = or_reject_then _ _ _ λ p _. Ensures-within _ _ (
      request_then _ (
        or_reject_then _ _ _ λ id _. check_then _ _ _ λ _. or_reject_then _ _ _ λ q _.
          Ensures-read _ _ (λ _. Unit) (next_position-reads env t)
            λ position _. now_then _ λ now. Ensures-write _ refl))

  deref-reads :
      (seq : Option ℤ) (t : Tables P) → Ensures t (deref env seq) (λ _ u. (u ≡ t) × Unit {0})
  unfolding deref
  deref-reads none t = Ensures-raise _
  deref-reads (some n) t = Ensures-pure _ (refl, tt)

  -- `applyEvent` leaves the buffer alone.
  write_event-pending :
      (event : EventEnvelope) (t : Tables P)
      → Ensures t (write_event env true event) (λ _ u. u.pending ≡ t.pending)
  unfolding write_event write_order update_order cast_uuid encode_int4
  write_event-pending event t =
      Ensures-read _ _ (λ _. Unit) (deref-reads event.seq_id t)
        λ seq _.
          Ensures-bind _ _ (λ _ u. u.pending ≡ t.pending)
            (Ensures-within _ _ (
              check_then _ _ _ λ _. request_then _ (
                or_reject_then _ _ _ λ id _.
                  gets_then (λ x. find_order id x.orders) _ (update_row-pending id _ _ seq _ t))))
            λ _ u kept. Ensures-mono _ _ _ (insert_outbox-pending event u) (λ _ v h. h ∙ kept)

  -- The row that a round takes leaves the buffer.
  take_pending-shrinks :
      (order_id plan_id : String) (next : ℤ) (t : Tables P)
      → Ensures t
          (take_pending env order_id plan_id next)
          (λ found u. (p : P) → found ≡ some p → length u.pending < length t.pending)
  unfolding remove_pending
  take_pending-shrinks order_id plan_id next t =
      Ensures-mono _ _ _ (take_pending-takes env order_id plan_id next t)
        (λ found u (id, _, is, same) p e.
          rw same (length-delete-lt (is_row id plan_id next) t.pending {p = p} (sym is ∙ e)))

  drain_round-cong :
      (n : ℕ) (found : Option P) (drained : ℕ) (m m' : Tx P ℕ) (s : Session P)
      → ((p : P) → found ≡ some p → length s.pending < n)
      → ((u : Session P) → length u.pending < n → m u ≡ m' u)
      → drain_round env found drained m s ≡ drain_round env found drained m' s
  unfolding drain_round
  drain_round-cong n none drained m m' s few same = refl
  drain_round-cong n (some p) drained m m' s few same =
      bind-cong _ _ _ (λ _ u. u ≡ s.tables) s (Ensures-or_reject _ _ (λ _ _. refl))
        λ event u is.
          bind-cong _ _ _ (λ _ v. v.pending ≡ s.pending) u
            (rw is (write_event-pending event s.tables)) λ _ v kept. same v (rw kept (few p refl))

  -- Any two amounts of fuel above the number of buffered rows give the same run of the loop of
  -- `drainPending`.
  pub drain_pending-fuel :
      (f g : ℕ) (order_id plan_id : String) (next : ℤ) (drained : ℕ) (s : Session P)
      → length s.pending < f
      → length s.pending < g
      → drain_pending env f order_id plan_id next drained s
        ≡ drain_pending env g order_id plan_id next drained s
  unfolding drain_pending
  drain_pending-fuel zero g order_id plan_id next drained s hf hg = absurd (omega arith)
  drain_pending-fuel (suc f) zero order_id plan_id next drained s hf hg = absurd (omega arith)
  drain_pending-fuel (suc f) (suc g) order_id plan_id next drained s hf hg =
      bind-cong _ _ _ (λ found u. (p : P) → found ≡ some p → length u.pending < length s.pending) s
        (Ensures-within _ _ (take_pending-shrinks order_id plan_id next s.tables))
        λ found u few. drain_round-cong (length s.pending) found drained _ _ u few λ v less.
          drain_pending-fuel f g order_id plan_id (suc_ℤ next) (suc drained) v (omega arith)
            (omega arith)
