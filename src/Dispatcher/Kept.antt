-- ===== src/Dispatcher/Kept.antt =====
-- server/internal/dispatcher/dispatcher.go over server/internal/db/outbox.go: the dispatcher and the
-- invariant of the tables.
use distribuid_system_simula.Prelude.{
  ℕ, String, Bool, true, false, List, [], ◌∷◌, inl, inr, Bool-cases,
}
use distribuid_system_simula.Exec.{Result, ok, err, Exec}
use distribuid_system_simula.Db.Platform.{Platform}
use distribuid_system_simula.Db.Tables.{Session}
use distribuid_system_simula.Db.Invariant.{Inv}
use distribuid_system_simula.Db.Outbox.{OutboxEntry}
use distribuid_system_simula.Db.Outbox.Kept.{
  claim_outbox-Inv, mark_outbox_delivered-Inv, mark_outbox_failed-Inv, release_outbox-Inv,
}
use distribuid_system_simula.Dispatcher.{
  Admission, Response, Attempt, returned, not_attempted, failed, deliver, conclude, release,
  retry_later, recorded, finish_delivered, unsuccessful, count_delivery, is_success,
  repository_store, Delivering, deliver_all, deliver_claimed, dispatch_batch,
}
use distribuid_system_simula.Dispatcher.Defaults.{Config}

module _ {P : Type 0} (env : Platform P) (locked : ℕ → Bool) (c : Config) where
  abbrev Kept : Delivering (Session P) → Type 0
  Kept s = Inv env s.store.tables

  unsuccessful-Kept :
      (m : Exec (Session P) Unit) (label : String) (s : Delivering (Session P))
      → Inv env (m s.store).1.tables
      → Kept (unsuccessful m label s).1
  unfolding unsuccessful recorded count_delivery
  unsuccessful-Kept m label s v = v

  finish_delivered-Kept :
      (b : Bool) (s : Delivering (Session P)) → Kept s → Kept (finish_delivered (b, s)).1
  unfolding finish_delivered count_delivery
  finish_delivered-Kept true s v = v
  finish_delivered-Kept false s v = v

  conclude-Kept :
      (a : Attempt) (cancelled : Bool) (entry : OutboxEntry P) (s : Delivering (Session P))
      → Kept s
      → Kept (conclude (repository_store env locked) c a cancelled entry s).1
  unfolding conclude release retry_later recorded repository_store
  conclude-Kept (returned status) cancelled entry s v = elim (Bool-cases (is_success status)) [
    | inl hit ↦
        rw hit (finish_delivered-Kept _ _ (mark_outbox_delivered-Inv env entry.id s.store v))
    | inr miss ↦
        rw miss (unsuccessful-Kept _ _ s (mark_outbox_failed-Inv env entry.id _ _ true s.store v))
  ]
  conclude-Kept not_attempted cancelled entry s v =
      unsuccessful-Kept _ _ s (release_outbox-Inv env entry.id s.store v)
  conclude-Kept (failed e) true entry s v =
      unsuccessful-Kept _ _ s (release_outbox-Inv env entry.id s.store v)
  conclude-Kept (failed e) false entry s v =
      unsuccessful-Kept _ _ s (mark_outbox_failed-Inv env entry.id _ e _ s.store v)

  deliver_all-Kept :
      (answers : OutboxEntry P → Admission × Response × Bool) (entries : List (OutboxEntry P))
      (s : Delivering (Session P))
      → Kept s
      → Kept (deliver_all (repository_store env locked) c answers entries s).1
  unfolding deliver_all deliver
  deliver_all-Kept answers [] s v = v
  deliver_all-Kept answers (entry ∷ rest) s v =
      deliver_all-Kept answers rest _ (conclude-Kept _ _ entry s v)

  deliver_claimed-Kept :
      (answers : OutboxEntry P → Admission × Response × Bool)
      (finishing : List (OutboxEntry P) → List (OutboxEntry P)) (r : Result (List (OutboxEntry P)))
      (s : Delivering (Session P))
      → Kept s
      → Kept (deliver_claimed (repository_store env locked) c answers finishing r s).1
  unfolding deliver_claimed
  deliver_claimed-Kept answers finishing (ok entries) s v =
      deliver_all-Kept answers (finishing entries) s v
  deliver_claimed-Kept answers finishing (err e) s v = v

  -- Over the repository, a batch of the dispatcher keeps the invariant of the tables that the consumer
  -- writes, whatever the receiver answers, whatever requests to Postgres fail, and in whatever order
  -- the deliveries finish.
  pub dispatch_batch-Inv :
      (is_open : Bool) (answers : OutboxEntry P → Admission × Response × Bool)
      (finishing : List (OutboxEntry P) → List (OutboxEntry P)) (s : Delivering (Session P))
      → Inv env s.store.tables
      → Inv env
          (dispatch_batch
            (repository_store env locked)
            c
            is_open
            answers
            finishing
            s).1.store.tables
  unfolding dispatch_batch repository_store
  dispatch_batch-Inv true answers finishing s v = v
  dispatch_batch-Inv false answers finishing s v =
      deliver_claimed-Kept answers finishing _ _
        (claim_outbox-Inv env locked c.batch_size c.lease s.store v)
