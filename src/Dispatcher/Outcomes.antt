-- ===== src/Dispatcher/Outcomes.antt =====
-- server/internal/dispatcher/dispatcher.go, deliver: what one delivery does to the outbox.
use distribuid_system_simula.Prelude.{
  ℕ, ◌+◌, String, Bool, true, false, some, none, [], ◌≡◌, refl, ap, ◌∙◌, not, ◌&&◌, ◌||◌, arith,
  if◌then◌else◌, Bool-cases, inl, inr,
}
use distribuid_system_simula.Prelude.Int.{ℤ, pos, leb_ℤ, add_duration}
use distribuid_system_simula.Exec.{ok, Exec, within, ◌>>=◌}
use distribuid_system_simula.Db.Platform.{Platform}
use distribuid_system_simula.Db.Tables.{OutboxRow, Session}
use distribuid_system_simula.Db.Statements.{write, cast_uuid, or_reject}
use distribuid_system_simula.Db.Repository.{finish}
use distribuid_system_simula.Db.Outbox.{
  OutboxEntry, update_by_id, autocommit, mark_outbox_delivered, mark_outbox_failed, release_outbox,
}
use distribuid_system_simula.Db.Outbox.Rows.{is_waiting, is_id, update_rows, update_outbox}
use distribuid_system_simula.Dispatcher.{
  Admission, Response, Attempt, returned, not_attempted, failed, execute, deliver, conclude,
  release, retry_later, recorded, finish_delivered, unsuccessful, count_delivery, is_success,
  repository_store, Delivering,
}
use distribuid_system_simula.Dispatcher.Defaults.{Config}

-- Whether an attempt is the last one of its entry: the receiver answered, or the attempts are used up.
unfoldable pub is_final : ℤ → Attempt → Bool → ℕ → Bool
is_final max_attempts (returned status) cancelled attempts = true
is_final max_attempts not_attempted cancelled attempts = false
is_final max_attempts (failed e) cancelled attempts =
    not cancelled && leb_ℤ max_attempts (pos (attempts + 1))

-- How many attempts it counts for.
unfoldable pub counted : Attempt → Bool → ℕ
counted (returned status) cancelled = 1
counted not_attempted cancelled = 0
counted (failed e) cancelled = if cancelled then 0 else 1

unfoldable pub is_delivery : Attempt → Bool
is_delivery (returned status) = is_success status
is_delivery not_attempted = false
is_delivery (failed e) = false

or_false : (b : Bool) → b ≡ (b || false)
or_false true = refl
or_false false = refl

or_true : (b : Bool) → true ≡ (b || true)
or_true true = refl
or_true false = refl

module _ {P : Type 0} where
  -- The rows of the id have changed, and no others; those that waited wait on unless
  -- `final`, and those that were not processed are so now if the entry was delivered.
  pub record Concluded (id n : ℕ) (final delivery : Bool) (s t : Session P) : Type 0 where
    pub change : OutboxRow P → OutboxRow P
    pub changed : t.outbox ≡ update_rows (is_id id) change s.outbox
    pub waits :
        (r : OutboxRow P) → (is_waiting r && is_waiting (change r)) ≡ (is_waiting r && not final)
    pub attempts : (r : OutboxRow P) → (change r).attempts ≡ r.attempts + n
    pub processed : (r : OutboxRow P) → (change r).processed ≡ (r.processed || delivery)
    pub ids : (r : OutboxRow P) → (change r).id ≡ r.id
    pub calm : t.faults ≡ []

module _ {P : Type 0} (env : Platform P) (locked : ℕ → Bool) (c : Config) where
  -- A single UPDATE by id with no fault.
  update_fine :
      (prefix text : String) (change : ℕ → OutboxRow P → OutboxRow P) (id : ℕ) (s : Session P)
      → env.uuid text ≡ some id
      → s.faults ≡ []
      → ((within prefix (autocommit (update_by_id env text change)) s).0 ≡ ok tt)
        × ((within prefix (autocommit (update_by_id env text change)) s).1.outbox
            ≡ update_rows (is_id id) (change s.now) s.outbox)
        × ((within prefix (autocommit (update_by_id env text change)) s).1.faults ≡ [])
  unfolding autocommit update_by_id cast_uuid or_reject write update_outbox finish ◌>>=◌
  update_fine prefix text change id s cast fine = rw (cast, fine) (refl, refl, refl)

  mark_outbox_failed-Concluded :
      (text e : String) (retry_in : ℤ) (dead : Bool) (id : ℕ) (s : Session P)
      → env.uuid text ≡ some id
      → s.faults ≡ []
      → Concluded id 1 dead false s (mark_outbox_failed env text retry_in e dead s).1
  unfolding mark_outbox_failed is_waiting
  mark_outbox_failed-Concluded text e retry_in dead id s cast fine = record {
    change = _;
    changed = (update_fine _ text _ id s cast fine).1;
    waits = failed_waits dead;
    attempts = λ r. refl;
    processed = λ r. or_false r.processed;
    ids = λ r. refl;
    calm = (update_fine _ text _ id s cast fine).2;
  }
    where
      failed_waits :
          (dead : Bool) (r : OutboxRow P)
          → (is_waiting r
              && is_waiting (record r {
                attempts = r.attempts + 1;
                lease_until = none;
                last_error = some e;
                next_attempt_at = add_duration s.now retry_in;
                dead_at = if dead then some s.now else none;
              }))
            ≡ (is_waiting r && not dead)
      failed_waits true r = ground arith
      failed_waits false r = ground arith

  release_outbox-Concluded :
      (text : String) (id : ℕ) (s : Session P)
      → env.uuid text ≡ some id
      → s.faults ≡ []
      → Concluded id 0 false false s (release_outbox env text s).1
  unfolding release_outbox is_waiting
  release_outbox-Concluded text id s cast fine = record {
    change = λ r. record r { lease_until = none };
    changed = (update_fine _ text _ id s cast fine).1;
    waits = λ r. ground arith;
    attempts = λ r. omega arith;
    processed = λ r. or_false r.processed;
    ids = λ r. refl;
    calm = (update_fine _ text _ id s cast fine).2;
  }

  finish_recorded :
      (m : Exec (Session P) Unit) (s : Delivering (Session P))
      → (m s.store).0 ≡ ok tt
      → ((finish_delivered (recorded m s)).0 ≡ true)
        × ((finish_delivered (recorded m s)).1.store ≡ (m s.store).1)
  unfolding finish_delivered recorded count_delivery
  finish_recorded m s h = rw h (refl, refl)

  deliver_delivered :
      (text : String) (id : ℕ) (s : Delivering (Session P))
      → env.uuid text ≡ some id
      → s.store.faults ≡ []
      → ((finish_delivered (recorded (mark_outbox_delivered env text) s)).0 ≡ true)
        × Concluded id 1 true true s.store
            (finish_delivered (recorded (mark_outbox_delivered env text) s)).1.store
  unfolding mark_outbox_delivered is_waiting
  deliver_delivered text id s cast fine =
      let (is_ok, same, calm) = update_fine "mark outbox delivered" text _ id s.store cast fine in
      let (told, kept) = finish_recorded (mark_outbox_delivered env text) s is_ok in
      (
        told,
        record {
          change = _;
          changed = ap (λ t. t.outbox) kept ∙ same;
          waits = λ r. ground arith;
          attempts = λ r. refl;
          processed = λ r. or_true r.processed;
          ids = λ r. refl;
          calm = ap (λ t. t.faults) kept ∙ calm;
        },
      )

  conclude_lem :
      (a : Attempt) (cancelled : Bool) (entry : OutboxEntry P) (id : ℕ) (s : Delivering (Session P))
      → env.uuid entry.id ≡ some id
      → s.store.faults ≡ []
      → ((conclude (repository_store env locked) c a cancelled entry s).0 ≡ is_delivery a)
        × Concluded id
            (counted a cancelled)
            (is_final c.max_attempts a cancelled entry.attempts)
            (is_delivery a)
            s.store
            (conclude (repository_store env locked) c a cancelled entry s).1.store
  unfolding conclude release retry_later unsuccessful recorded count_delivery repository_store
      is_final counted is_delivery
  conclude_lem (returned status) cancelled entry id s cast fine =
      elim (Bool-cases (is_success status)) [
        | inl hit ↦ rw hit (deliver_delivered entry.id id s cast fine)
        | inr miss ↦
            rw miss (refl, mark_outbox_failed-Concluded entry.id _ _ true id s.store cast fine)
      ]
  conclude_lem not_attempted cancelled entry id s cast fine =
      (refl, release_outbox-Concluded entry.id id s.store cast fine)
  conclude_lem (failed e) true entry id s cast fine =
      (refl, release_outbox-Concluded entry.id id s.store cast fine)
  conclude_lem (failed e) false entry id s cast fine =
      (refl, mark_outbox_failed-Concluded entry.id e _ _ id s.store cast fine)

  -- With no fault of the store, and an entry whose id is a UUID, `deliver` changes the rows of
  -- that id alone: a waiting one waits no more if the receiver has answered with a status that is
  -- not retryable or the attempts are used up, and waits on if not; an attempt is counted unless
  -- the call was not made or was interrupted. For a 2xx answer alone the rows are marked as
  -- processed, and it returns true.
  pub deliver_lem :
      (admission : Admission) (response : Response) (cancelled : Bool) (entry : OutboxEntry P)
      (id : ℕ) (s : Delivering (Session P))
      → env.uuid entry.id ≡ some id
      → s.store.faults ≡ []
      → ((deliver (repository_store env locked) c admission response cancelled entry s).0
          ≡ is_delivery (execute admission response))
        × Concluded id
            (counted (execute admission response) cancelled)
            (is_final c.max_attempts (execute admission response) cancelled entry.attempts)
            (is_delivery (execute admission response))
            s.store
            (deliver (repository_store env locked) c admission response cancelled entry s).1.store
  unfolding deliver
  deliver_lem admission response cancelled entry id s cast fine =
      conclude_lem (execute admission response) cancelled entry id s cast fine
