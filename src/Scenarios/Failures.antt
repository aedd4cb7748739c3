-- ===== src/Scenarios/Failures.antt =====
-- Orders: requests that fail while a transaction commits, and the rounds of a drain.
use distribuid_system_simula.Prelude.{length, [], ◌∷◌, ◌≡◌, ◌⊎◌, refl, arith, ◌<◌}
use distribuid_system_simula.Prelude.Int.{pos}
use distribuid_system_simula.Exec.{◌>>=◌}
use distribuid_system_simula.Db.Repository.{
  begin_func, finish, lock_order, total_amount, user_id, deref, insert_outbox, write_order,
  write_event, drain_round, drain_pending, buffer_event, carry_out, apply_body, apply_event,
  discard_pending, carry_out_abort, abort_body, abort_plan,
}
use distribuid_system_simula.Db.Statements.{
  request, select_order, cast_uuid, or_reject, check, write, encode_int4, fits, status_allowed,
  allowed, to_jsonb, to_decimal, unique, insert_order, update_row, update_order, update_status,
  take_pending, delete_plan, insert_unless, insert_pending, next_position, insert_outbox_row,
}
use distribuid_system_simula.Db.Rows.{
  find_order, set_order, find_pending, delete_pending, add_order, change_order, add_pending,
  remove_pending, add_outbox,
}
use distribuid_system_simula.Sequencing.{decide, decide_abort}
use distribuid_system_simula.Models.{status_from_event_type, lookup}
use distribuid_system_simula.Exec.{plain, err}
use distribuid_system_simula.Models.{EventEnvelope}
use distribuid_system_simula.Db.Tables.{Session, fine, unacked}
use distribuid_system_simula.Db.Finality.{IsError, abort_plan_retry}
use distribuid_system_simula.Db.Atomicity.{apply_event_retry}
use distribuid_system_simula.Db.Fuel.{drain_pending-fuel}
use distribuid_system_simula.Scenarios.Setting.{
  platform, trips, created, validated, abort, created-IsSequenced, empty, empty-Inv,
}

-- The answer to the COMMIT, the seventh request of the transaction, is lost.
abbrev doubtful : Session EventEnvelope
doubtful = record empty {
  faults = fine ∷ fine ∷ fine ∷ fine ∷ fine ∷ fine ∷ unacked (plain "reset") ∷ [];
}

-- The abort of an unknown order leaves a tombstone; the answer to its COMMIT, the sixth request, is lost.
abbrev abort_doubtful : Session EventEnvelope
abort_doubtful = record empty {
  faults = fine ∷ fine ∷ fine ∷ fine ∷ fine ∷ unacked (plain "reset") ∷ [];
}

-- The second event comes first.
abbrev buffered : Session EventEnvelope
buffered = (apply_event platform validated empty).1

-- What the runs end with.
runs :
    (apply_event platform created doubtful
      ≡ (err (plain "reset"), (apply_event platform created doubtful).1))
    × (length buffered.pending < 2)
    × (length buffered.pending < 5)
unfolding ◌>>=◌ begin_func finish request lock_order select_order cast_uuid or_reject check write
    encode_int4 fits status_allowed allowed to_jsonb to_decimal unique insert_order update_row
    update_order update_status take_pending delete_plan insert_unless insert_pending next_position
    insert_outbox_row find_order set_order find_pending delete_pending add_order change_order
    add_pending remove_pending add_outbox total_amount user_id deref insert_outbox write_order
    write_event drain_round drain_pending buffer_event carry_out apply_body apply_event
    discard_pending carry_out_abort abort_body abort_plan decide decide_abort status_from_event_type
    lookup
runs = (refl, omega arith, omega arith)

apply_event_retry_example :
    ((apply_event platform created doubtful).1.tables ≡ doubtful.tables)
    ⊎ ((apply_event platform created (apply_event platform created doubtful).1).1.tables
        ≡ (apply_event platform created doubtful).1.tables)
apply_event_retry_example =
    apply_event_retry platform trips created doubtful _ _ (plain "reset") created-IsSequenced
      empty-Inv runs.0 refl

abort_plan_retry_example :
    (IsError (abort_plan platform abort abort_doubtful).0
      × ((abort_plan platform abort abort_doubtful).1.tables ≡ abort_doubtful.tables))
    ⊎ ((abort_plan platform abort (abort_plan platform abort abort_doubtful).1).1.tables
        ≡ (abort_plan platform abort abort_doubtful).1.tables)
abort_plan_retry_example =
    abort_plan_retry platform trips abort abort_doubtful
      (abort_plan platform abort abort_doubtful).1 _ _ refl empty-Inv refl refl

drain_pending-fuel_example :
    drain_pending platform 2 "000" "plan" (pos 2) 0 buffered
    ≡ drain_pending platform 5 "000" "plan" (pos 2) 0 buffered
drain_pending-fuel_example =
    drain_pending-fuel platform 2 5 "000" "plan" (pos 2) 0 buffered runs.1 runs.2
