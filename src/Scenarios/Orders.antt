-- ===== src/Scenarios/Orders.antt =====
-- Orders: an event, its redelivery, events out of order, and an abort.
use distribuid_system_simula.Prelude.{
  true, false, ℕ, zero, suc, some, List, [], ◌∷◌, ◌≡◌, inl, inr, refl, All, arith, ◌<◌,
}
use distribuid_system_simula.Prelude.Int.{pos, leb_ℤ}
use distribuid_system_simula.Exec.{◌>>=◌}
use distribuid_system_simula.Db.Repository.{
  begin_func, finish, lock_order, total_amount, user_id, deref, insert_outbox, write_order,
  write_event, drain_round, drain_pending, buffer_event, carry_out, apply_body, apply_event,
  discard_pending, carry_out_abort, abort_body, abort_plan,
}
use distribuid_system_simula.Db.Statements.{
  request, select_order, cast_uuid, or_reject, check, write, encode_int4, fits, status_allowed,
  allowed, to_jsonb, to_decimal, unique, insert_order, update_row, update_order, update_status,
  take_pending, delete_plan, insert_unless, insert_pending, next_position, insert_outbox_row,
}
use distribuid_system_simula.Db.Rows.{
  find_order, set_order, find_pending, delete_pending, add_order, change_order, add_pending,
  remove_pending, add_outbox,
}
use distribuid_system_simula.Sequencing.{decide, decide_abort}
use distribuid_system_simula.Models.{status_from_event_type, lookup}
use distribuid_system_simula.Exec.{plain, ok}
use distribuid_system_simula.Models.{EventEnvelope}
use distribuid_system_simula.Sequencing.{apply, duplicate}
use distribuid_system_simula.Db.Tables.{Session, fine, lost}
use distribuid_system_simula.Db.Rows.{is_of_plan}
use distribuid_system_simula.Db.Repository.{Applied}
use distribuid_system_simula.Db.Effects.{order_state}
use distribuid_system_simula.Db.Invariant.{Inv, notified, one_to}
use distribuid_system_simula.Db.Invariant.Apply.{again, apply_event-Inv, last_seq-apply_event}
use distribuid_system_simula.Db.Invariant.Close.{IsAborted}
use distribuid_system_simula.Db.Invariant.Abort.{abort_plan-Inv, abort_plan-IsAborted}
use distribuid_system_simula.Db.Redelivery.{apply_event_again, outcome-apply_event-again}
use distribuid_system_simula.Db.Reordering.{HasSeq, apply_all, apply_all_in_order}
use distribuid_system_simula.Db.Finality.{aborted_is_final}
use distribuid_system_simula.Scenarios.Setting.{
  platform, trips, created, validated, abort, created-IsSequenced, validated-IsSequenced, empty,
  empty-Inv,
}

abbrev after_created : Session EventEnvelope
after_created = (apply_event platform created empty).1

abbrev first : Applied
first = record { outcome = apply; last_seq = pos 1; drained = 0 }

created_applied : apply_event platform created empty ≡ (ok first, after_created)
unfolding ◌>>=◌ begin_func finish request lock_order select_order cast_uuid or_reject check write
    encode_int4 fits status_allowed allowed to_jsonb to_decimal unique insert_order update_row
    update_order update_status take_pending delete_plan insert_unless insert_pending next_position
    insert_outbox_row find_order set_order find_pending delete_pending add_order change_order
    add_pending remove_pending add_outbox total_amount user_id deref insert_outbox write_order
    write_event drain_round drain_pending buffer_event carry_out apply_body apply_event
    discard_pending carry_out_abort abort_body abort_plan decide decide_abort status_from_event_type
    lookup
created_applied = refl

apply_event-Inv_example : Inv platform after_created.tables
apply_event-Inv_example = apply_event-Inv platform trips created empty created-IsSequenced empty-Inv

last_seq-apply_event_example :
    (id : ℕ) × (platform.uuid created.order_id ≡ some id)
    × ((order_state id after_created.tables).last_seq ≡ pos 1)
last_seq-apply_event_example =
    last_seq-apply_event platform trips created empty after_created first created-IsSequenced
      empty-Inv created_applied

-- A second delivery whose third request fails.
abbrev failing : Session EventEnvelope
failing = record after_created { faults = fine ∷ fine ∷ lost (plain "reset") ∷ [] }

apply_event_again_example : (apply_event platform created failing).1.tables ≡ after_created.tables
apply_event_again_example =
    apply_event_again platform trips created empty after_created failing first created-IsSequenced
      empty-Inv created_applied refl

abbrev second_time : Applied
second_time = record { outcome = duplicate; last_seq = pos 1; drained = 0 }

created_again :
    apply_event platform created after_created
    ≡ (ok second_time, (apply_event platform created after_created).1)
unfolding ◌>>=◌ begin_func finish request lock_order select_order cast_uuid or_reject check write
    encode_int4 fits status_allowed allowed to_jsonb to_decimal unique insert_order update_row
    update_order update_status take_pending delete_plan insert_unless insert_pending next_position
    insert_outbox_row find_order set_order find_pending delete_pending add_order change_order
    add_pending remove_pending add_outbox total_amount user_id deref insert_outbox write_order
    write_event drain_round drain_pending buffer_event carry_out apply_body apply_event
    discard_pending carry_out_abort abort_body abort_plan decide decide_abort status_from_event_type
    lookup
created_again = refl

outcome-apply_event-again_example : duplicate ≡ again apply
outcome-apply_event-again_example =
    outcome-apply_event-again platform trips created empty after_created after_created _ first
      second_time created-IsSequenced empty-Inv created_applied refl created_again

-- The second event arrives first.
abbrev pub shuffled : List EventEnvelope
shuffled = validated ∷ created ∷ created ∷ []

abbrev pub after_shuffled : Session EventEnvelope
after_shuffled = (apply_all platform shuffled empty).1

pub shuffled_applied : apply_all platform shuffled empty ≡ (ok tt, after_shuffled)
unfolding apply_all ◌>>=◌ begin_func finish request lock_order select_order cast_uuid or_reject
    check write encode_int4 fits status_allowed allowed to_jsonb to_decimal unique insert_order
    update_row update_order update_status take_pending delete_plan insert_unless insert_pending
    next_position insert_outbox_row find_order set_order find_pending delete_pending add_order
    change_order add_pending remove_pending add_outbox total_amount user_id deref insert_outbox
    write_order write_event drain_round drain_pending buffer_event carry_out apply_body apply_event
    discard_pending carry_out_abort abort_body abort_plan decide decide_abort status_from_event_type
    lookup
shuffled_applied = refl

each_there : (k : ℕ) → k < 2 → HasSeq (pos (suc k)) shuffled
each_there zero h = inr (inl refl)
each_there (suc zero) h = inl refl
each_there (suc (suc k)) h = absurd (omega arith)

apply_all_in_order_example :
    (leb_ℤ (pos 2) (order_state 3 after_shuffled.tables).last_seq ≡ true)
    × (notified platform 3 after_shuffled.outbox
        ≡ one_to (order_state 3 after_shuffled.tables).last_seq)
unfolding find_order
apply_all_in_order_example =
    apply_all_in_order platform trips 3 "plan" 2 shuffled empty after_shuffled
      (
        record { sequenced = validated-IsSequenced; order = refl; owner = refl },
        (
          record { sequenced = created-IsSequenced; order = refl; owner = refl },
          (record { sequenced = created-IsSequenced; order = refl; owner = refl }, tt),
        ),
      )
      empty-Inv (inl refl) each_there shuffled_applied

abbrev after_abort : Session EventEnvelope
after_abort = (abort_plan platform abort after_created).1

abort_applied :
    abort_plan platform abort after_created
    ≡ (ok (record { outcome = apply; last_seq = pos 1; drained = 0 }), after_abort)
unfolding ◌>>=◌ begin_func finish request lock_order select_order cast_uuid or_reject check write
    encode_int4 fits status_allowed allowed to_jsonb to_decimal unique insert_order update_row
    update_order update_status take_pending delete_plan insert_unless insert_pending next_position
    insert_outbox_row find_order set_order find_pending delete_pending add_order change_order
    add_pending remove_pending add_outbox total_amount user_id deref insert_outbox write_order
    write_event drain_round drain_pending buffer_event carry_out apply_body apply_event
    discard_pending carry_out_abort abort_body abort_plan decide decide_abort status_from_event_type
    lookup
abort_applied = refl

abort_plan-Inv_example : Inv platform after_abort.tables
abort_plan-Inv_example =
    abort_plan-Inv platform trips abort after_created refl
      (apply_event-Inv platform trips created empty created-IsSequenced empty-Inv)

abort_plan-IsAborted_example :
    (id : ℕ) × (platform.uuid abort.order_id ≡ some id)
    × IsAborted platform id "plan" after_abort.tables
    × All (λ r. is_of_plan id "plan" r ≡ false) after_abort.tables.pending
abort_plan-IsAborted_example =
    abort_plan-IsAborted platform trips abort after_created after_abort first refl
      (apply_event-Inv platform trips created empty created-IsSequenced empty-Inv) abort_applied
      refl

-- The second event of the order comes after the abort.
aborted_is_final_example :
    ((apply_event platform validated after_abort).1.tables ≡ after_abort.tables)
    × ((abort_plan platform validated after_abort).1.tables ≡ after_abort.tables)
aborted_is_final_example =
    aborted_is_final platform trips abort validated after_created after_abort after_abort first
      (pos 2) refl (apply_event-Inv platform trips created empty created-IsSequenced empty-Inv)
      abort_applied refl refl refl refl
