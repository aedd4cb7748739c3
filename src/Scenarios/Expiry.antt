-- ===== src/Scenarios/Expiry.antt =====
-- server/internal/db/postgres.go and server/internal/consumer/consumer.go: a buffered event whose
-- predecessor does not come.
use mathlib.Core.List.{Memᴰ}
use mathlib.Core.Path.{subst}
use distribuid_system_simula.Prelude.{
  length, Bool, false, not, ◌&&◌, List, [], ◌∷◌, ◌≡◌, refl, ap, All, arith,
}
use distribuid_system_simula.Prelude.Int.{pos}
use distribuid_system_simula.Prelude.Select.{keep, take, sort_by, insert_by}
use distribuid_system_simula.Exec.{Exec, ok, ◌>>=◌}
use distribuid_system_simula.Models.{EventEnvelope}
use distribuid_system_simula.Sequencing.{decide}
use distribuid_system_simula.Db.Tables.{PendingEvent, Session}
use distribuid_system_simula.Db.Rows.{
  add_pending, find_order, find_pending, delete_pending, remove_pending,
}
use distribuid_system_simula.Db.Statements.{
  select_order, insert_pending, fits, to_jsonb, insert_unless, request, cast_uuid, or_reject, check,
  write, encode_int4,
}
use distribuid_system_simula.Db.Repository.{
  begin_func, apply_body, lock_order, deref, carry_out, buffer_event, finish, apply_event,
}
use distribuid_system_simula.Db.Invariant.{Inv}
use distribuid_system_simula.Db.Invariant.Apply.{apply_event-Inv}
use distribuid_system_simula.Db.Expiry.{
  is_overdue, overdue, in_tx, in_sink, begin_sinking, row_of, select_overdue, delete_row,
  expire_rows, expire_body, expire_pending,
}
use distribuid_system_simula.Db.Expiry.Sinking.{Sink}
use distribuid_system_simula.Db.Expiry.Handed.{Accounted, expire_pending-Accounted}
use distribuid_system_simula.Db.Expiry.Complete.{expire_pending_complete}
use distribuid_system_simula.Consumer.{Letter, Consuming, event_store}
use distribuid_system_simula.Consumer.Sweeper.{sweep_pending}
use distribuid_system_simula.Consumer.Sweeper.Swept.{
  AppendsOnly, Swept, sweep_pending_accounts, sweep_pending-fuel,
}
use distribuid_system_simula.Scenarios.Setting.{
  platform, trips, validated, validated-IsSequenced, empty, empty-Inv, reads_zeros,
}
use distribuid_system_simula.Scenarios.Records.{broker}

-- the second event of the order is in the buffer
abbrev buffered : Session EventEnvelope
buffered = (apply_event platform validated empty).1

buffered-Inv : Inv platform buffered.tables
buffered-Inv = apply_event-Inv platform trips validated empty validated-IsSequenced empty-Inv

-- … and has been there for 200 ns
abbrev waiting : Session EventEnvelope
waiting = record buffered { now = 300 }

abbrev unlocked : PendingEvent EventEnvelope → Bool
unlocked r = false

-- A sink that takes every event.
abbrev accept_all : EventEnvelope → Exec (List EventEnvelope) Unit
accept_all e k = (ok tt, e ∷ k)

abbrev sink : Sink (List EventEnvelope)
sink = record {
  accept = accept_all;
  accepted = λ k e. Memᴰ e k;
  acknowledged = λ e k k' h. subst (Memᴰ e) (ap (λ p. p.1) h) (Memᴰ.head refl);
  kept = λ e f k m. Memᴰ.tail m;
}

abbrev expired : Session EventEnvelope × List EventEnvelope
expired = (expire_pending platform accept_all unlocked (pos 50) (pos 100) (waiting, [])).1

expired_one :
    expire_pending platform accept_all unlocked (pos 50) (pos 100) (waiting, []) ≡ (ok 1, expired)
unfolding begin_func apply_body lock_order select_order deref carry_out decide buffer_event
    insert_pending fits to_jsonb insert_unless add_pending ◌>>=◌ request cast_uuid or_reject check
    write encode_int4 finish find_order find_pending apply_event delete_pending remove_pending
    is_overdue overdue in_tx in_sink begin_sinking row_of select_overdue delete_row expire_rows
    expire_body expire_pending keep take sort_by insert_by
expired_one = refl

expire_pending-Accounted_example :
    Accounted platform sink 3 "plan" (pos 2) waiting.tables expired.0.tables expired.1
expire_pending-Accounted_example =
    expire_pending-Accounted platform sink 3 "plan" (pos 2) unlocked (pos 50) (pos 100)
      (waiting, []) reads_zeros buffered-Inv

expire_pending_complete_example :
    All (λ r. (is_overdue 300 (pos 50) r && not (unlocked r)) ≡ false) expired.0.pending
expire_pending_complete_example =
    expire_pending_complete platform accept_all unlocked (pos 50) (pos 100) (waiting, []) expired 1
      reads_zeros expired_one (omega arith)

abbrev consuming : Consuming (Session EventEnvelope) (List (Letter EventEnvelope))
consuming = record {
  store = waiting;
  letters = [];
  events_processed = [];
  events_drained = 0;
  dlq_messages = [];
  consumer_retries = 0;
}

broker-AppendsOnly : AppendsOnly broker
broker-AppendsOnly = record { kept = λ l m d h. Memᴰ.tail h }

sweep_pending_accounts_example :
    Swept platform unlocked broker broker-AppendsOnly
      (pos 50)
      3
      "plan"
      (pos 2)
      waiting.tables
      (sweep_pending (event_store platform unlocked) broker (pos 50) 2 consuming).1
sweep_pending_accounts_example =
    sweep_pending_accounts platform unlocked broker broker-AppendsOnly (pos 50) 3 "plan" (pos 2) 2
      consuming reads_zeros buffered-Inv

waiting_rows : length waiting.pending ≡ 1
unfolding begin_func apply_body lock_order select_order deref carry_out decide buffer_event
    insert_pending fits to_jsonb insert_unless add_pending ◌>>=◌ request cast_uuid or_reject check
    write encode_int4 finish find_order find_pending apply_event
waiting_rows = refl

sweep_pending-fuel_example :
    sweep_pending (event_store platform unlocked) broker (pos 50) 2 consuming
    ≡ sweep_pending (event_store platform unlocked) broker (pos 50) 7 consuming
sweep_pending-fuel_example =
    sweep_pending-fuel platform unlocked broker (pos 50) 2 7 consuming reads_zeros
      (omega (arith, waiting_rows)) (omega (arith, waiting_rows))
