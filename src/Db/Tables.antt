-- ===== src/Db/Tables.antt =====
-- The tables of init.sql, and the session that the statements run in.
use distribuid_system_simula.Prelude.{ℕ, String, Bool, Option, List}
use distribuid_system_simula.Prelude.Int.{ℤ}
use distribuid_system_simula.Exec.{Error}

-- `created_at` of both tables is left out: nothing reads it.
pub record Order : Type 0 where
  pub id : ℕ
  pub user_id : String
  pub status : String
  pub total_amount : Option ℤ
  pub plan_id : Option String
  pub last_seq_processed : Option ℤ
  pub updated_at : ℕ

pub record PendingEvent (P : Type 0) : Type 0 where
  pub order_id : ℕ
  pub plan_id : String
  pub seq_id : ℤ
  pub payload : P
  pub received_at : ℕ

pub record OutboxRow (P : Type 0) : Type 0 where
  pub id : ℕ
  pub position : ℕ
  pub aggregate_id : ℕ
  pub event_type : String
  pub payload : P
  pub topic : String
  pub processed : Bool
  pub attempts : ℕ
  pub next_attempt_at : ℕ
  pub lease_until : Option ℕ
  pub last_error : Option String
  pub dead_at : Option ℕ

pub record Tables (P : Type 0) : Type 0 where
  pub orders : List Order
  pub pending : List (PendingEvent P)
  pub outbox : List (OutboxRow P)

-- What becomes of one request to Postgres. A failed COMMIT leaves open whether the transaction
-- took effect: `lost` if it did not, `unacked` if only the answer was lost. At any other request
-- both are its failure.
pub data Fault : Type 0 where
  fine : Fault
  lost unacked : Error → Fault

-- `serial` is the sequence behind outbox.position, which no rollback sets back; `now` is NOW(), in
-- nanoseconds; `faults` are those of the requests to come, all fine at its end.
pub record Session (P : Type 0) : Type 0 where
  pub tables : Tables P
  pub open tables use *
  pub serial : ℕ
  pub now : ℕ
  pub faults : List Fault
