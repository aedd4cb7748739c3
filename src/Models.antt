-- ===== src/Models.antt =====
-- server/pkg/models/event.go: the event envelope, its validation and the order statuses.
pub mod Validity
use distribuid_system_simula.Prelude.{
  ℕ, String, Bool, true, false, Option, none, some, List, [], ◌∷◌, ◌==◌, not, if◌then◌else◌,
}
use distribuid_system_simula.Prelude.Int.{ℤ, pos, ltb_ℤ}
use distribuid_system_simula.Exec.{Error, plain, Result, ok, err}

-- What `encoding/json` decodes into an `any`. A float64 is the number that its 64 bits spell: the
-- code never computes with one.
pub data Any : Type 0 where
  null : Any
  bool : Bool → Any
  float64 : ℕ → Any
  string : String → Any
  -- an array or an object, which the code never looks into, by its JSON text
  composite : String → Any

pub record EventEnvelope : Type 0 where
  pub event_id : String
  pub event_type : String
  pub plan_id : String
  pub seq_id : Option ℤ
  pub order_id : String
  pub timestamp : String
  pub schema_version : String
  -- the field `Data map[string]any`, by its pairs; a look-up takes the first one of a name
  pub event_data : List (String × Any)

-- `m[key]` with its `ok`
unfoldable pub lookup : String → List (String × Any) → Option Any
lookup key [] = none
lookup key ((k, v) ∷ rest) = if k == key then some v else lookup key rest

-- `EventTypeAbortPlan`
abbrev pub event_type_abort_plan : String
event_type_abort_plan = "ABORT_PLAN"

-- `StatusCompleted`
abbrev pub status_completed : String
status_completed = "completed"

-- `StatusAborted`
abbrev pub status_aborted : String
status_aborted = "aborted"

-- The `switch` of `StatusFromEventType`; no status is the empty text.
unfoldable pub status_from_event_type : String → String
status_from_event_type t =
    if t == "OrderCreated"
    then "pending"
    else if t == "InventoryValidated"
    then "inventory_validated"
    else if t == "PaymentProcessed"
    then "payment_processed"
    else if t == "OrderShipped"
    then "shipped"
    else if t == "OrderCompleted"
    then status_completed
    else if t == event_type_abort_plan
    then status_aborted
    else ""

-- The checks on `SeqID`, which come last.
validate_seq : Option ℤ → Result Unit
validate_seq none = err (plain "seq_id is required for non-ABORT events")
validate_seq (some seq) = if ltb_ℤ seq (pos 1) then err (plain "seq_id must be >= 1") else ok tt

-- `Validate`; `is_uuid` is whether `uuid.Parse` of github.com/google/uuid accepts a text. The
-- messages leave out the value that the code prints behind them.
unfoldable pub validate : (String → Bool) → EventEnvelope → Result Unit
unfolding validate_seq status_from_event_type
validate is_uuid e =
    if e.plan_id == ""
    then err (plain "plan_id is required")
    else if not (is_uuid e.order_id)
    then err (plain "order_id must be a UUID")
    else if e.event_type == event_type_abort_plan
    then ok tt
    else if status_from_event_type e.event_type == ""
    then err (plain "unknown event type")
    else validate_seq e.seq_id
