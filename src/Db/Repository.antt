-- ===== src/Db/Repository.antt =====
-- server/internal/db/postgres.go: the repository's methods on orders and on the reorder buffer.
use text.Mathlib.Text.{starts_with}
use distribuid_system_simula.Prelude.{
  ℕ, zero, suc, String, Bool, true, false, Option, none, some, List, ◌∷◌, ◌||◌, length,
}
use distribuid_system_simula.Prelude.Int.{ℤ, pos, suc_ℤ}
use distribuid_system_simula.Exec.{
  Error, pg, plain, wrap, panic, out_of_fuel, Result, ok, err, pure, raise, gets, within, ◌>>=◌,
  ◌>>◌,
}
use distribuid_system_simula.Models.{
  EventEnvelope, Any, float64, string, lookup, status_aborted, status_from_event_type,
}
use distribuid_system_simula.Sequencing.{
  Outcome, apply, buffer, tombstone, OrderState, no_order, decide, decide_abort,
}
use distribuid_system_simula.Db.Platform.{Platform}
use distribuid_system_simula.Db.Tables.{Order, Tables, Fault, lost, unacked, Session}
use distribuid_system_simula.Db.Statements.{
  Tx, later, request, or_reject, encode_int4, select_order, insert_order, update_order,
  update_status, take_pending, delete_plan, insert_pending, insert_outbox_row, notifications_topic,
}

-- `Result`
pub record Applied : Type 0 where
  pub outcome : Outcome
  pub last_seq : ℤ
  pub drained : ℕ

-- `IsPermanent`: `errors.As` looks through the wrapping.
unfoldable pub is_permanent : Error → Bool
is_permanent (pg code message) = starts_with code "22" || starts_with code "23"
is_permanent (plain text) = false
is_permanent (wrap prefix e) = is_permanent e
is_permanent panic = false
is_permanent out_of_fuel = false

-- `total_amount` of the data, if it is there as a float64
amount_of : Option Any → Option ℕ
amount_of (some (float64 bits)) = some bits
amount_of _ = none

unfoldable pub total_amount : EventEnvelope → Option ℕ
unfolding amount_of lookup
total_amount e = amount_of (lookup "total_amount" e.event_data)

user_of : Option Any → String
user_of (some (string u)) = u
user_of _ = "unknown"

-- `userID`
unfoldable pub user_id : EventEnvelope → String
unfolding user_of lookup
user_id e = user_of (lookup "user_id" e.event_data)

abbrev pub or_else {ℓ} : {A : Type ℓ} → A → Option A → A
or_else a none = a
or_else a (some b) = b

-- What `lockOrder` reads of the order's row.
abbrev pub state_of : Option Order → OrderState
state_of none = no_order
state_of (some o) = record {
  exists = true;
  plan_id = or_else "" o.plan_id;
  last_seq = or_else (pos 0) o.last_seq_processed;
  status = o.status;
}

-- `*event.SeqID + drained`
abbrev pub add_drained : ℤ → ℕ → ℤ
add_drained seq zero = seq
add_drained seq (suc n) = suc_ℤ (add_drained seq n)

module _ {P : Type 0} {A : Type 0} where
  -- COMMIT, or ROLLBACK to the tables `t`
  unfoldable pub finish : List Fault → Tables P → Result A → Session P → Result A × Session P
  finish faults t (err e) s = (err e, record s { tables = t; faults = later faults })
  finish (lost e ∷ rest) t (ok a) s = (err e, record s { tables = t; faults = rest })
  finish (unacked e ∷ rest) t (ok a) s = (err e, record s { faults = rest })
  finish faults t (ok a) s = (ok a, record s { faults = later faults })

  -- `pgx.BeginFunc`
  unfoldable pub begin_func : Tx P A → Tx P A
  begin_func body = do request; λ s. let (r, s') = body s in finish s'.faults s.tables r s'

module _ {P : Type 0} (env : Platform P) where
  -- `*event.SeqID`
  unfoldable pub deref : Option ℤ → Tx P ℤ
  deref none = raise panic
  deref (some n) = pure n

  -- The advisory lock is one more request: transactions of an order run one after another here.
  unfoldable pub lock_order : String → Tx P OrderState
  lock_order order_id = do
    within "lock order" request
    row ← within "read order state" (select_order env order_id)
    pure (state_of row)

  unfoldable pub insert_outbox : EventEnvelope → Tx P Unit
  insert_outbox event = do
    payload ← or_reject (env.marshal event) (plain "marshal event for outbox")
    within "insert outbox"
        (insert_outbox_row env event.order_id event.event_type payload notifications_topic)

  unfoldable pub write_order : Bool → EventEnvelope → ℤ → Tx P Unit
  write_order true event seq = do
    encode_int4 env seq
    update_order env event.order_id (status_from_event_type event.event_type) (total_amount event)
        seq
  write_order false event seq = do
    encode_int4 env seq
    insert_order env event.order_id (user_id event) (status_from_event_type event.event_type)
        event.plan_id (total_amount event) seq

  -- `applyEvent`
  unfoldable pub write_event : Bool → EventEnvelope → Tx P Unit
  write_event exists event = do
    seq ← deref event.seq_id
    within "write order" (write_order exists event seq)
    insert_outbox event

  -- One round of the loop, after its DELETE; `rest` is the rounds to come.
  unfoldable pub drain_round : Option P → ℕ → Tx P ℕ → Tx P ℕ
  drain_round none drained rest = pure drained
  drain_round (some payload) drained rest = do
    event ← or_reject (env.unmarshal payload) (plain "decode pending event")
    write_event true event
    rest

  -- The loop of `drainPending` after `drained` rounds.
  unfoldable pub drain_pending : ℕ → String → String → ℤ → ℕ → Tx P ℕ
  drain_pending zero order_id plan_id next drained = raise out_of_fuel
  drain_pending (suc fuel) order_id plan_id next drained = do
    taken ← within "take pending event" (take_pending env order_id plan_id next)
    drain_round taken drained (drain_pending fuel order_id plan_id (suc_ℤ next) (suc drained))

  unfoldable pub buffer_event : EventEnvelope → Tx P Unit
  buffer_event event = do
    payload ← or_reject (env.marshal event) (plain "marshal pending event")
    seq ← deref event.seq_id
    within "buffer event" (insert_pending env event.order_id event.plan_id seq payload)

  -- The `switch` of `ApplyEvent`. The loop takes a row of the buffer in each round, so one round
  -- more than there are rows is enough.
  unfoldable pub carry_out : Outcome → OrderState → EventEnvelope → ℤ → Tx P Applied
  carry_out apply state event seq = do
    write_event state.exists event
    rows ← gets (λ s. length s.pending)
    drained ← drain_pending (suc rows) event.order_id event.plan_id (suc_ℤ seq) 0
    pure (record { outcome = apply; last_seq = add_drained seq drained; drained = drained })
  carry_out buffer state event seq = do
    buffer_event event
    pure (record { outcome = buffer; last_seq = state.last_seq; drained = 0 })
  carry_out outcome state event seq =
      pure (record { outcome = outcome; last_seq = state.last_seq; drained = 0 })

  -- The function that `ApplyEvent` hands to `pgx.BeginFunc`.
  unfoldable pub apply_body : EventEnvelope → Tx P Applied
  apply_body event = do
    state ← lock_order event.order_id
    seq ← deref event.seq_id
    carry_out (decide state event.plan_id seq) state event seq

  -- `ApplyEvent`
  unfoldable pub apply_event : EventEnvelope → Tx P Applied
  apply_event event = begin_func (apply_body event)

  unfoldable pub discard_pending : EventEnvelope → Tx P Unit
  discard_pending event =
      within "discard pending events" (delete_plan env event.order_id event.plan_id)

  -- The `switch` of `AbortPlan`.
  unfoldable pub carry_out_abort : Outcome → EventEnvelope → Tx P Unit
  carry_out_abort apply event = do
    within "abort order" (update_status env event.order_id status_aborted)
    insert_outbox event
    discard_pending event
  carry_out_abort tombstone event = do
    within "insert abort tombstone"
        (insert_order env event.order_id (user_id event) status_aborted event.plan_id none (pos 0))
    discard_pending event
  carry_out_abort outcome event = pure tt

  -- The function that `AbortPlan` hands to `pgx.BeginFunc`.
  unfoldable pub abort_body : EventEnvelope → Tx P Applied
  abort_body event = do
    state ← lock_order event.order_id
    carry_out_abort (decide_abort state event.plan_id) event
    pure (record {
      outcome = decide_abort state event.plan_id;
      last_seq = state.last_seq;
      drained = 0;
    })

  -- `AbortPlan`
  unfoldable pub abort_plan : EventEnvelope → Tx P Applied
  abort_plan event = begin_func (abort_body event)
