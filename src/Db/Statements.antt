-- ===== src/Db/Statements.antt =====
-- The SQL statements of server/internal/db/postgres.go over the tables of init.sql: each is one
-- request to Postgres, refuses the values that the columns' types and constraints refuse, and
-- changes its rows.
use distribuid_system_simula.Prelude.{
  ℕ, ◌+◌, String, Bool, true, false, Option, none, some, List, [], ◌∷◌, ◌==◌, if◌then◌else◌,
}
use distribuid_system_simula.Prelude.Int.{ℤ, pos, ltb_ℤ}
use distribuid_system_simula.Exec.{
  Error, pg, plain, Result, ok, err, Exec, pure, raise, gets, modify, ◌>>=◌, ◌>>◌,
}
use distribuid_system_simula.Db.Platform.{Platform}
use distribuid_system_simula.Db.Tables.{
  Order, PendingEvent, Tables, Fault, fine, lost, unacked, Session,
}
use distribuid_system_simula.Db.Rows.{
  find_order, is_row, is_of_plan, find_pending, add_order, change_order, add_pending,
  remove_pending, add_outbox,
}

abbrev pub answer : List Fault → Result Unit
answer [] = ok tt
answer (fine ∷ rest) = ok tt
answer (lost e ∷ rest) = err e
answer (unacked e ∷ rest) = err e

abbrev pub later : List Fault → List Fault
later [] = []
later (f ∷ rest) = rest

-- the CHECK on orders.status
unfoldable pub status_allowed : String → Bool
status_allowed s =
    if s == "pending"
    then true
    else if s == "inventory_validated"
    then true
    else if s == "payment_processed"
    then true
    else if s == "shipped"
    then true
    else if s == "completed"
    then true
    else if s == "cancelled"
    then true
    else s == "aborted"

-- `notificationsTopic`
abbrev pub notifications_topic : String
notifications_topic = "order-notifications"

abbrev pub Tx : Type 0 → Type 0 → Type 0
Tx P A = Exec (Session P) A

module _ {P : Type 0} where
  unfoldable pub request : Tx P Unit
  request s = (answer s.faults, record s { faults = later s.faults })

  unfoldable pub or_reject : {A : Type 0} → Option A → Error → Tx P A
  or_reject none e = raise e
  or_reject (some a) e = pure a

  unfoldable pub check : Bool → Error → Tx P Unit
  check true e = pure tt
  check false e = raise e

  unfoldable pub write : (Tables P → Tables P) → Tx P Unit
  write f = modify (λ s. record s { tables = f s.tables })

module _ {P : Type 0} (env : Platform P) where
  unfoldable pub encode_int4 : ℤ → Tx P Unit
  encode_int4 n = check (env.int4 n) (plain "unable to encode int into binary format for int4")

  unfoldable pub cast_uuid : String → Tx P ℕ
  cast_uuid s = or_reject (env.uuid s) (pg "22P02" "invalid input syntax for type uuid")

  unfoldable pub fits : ℕ → String → Tx P Unit
  fits n s = check (env.varchar n s) (pg "22001" "value too long for type character varying")

  unfoldable pub to_jsonb : P → Tx P P
  to_jsonb p = or_reject (env.jsonb p) (pg "22P05" "unsupported Unicode escape sequence")

  -- NULL stays NULL
  unfoldable pub to_decimal : Option ℕ → Tx P (Option ℤ)
  to_decimal none = pure none
  to_decimal (some x) = do
    amount ← or_reject (env.decimal x) (pg "22003" "numeric field overflow")
    pure (some amount)

  unfoldable pub allowed : String → Tx P Unit
  allowed s = check (status_allowed s) (pg "23514" "orders_status_check")

  -- `SELECT … FROM orders WHERE id = $1::uuid`
  unfoldable pub select_order : String → Tx P (Option Order)
  select_order order_id = do request; id ← cast_uuid order_id; gets (λ s. find_order id s.orders)

  unfoldable pub unique : Option Order → Tx P Unit
  unique none = pure tt
  unique (some o) = raise (pg "23505" "orders_pkey")

  -- `INSERT INTO orders`, in applyEvent and, with no amount, in AbortPlan
  unfoldable pub insert_order : String → String → String → String → Option ℕ → ℤ → Tx P Unit
  insert_order order_id user_id status plan_id total seq = do
    request
    id ← cast_uuid order_id
    fits 50 user_id
    allowed status
    fits 100 plan_id
    amount ← to_decimal total
    present ← gets (λ s. find_order id s.orders)
    unique present
    now ← gets (λ s. s.now)
    write (
        add_order (record {
          id = id;
          user_id = user_id;
          status = status;
          total_amount = amount;
          plan_id = some plan_id;
          last_seq_processed = some seq;
          updated_at = now;
        }))

  -- `COALESCE($3, total_amount)`
  abbrev pub coalesce : Option ℤ → Option ℤ → Option ℤ
  coalesce none old = old
  coalesce (some x) old = some x

  unfoldable pub update_row : ℕ → String → Option ℕ → ℤ → Option Order → Tx P Unit
  update_row id status total seq none = pure tt
  update_row id status total seq (some o) = do
    allowed status
    amount ← to_decimal total
    now ← gets (λ s. s.now)
    write (
        change_order id λ o. record o {
          status = status;
          total_amount = coalesce amount o.total_amount;
          last_seq_processed = some seq;
          updated_at = now;
        })

  -- `UPDATE orders` in applyEvent
  unfoldable pub update_order : String → String → Option ℕ → ℤ → Tx P Unit
  update_order order_id status total seq = do
    request
    id ← cast_uuid order_id
    row ← gets (λ s. find_order id s.orders)
    update_row id status total seq row

  -- `UPDATE orders` in AbortPlan
  unfoldable pub update_status : String → String → Tx P Unit
  update_status order_id status = do
    request
    id ← cast_uuid order_id
    allowed status
    now ← gets (λ s. s.now)
    write (change_order id λ o. record o { status = status; updated_at = now })

  -- `DELETE … WHERE order_id = … AND plan_id = … AND seq_id = … RETURNING payload`
  unfoldable pub take_pending : String → String → ℤ → Tx P (Option P)
  take_pending order_id plan_id seq = do
    encode_int4 seq
    request
    id ← cast_uuid order_id
    found ← gets (λ s. find_pending (is_row id plan_id seq) s.pending)
    write (remove_pending (is_row id plan_id seq))
    pure found

  -- `DELETE … WHERE order_id = … AND plan_id = …`
  unfoldable pub delete_plan : String → String → Tx P Unit
  delete_plan order_id plan_id = do
    request
    id ← cast_uuid order_id
    write (remove_pending (is_of_plan id plan_id))

  unfoldable pub insert_unless : Option P → PendingEvent P → Tx P Unit
  insert_unless none r = write (add_pending r)
  insert_unless (some p) r = pure tt

  -- `INSERT INTO pending_events … ON CONFLICT DO NOTHING`
  unfoldable pub insert_pending : String → String → ℤ → P → Tx P Unit
  insert_pending order_id plan_id seq payload = do
    encode_int4 seq
    request
    id ← cast_uuid order_id
    fits 100 plan_id
    stored ← to_jsonb payload
    check (ltb_ℤ (pos 0) seq) (pg "23514" "pending_events_seq_id_check")
    present ← gets (λ s. find_pending (is_row id plan_id seq) s.pending)
    now ← gets (λ s. s.now)
    insert_unless present (record {
      order_id = id;
      plan_id = plan_id;
      seq_id = seq;
      payload = stored;
      received_at = now;
    })

  -- The next value of the identity column.
  unfoldable pub next_position : Tx P ℕ
  next_position s = (ok s.serial, record s { serial = s.serial + 1 })

  -- `INSERT INTO outbox`; the columns that it leaves out take their defaults
  unfoldable pub insert_outbox_row : String → String → P → String → Tx P Unit
  insert_outbox_row order_id event_type payload topic = do
    request
    id ← cast_uuid order_id
    fits 50 event_type
    stored ← to_jsonb payload
    position ← next_position
    now ← gets (λ s. s.now)
    write (
        add_outbox (record {
          id = env.random_uuid position;
          position = position;
          aggregate_id = id;
          event_type = event_type;
          payload = stored;
          topic = topic;
          processed = false;
          attempts = 0;
          next_attempt_at = now;
          lease_until = none;
          last_error = none;
          dead_at = none;
        }))
