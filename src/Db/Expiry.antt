-- ===== src/Db/Expiry.antt =====
-- server/internal/db/postgres.go, ExpirePending and PendingEventsCount. The state is the session and,
-- beside it, that of the sink, which no rollback sets back.
pub mod Sinking
pub mod Selected
pub mod Handed
pub mod Selects
pub mod Complete
pub mod Shrinks
pub mod Sunk
use distribuid_system_simula.Prelude.{
  ℕ, suc, ◌+◌, String, Bool, not, ◌&&◌, List, [], ◌∷◌, map, ltb, length,
}
use distribuid_system_simula.Prelude.Int.{ℤ, pos, pos_part, neg_part, leb_ℤ}
use distribuid_system_simula.Prelude.Select.{keep, take, sort_by}
use distribuid_system_simula.Exec.{pg, plain, Exec, Result, pure, gets, within, ◌>>=◌, ◌>>◌}
use distribuid_system_simula.Models.{EventEnvelope}
use distribuid_system_simula.Db.Platform.{Platform}
use distribuid_system_simula.Db.Tables.{PendingEvent, Tables, Session}
use distribuid_system_simula.Db.Rows.{is_row, remove_pending}
use distribuid_system_simula.Db.Statements.{
  Tx, request, or_reject, check, write, cast_uuid, encode_int4,
}
use distribuid_system_simula.Db.Repository.{finish}
use distribuid_system_simula.Db.Outbox.{autocommit}

-- `pendingRow`
pub record PendingRow (P : Type 0) : Type 0 where
  pub order_id : String
  pub plan_id : String
  pub seq_id : ℤ
  pub payload : P

module _ {P : Type 0} where
  -- `received_at < NOW() - make_interval(secs => …)`, to the nanosecond
  unfoldable pub is_overdue : ℕ → ℤ → PendingEvent P → Bool
  is_overdue now max_age r = ltb (r.received_at + pos_part max_age) (now + neg_part max_age)

  -- The rows that the SELECT finds; `locked` tells those that another transaction holds, which SKIP
  -- LOCKED passes over.
  unfoldable pub overdue :
      (PendingEvent P → Bool) → ℕ → ℕ → ℤ → List (PendingEvent P) → List (PendingEvent P)
  overdue locked limit now max_age rows =
      take limit
        (keep (λ r. is_overdue now max_age r && not (locked r)) (sort_by (λ r. r.received_at) rows))

  module _ {K : Type 0} where
    -- What a step does to the session, or to the sink.
    unfoldable pub in_tx : {A : Type 0} → Tx P A → Exec (Session P × K) A
    in_tx m s = let (r, t) = m s.0 in (r, (t, s.1))

    unfoldable pub in_sink : {A : Type 0} → Exec K A → Exec (Session P × K) A
    in_sink m s = let (r, k) = m s.1 in (r, (s.0, k))

    -- `pgx.BeginFunc` of a function that calls the sink
    unfoldable pub begin_sinking : {A : Type 0} → Exec (Session P × K) A → Exec (Session P × K) A
    begin_sinking body = do
      in_tx request
      λ s. let (r, t) = body s in let (q, u) = finish t.0.faults s.0.tables r t.0 in (q, (u, t.1))

module _ {P : Type 0} (env : Platform P) where
  unfoldable pub row_of : PendingEvent P → PendingRow P
  row_of r = record {
    order_id = env.uuid_text r.order_id;
    plan_id = r.plan_id;
    seq_id = r.seq_id;
    payload = r.payload;
  }

  unfoldable pub select_overdue : (PendingEvent P → Bool) → ℤ → ℤ → Tx P (List (PendingRow P))
  select_overdue locked max_age limit = within "select expired pending events" (do
    request
    check (leb_ℤ (pos 0) limit) (pg "2201W" "LIMIT must not be negative")
    now ← gets (λ s. s.now)
    rows ← gets (λ s. overdue locked (pos_part limit) now max_age s.pending)
    pure (map row_of rows))

  unfoldable pub delete_row : PendingRow P → Tx P Unit
  delete_row p = within "delete expired pending event" (do
    encode_int4 env p.seq_id
    request
    id ← cast_uuid env p.order_id
    write (remove_pending (is_row id p.plan_id p.seq_id)))

  module _ {K : Type 0} (sink : EventEnvelope → Exec K Unit) where
    -- The loop over the rows, after `expired` rounds.
    unfoldable pub expire_rows : List (PendingRow P) → ℕ → Exec (Session P × K) ℕ
    expire_rows [] expired = pure expired
    expire_rows (p ∷ rows) expired = do
      event ← in_tx (or_reject (env.unmarshal p.payload) (plain "decode pending event"))
      in_sink (sink event)
      in_tx (delete_row p)
      expire_rows rows (suc expired)

    -- The function that `ExpirePending` hands to `pgx.BeginFunc`.
    unfoldable pub expire_body : (PendingEvent P → Bool) → ℤ → ℤ → Exec (Session P × K) ℕ
    expire_body locked max_age limit = do
      rows ← in_tx (select_overdue locked max_age limit)
      expire_rows rows 0

    -- `ExpirePending`
    unfoldable pub expire_pending : (PendingEvent P → Bool) → ℤ → ℤ → Exec (Session P × K) ℕ
    expire_pending locked max_age limit = begin_sinking (expire_body locked max_age limit)

-- `PendingEventsCount`
unfoldable pub pending_events_count : {P : Type 0} → Tx P ℕ
pending_events_count = within "count pending events" (autocommit (gets (λ s. length s.pending)))
