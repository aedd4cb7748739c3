-- ===== src/Db/Outbox.antt =====
-- server/internal/db/outbox.go: the outbox as the dispatcher sees it. Each method is one statement
-- outside any explicit transaction: Postgres commits it on its own.
pub mod Rows
pub mod Selected
pub mod Autocommit
pub mod Heads
pub mod Claims
pub mod Eligible
pub mod Settled
pub mod Kept
use distribuid_system_simula.Prelude.{
  if◌then◌else◌, ℕ, ◌+◌, String, Bool, true, false, Option, none, some, List, map, not, ◌&&◌,
}
use distribuid_system_simula.Prelude.Int.{ℤ, pos, pos_part, leb_ℤ, add_duration}
use distribuid_system_simula.Exec.{Error, pg, Result, pure, gets, within, ◌>>=◌, ◌>>◌}
use distribuid_system_simula.Db.Platform.{Platform}
use distribuid_system_simula.Db.Tables.{OutboxRow, Session}
use distribuid_system_simula.Db.Statements.{Tx, check, cast_uuid, write}
use distribuid_system_simula.Db.Repository.{finish}
use distribuid_system_simula.Db.Outbox.Rows.{
  is_id, is_dead, is_waiting, heads, has_id, update_outbox, count,
}

-- `OutboxEntry`
pub record OutboxEntry (P : Type 0) : Type 0 where
  pub id : String
  pub position : ℕ
  pub aggregate_id : String
  pub event_type : String
  pub payload : P
  pub topic : String
  pub attempts : ℕ

module _ {P A : Type 0} where
  -- One statement on its own: a failed one has no effect, or only its answer was lost.
  unfoldable pub autocommit : Tx P A → Tx P A
  autocommit statement s = let (r, s') = statement s in finish s'.faults s.tables r s'

module _ {P : Type 0} (env : Platform P) where
  -- The columns that RETURNING lists.
  unfoldable pub entry_of : OutboxRow P → OutboxEntry P
  entry_of r = record {
    id = env.uuid_text r.id;
    position = r.position;
    aggregate_id = env.uuid_text r.aggregate_id;
    event_type = r.event_type;
    payload = r.payload;
    topic = r.topic;
    attempts = r.attempts;
  }

  unfoldable pub claim_heads : (ℕ → Bool) → ℤ → ℤ → Tx P (List (OutboxEntry P))
  claim_heads locked limit lease = do
    check (leb_ℤ (pos 0) limit) (pg "2201W" "LIMIT must not be negative")
    now ← gets (λ s. s.now)
    claimed ← gets (λ s. heads locked (pos_part limit) now s.outbox)
    write (
        update_outbox (has_id claimed)
          λ r. record r { lease_until = some (add_duration now lease) })
    pure (map entry_of claimed)

  -- `ClaimOutbox`
  unfoldable pub claim_outbox : (ℕ → Bool) → ℤ → ℤ → Tx P (List (OutboxEntry P))
  claim_outbox locked limit lease =
      within "claim outbox" (autocommit (claim_heads locked limit lease))

  -- `UPDATE outbox SET … WHERE id = $1::uuid`
  unfoldable pub update_by_id : String → (ℕ → OutboxRow P → OutboxRow P) → Tx P Unit
  update_by_id text change = do
    id ← cast_uuid env text
    now ← gets (λ s. s.now)
    write (update_outbox (λ r. is_id id r) (change now))

  -- `MarkOutboxDelivered`
  unfoldable pub mark_outbox_delivered : String → Tx P Unit
  mark_outbox_delivered id = within "mark outbox delivered" (
      autocommit (
        update_by_id id λ now r. record r {
          processed = true;
          attempts = r.attempts + 1;
          lease_until = none;
          last_error = none;
        }))

  -- `MarkOutboxFailed`
  unfoldable pub mark_outbox_failed : String → ℤ → String → Bool → Tx P Unit
  mark_outbox_failed id retry_in last_err dead = within "mark outbox failed" (
      autocommit (
        update_by_id id λ now r. record r {
          attempts = r.attempts + 1;
          lease_until = none;
          last_error = some last_err;
          next_attempt_at = add_duration now retry_in;
          dead_at = if dead then some now else none;
        }))

  -- `ReleaseOutbox`
  unfoldable pub release_outbox : String → Tx P Unit
  release_outbox id =
      within "release outbox"
        (autocommit (update_by_id id λ now r. record r { lease_until = none }))

  -- `OutboxBacklog`: the numbers of pending and of dead entries
  unfoldable pub outbox_backlog : Tx P (ℕ × ℕ)
  outbox_backlog =
      within "outbox backlog"
        (autocommit (gets (λ s. (count is_waiting s.outbox, count is_dead s.outbox))))
