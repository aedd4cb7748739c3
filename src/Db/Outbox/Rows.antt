-- ===== src/Db/Outbox/Rows.antt =====
-- The rows of the outbox that the WHERE clauses of outbox.go select.
use distribuid_system_simula.Prelude.{
  ℕ, suc, Bool, true, false, Option, none, some, List, [], ◌∷◌, ◌&&◌, ◌||◌, not, eqb, ltb, leb,
  if◌then◌else◌,
}
use distribuid_system_simula.Prelude.Select.{keep, take, sort_by}
use distribuid_system_simula.Db.Tables.{OutboxRow, Tables}

abbrev pub is_null : {A : Type 0} → Option A → Bool
is_null none = true
is_null (some a) = false

-- `lease_until IS NULL OR lease_until < NOW()`
abbrev pub is_free : ℕ → Option ℕ → Bool
is_free now none = true
is_free now (some until) = ltb until now

module _ {P : Type 0} where
  -- `processed = FALSE AND dead_at IS NULL`
  unfoldable pub is_waiting : OutboxRow P → Bool
  is_waiting r = not r.processed && is_null r.dead_at

  -- `processed = FALSE AND dead_at IS NOT NULL`
  unfoldable pub is_dead : OutboxRow P → Bool
  is_dead r = not r.processed && not (is_null r.dead_at)

  -- `prev` waits before `r` in its aggregate
  unfoldable pub precedes : OutboxRow P → OutboxRow P → Bool
  precedes r prev =
      eqb prev.aggregate_id r.aggregate_id && (ltb prev.position r.position && is_waiting prev)

  unfoldable pub any : (OutboxRow P → Bool) → List (OutboxRow P) → Bool
  any f [] = false
  any f (r ∷ rest) = f r || any f rest

  -- The WHERE clause of `heads`.
  unfoldable pub is_claimable : ℕ → List (OutboxRow P) → OutboxRow P → Bool
  is_claimable now rows r =
      is_waiting r
      && (leb r.next_attempt_at now && (is_free now r.lease_until && not (any (precedes r) rows)))

  -- The CTE `heads`; `locked` tells the rows that another transaction holds, which SKIP LOCKED
  -- passes over.
  unfoldable pub heads : (ℕ → Bool) → ℕ → ℕ → List (OutboxRow P) → List (OutboxRow P)
  heads locked limit now rows =
      take limit
        (keep (λ r. is_claimable now rows r && not (locked r.id)) (sort_by (λ r. r.position) rows))

  abbrev pub is_id : ℕ → OutboxRow P → Bool
  is_id id r = eqb r.id id

  -- whether `r` has the id of one of the rows
  unfoldable pub has_id : List (OutboxRow P) → OutboxRow P → Bool
  has_id rows r = any (λ x. is_id x.id r) rows

  -- `UPDATE outbox SET … WHERE …`
  unfoldable pub update_rows :
      (OutboxRow P → Bool) → (OutboxRow P → OutboxRow P) → List (OutboxRow P) → List (OutboxRow P)
  update_rows f change [] = []
  update_rows f change (r ∷ rest) = (if f r then change r else r) ∷ update_rows f change rest

  unfoldable pub update_outbox :
      (OutboxRow P → Bool) → (OutboxRow P → OutboxRow P) → Tables P → Tables P
  update_outbox f change t = record t { outbox = update_rows f change t.outbox }

  unfoldable pub count : (OutboxRow P → Bool) → List (OutboxRow P) → ℕ
  count f [] = 0
  count f (r ∷ rest) = let n = count f rest in if f r then suc n else n
