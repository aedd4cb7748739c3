-- ===== src/Db/Rows.antt =====
-- The rows that the WHERE clauses of postgres.go select, and the changes that its statements make.
pub mod Laws
use distribuid_system_simula.Prelude.{
  ℕ, String, Bool, Option, none, some, List, [], ◌∷◌, ◌++◌, ◌==◌, ◌&&◌, eqb, if◌then◌else◌,
}
use distribuid_system_simula.Prelude.Int.{ℤ, eqb_ℤ}
use distribuid_system_simula.Db.Tables.{Order, PendingEvent, OutboxRow, Tables}

-- `FROM orders WHERE id = …`
unfoldable pub find_order : ℕ → List Order → Option Order
find_order id [] = none
find_order id (o ∷ rest) = if eqb o.id id then some o else find_order id rest

-- `UPDATE orders SET … WHERE id = …`
unfoldable pub set_order : ℕ → (Order → Order) → List Order → List Order
set_order id f [] = []
set_order id f (o ∷ rest) = (if eqb o.id id then f o else o) ∷ set_order id f rest

module _ {P : Type 0} where
  -- `order_id = … AND plan_id = … AND seq_id = …`
  abbrev pub is_row : ℕ → String → ℤ → PendingEvent P → Bool
  is_row id plan seq r = eqb r.order_id id && (r.plan_id == plan && eqb_ℤ r.seq_id seq)

  -- `order_id = … AND plan_id = …`
  abbrev pub is_of_plan : ℕ → String → PendingEvent P → Bool
  is_of_plan id plan r = eqb r.order_id id && r.plan_id == plan

  unfoldable pub find_pending : (PendingEvent P → Bool) → List (PendingEvent P) → Option P
  find_pending f [] = none
  find_pending f (r ∷ rest) = if f r then some r.payload else find_pending f rest

  -- `DELETE FROM pending_events WHERE …`
  unfoldable pub delete_pending :
      (PendingEvent P → Bool) → List (PendingEvent P) → List (PendingEvent P)
  delete_pending f [] = []
  delete_pending f (r ∷ rest) = let kept = delete_pending f rest in if f r then kept else r ∷ kept

  unfoldable pub add_order : Order → Tables P → Tables P
  add_order o t = record t { orders = t.orders ++ o ∷ [] }

  unfoldable pub change_order : ℕ → (Order → Order) → Tables P → Tables P
  change_order id f t = record t { orders = set_order id f t.orders }

  unfoldable pub add_pending : PendingEvent P → Tables P → Tables P
  add_pending r t = record t { pending = t.pending ++ r ∷ [] }

  unfoldable pub remove_pending : (PendingEvent P → Bool) → Tables P → Tables P
  remove_pending f t = record t { pending = delete_pending f t.pending }

  unfoldable pub add_outbox : OutboxRow P → Tables P → Tables P
  add_outbox r t = record t { outbox = t.outbox ++ r ∷ [] }
