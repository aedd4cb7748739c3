-- ===== src/Db/Expiry/Selected.antt =====
-- server/internal/db/postgres.go, ExpirePending: the rows that are selected, and the delete of one.
use distribuid_system_simula.Prelude.{ℕ, Bool, some, List, [], ◌∷◌, map, ◌≡◌, refl, All}
use distribuid_system_simula.Prelude.Int.{ℤ, pos_part}
use distribuid_system_simula.Prelude.Select.{All-Mem, All-intro, Mem-keep, Mem-take, Mem-sort_by}
use distribuid_system_simula.Models.{EventEnvelope}
use distribuid_system_simula.Db.Platform.{Platform}
use distribuid_system_simula.Db.Tables.{PendingEvent, Tables}
use distribuid_system_simula.Db.Rows.{is_row, remove_pending}
use distribuid_system_simula.Db.Statements.{encode_int4, cast_uuid}
use distribuid_system_simula.Db.Ensures.{
  Ensures, Ensures-pure, Ensures-within, Ensures-write, check_then, request_then, or_reject_then,
  gets_then, now_then,
}
use distribuid_system_simula.Db.Invariant.{IsBuffered}
use distribuid_system_simula.Db.Expiry.{PendingRow, row_of, overdue, select_overdue, delete_row}

module _ {P : Type 0} (env : Platform P) where
  -- A selected row holds an event of its key.
  pub record IsEntry (p : PendingRow P) : Type 0 where
    pub event : EventEnvelope
    pub reads : env.unmarshal p.payload ≡ some event
    pub id : ℕ
    pub cast : env.uuid p.order_id ≡ some id
    pub order : env.uuid event.order_id ≡ some id
    pub plan : event.plan_id ≡ p.plan_id
    pub seq : event.seq_id ≡ some p.seq_id

  pub row_of-IsEntry :
      (r : PendingEvent P)
      → ((n : ℕ) → env.uuid (env.uuid_text n) ≡ some n)
      → IsBuffered env r
      → IsEntry (row_of env r)
  unfolding row_of
  row_of-IsEntry r reads b = record {
    event = b.event;
    reads = b.reads;
    id = r.order_id;
    cast = reads r.order_id;
    order = b.order;
    plan = b.plan;
    seq = b.seq;
  }

  All-map_row :
      (Q : PendingRow P → Type 0) (rs : List (PendingEvent P))
      → All (λ r. Q (row_of env r)) rs
      → All Q (map (row_of env) rs)
  All-map_row Q [] h = tt
  All-map_row Q (r ∷ rs) h = (h.0, All-map_row Q rs h.1)

  -- A selected row is a row of the buffer.
  pub overdue-All :
      (Q : PendingEvent P → Type 0) (locked : PendingEvent P → Bool) (limit now : ℕ) (max_age : ℤ)
      (rs : List (PendingEvent P))
      → All Q rs
      → All Q (overdue locked limit now max_age rs)
  unfolding overdue
  overdue-All Q locked limit now max_age rs h = All-intro Q _ λ r m.
      All-Mem Q r rs
        (Mem-sort_by (λ r. r.received_at) r rs (Mem-keep _ r _ (Mem-take limit r _ m)).0) h

  pub select_overdue-All :
      (Q : PendingRow P → Type 0) (locked : PendingEvent P → Bool) (max_age limit : ℤ)
      (t : Tables P)
      → All (λ r. Q (row_of env r)) t.pending
      → Ensures t (select_overdue env locked max_age limit) (λ rows u. (u ≡ t) × All Q rows)
  unfolding select_overdue
  select_overdue-All Q locked max_age limit t h = Ensures-within _ _ (
      request_then _ (
        check_then _ _ _ λ _. now_then _ λ now.
          gets_then (λ x. overdue locked (pos_part limit) now max_age x.pending) _
            (Ensures-pure _ (
              refl,
              All-map_row Q _
                  (overdue-All (λ r. Q (row_of env r)) locked _ now max_age t.pending h),
            ))))

  pub delete_row-Ensures :
      (p : PendingRow P) (t : Tables P)
      → Ensures t (delete_row env p) (λ _ u.
        (id : ℕ) × (env.uuid p.order_id ≡ some id)
        × (u ≡ remove_pending (is_row id p.plan_id p.seq_id) t))
  unfolding delete_row encode_int4 cast_uuid
  delete_row-Ensures p t = Ensures-within _ _ (
      check_then _ _ _
        λ _. request_then _ (or_reject_then _ _ _ λ id cast. Ensures-write _ (id, cast, refl)))
