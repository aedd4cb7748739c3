-- ===== src/Db/Expiry/Complete.antt =====
-- server/internal/db/postgres.go, ExpirePending: which rows a call that succeeds leaves.
use mathlib.Core.List.{Memᴰ}
use distribuid_system_simula.Prelude.{
  ℕ, suc, ◌+◌, Bool, false, not, ◌&&◌, some, List, [], ◌∷◌, map, ◌≡◌, ◌⊎◌, inl, inr, refl, sym, ap,
  ◌∙◌, ◌<◌, ◌≤◌, All, All-map, length, arith, Bool-cases, eq_iff,
}
use distribuid_system_simula.Prelude.Int.{ℤ, eqb_ℤ_iff, pos_part}
use distribuid_system_simula.Prelude.Select.{split, All-intro}
use distribuid_system_simula.Exec.{ok, Exec}
use distribuid_system_simula.Exec.Yields.{Yields-ok, Yields-mono, Yields, Yields-pure, Yields-bind}
use distribuid_system_simula.Models.{EventEnvelope}
use distribuid_system_simula.Db.Platform.{Platform}
use distribuid_system_simula.Db.Tables.{PendingEvent, Tables, Session}
use distribuid_system_simula.Db.Rows.{is_row, delete_pending, remove_pending}
use distribuid_system_simula.Db.Rows.Laws.{All-delete}
use distribuid_system_simula.Db.Ensures.{Ensures-or_reject}
use distribuid_system_simula.Db.Expiry.{
  PendingRow, row_of, is_overdue, overdue, expire_rows, expire_body, expire_pending,
}
use distribuid_system_simula.Db.Expiry.Sinking.{
  Yields-lift, Yields-in_tx, Yields-in_sink, begin_sinking_ok,
}
use distribuid_system_simula.Db.Expiry.Selected.{delete_row-Ensures}
use distribuid_system_simula.Db.Expiry.Selects.{
  overdue-Mem, length-overdue, length-map_row, Mem-map_row, Yields-select,
}

module _ {P : Type 0} (env : Platform P) where
  -- The row of the buffer is the one that `p` stands for.
  abbrev pub Hits : PendingRow P → PendingEvent P → Type 0
  Hits p r =
      (env.uuid p.order_id ≡ some r.order_id) × (p.plan_id ≡ r.plan_id) × (p.seq_id ≡ r.seq_id)

  module _ (test : PendingEvent P → Bool) where
    -- Each row that passes the test stands among the rows to come.
    abbrev Left : List (PendingRow P) → Tables P → Type 0
    Left rows t =
        All (λ r. (test r ≡ false) ⊎ ((p : PendingRow P) × Memᴰ p rows × Hits p r)) t.pending

    Left-delete :
        (p : PendingRow P) (rows : List (PendingRow P)) (id : ℕ) (t : Tables P)
        → env.uuid p.order_id ≡ some id
        → Left (p ∷ rows) t
        → Left rows (remove_pending (is_row id p.plan_id p.seq_id) t)
    unfolding remove_pending
    Left-delete p rows id t cast h =
        All-map (delete_pending (is_row id p.plan_id p.seq_id) t.pending)
          (λ r (missed, k). still r missed k) (All-delete _ _ t.pending h)
      where
        still :
            (r : PendingEvent P)
            → is_row id p.plan_id p.seq_id r ≡ false
            → (test r ≡ false) ⊎ ((q : PendingRow P) × Memᴰ q (p ∷ rows) × Hits q r)
            → (test r ≡ false) ⊎ ((q : PendingRow P) × Memᴰ q rows × Hits q r)
        still r missed (inl other) = inl other
        still r missed (inr (q, m, h)) = elim (split m) [
          | inr there ↦ inr (q, there, h)
          | inl e ↦
              let is_id : r.order_id ≡ id = cc (h.0, e, cast) in
              let is_plan : r.plan_id ≡ p.plan_id = cc (h.1, e) in
              let is_seq : r.seq_id ≡ p.seq_id = cc (h.2, e) in
              absurd (ground (arith, eq_iff r.plan_id p.plan_id, eqb_ℤ_iff r.seq_id p.seq_id))
        ]

    module _ {K : Type 0} (sink : EventEnvelope → Exec K Unit) where
      -- `C` is what the rows stand for more than the selected ones on.
      expire_rows-Left :
          (C : Type 0) (rows : List (PendingRow P)) (n : ℕ) (s : Session P × K)
          → (C → Left rows s.0.tables)
          → Yields
              (expire_rows env sink rows n)
              s
              (λ m u. (m ≡ n + length rows) × (C → All (λ r. test r ≡ false) u.0.pending))
      unfolding expire_rows
      expire_rows-Left C [] n s h = Yields-pure n s _ (
        omega arith,
        λ c.
            All-map s.0.pending (λ r k. elim k [ inl other ↦ other | inr (p, m, x) ↦ elim m [ ] ])
              (h c),
      )
      expire_rows-Left C (p ∷ rows) n s h =
          Yields-bind _ _ s _ _
            (Yields-in_tx _ s (λ _ u. u ≡ s.0.tables) (Ensures-or_reject _ _ λ e is. refl))
            λ e u (tables, sunk).
              Yields-bind _ _ u _ _ (Yields-in_sink (sink e) u) λ _ v (same, ran).
                Yields-bind _ _ v _ _ (Yields-in_tx _ v _ (delete_row-Ensures env p v.0.tables))
                  λ _ w ((id, cast, is), _).
                    Yields-mono _ w _ _
                      (expire_rows-Left C rows (suc n) w
                        λ c. rw (is, same, tables) (Left-delete p rows id s.0.tables cast (h c)))
                      λ m x (count, done). (omega (arith, count), done)

module _ {P K : Type 0} (env : Platform P) (sink : EventEnvelope → Exec K Unit)
    (locked : PendingEvent P → Bool) (max_age limit : ℤ) where
  Left-start :
      (t : Tables P) (now : ℕ)
      → ((n : ℕ) → env.uuid (env.uuid_text n) ≡ some n)
      → length (overdue locked (pos_part limit) now max_age t.pending) < pos_part limit
      → Left env
          (λ r. is_overdue now max_age r && not (locked r))
          (map (row_of env) (overdue locked (pos_part limit) now max_age t.pending))
          t
  unfolding row_of
  Left-start t now reads few = All-intro _ t.pending λ r m.
      elim (Bool-cases (is_overdue now max_age r && not (locked r))) [
        | inl hit ↦ inr (
          row_of env r,
          Mem-map_row env r _
              (overdue-Mem locked (pos_part limit) now max_age t.pending r few m hit),
          (reads r.order_id, refl, refl),
        )
        | inr miss ↦ inl miss
      ]

  abbrev Emptied : ℕ → ℕ → Session P × K → Type 0
  Emptied now n u =
      (n ≤ pos_part limit)
      × (n < pos_part limit
          → All (λ r. (is_overdue now max_age r && not (locked r)) ≡ false) u.0.pending)

  expire_body-Emptied :
      (s : Session P × K)
      → ((n : ℕ) → env.uuid (env.uuid_text n) ≡ some n)
      → Yields (expire_body env sink locked max_age limit) s (Emptied s.0.now)
  unfolding expire_body
  expire_body-Emptied s reads =
      Yields-bind _ _ s _ _ (Yields-lift _ s _ (Yields-select env locked max_age limit s.0))
        λ rows u ((tables, is), _).
          let selected = overdue locked (pos_part limit) s.0.now max_age s.0.pending in
          let size : length rows ≡ length selected = ap length is ∙ length-map_row env selected in
          Yields-mono _ u _ _
            (expire_rows-Left env (λ r. is_overdue s.0.now max_age r && not (locked r)) sink
              (length rows < pos_part limit) rows 0 u
              λ few. rw (is, tables) (Left-start s.0.tables s.0.now reads (rw (sym size) few)))
            λ n v (count, done). (
              omega (
                arith,
                count,
                size,
                length-overdue locked (pos_part limit) s.0.now max_age s.0.pending,
              ),
              λ few. done (omega (arith, count)),
            )

  -- When `ExpirePending` reports fewer events than its limit, and no error, then no row is left in
  -- the buffer that is older than `max_age` and that no other transaction holds. A UUID that was
  -- written as a text reads back.
  pub expire_pending_complete :
      (s s' : Session P × K) (n : ℕ)
      → ((n : ℕ) → env.uuid (env.uuid_text n) ≡ some n)
      → expire_pending env sink locked max_age limit s ≡ (ok n, s')
      → n < pos_part limit
      → All (λ r. (is_overdue s.0.now max_age r && not (locked r)) ≡ false) s'.0.pending
  unfolding expire_pending
  expire_pending_complete s s' n reads h few =
      let (u, tables, clock, ran, end, _) = begin_sinking_ok _ s s' n h in
      let (_, done) = Yields-ok _ _ _ n (expire_body-Emptied (u, s.1) reads) ran in
      rw (end, sym clock) (done few)
