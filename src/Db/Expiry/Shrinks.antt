-- ===== src/Db/Expiry/Shrinks.antt =====
-- server/internal/db/postgres.go, ExpirePending: how a call that succeeds shrinks the buffer.
use mathlib.Core.List.{Memᴰ}
use distribuid_system_simula.Prelude.{
  ℕ, suc, Bool, true, some, List, [], ◌∷◌, map, ◌≡◌, inl, inr, refl, sym, ap, ◌∙◌, ◌<◌, ◌≤◌, length,
  arith, Bool-cases, eq_iff,
}
use distribuid_system_simula.Prelude.Int.{ℤ, eqb_ℤ_iff, pos_part}
use distribuid_system_simula.Prelude.Select.{Mem-keep, Mem-take, Mem-sort_by}
use distribuid_system_simula.Exec.{ok, Exec}
use distribuid_system_simula.Exec.Yields.{Yields-ok, Yields, Yields-pure, Yields-bind, Yields-mono}
use distribuid_system_simula.Models.{EventEnvelope}
use distribuid_system_simula.Db.Platform.{Platform}
use distribuid_system_simula.Db.Tables.{PendingEvent, Session}
use distribuid_system_simula.Db.Rows.{is_row, find_pending, delete_pending, remove_pending}
use distribuid_system_simula.Db.Rows.Laws.{length-delete-lt, length-delete-le}
use distribuid_system_simula.Db.Ensures.{Ensures-or_reject}
use distribuid_system_simula.Db.Expiry.{
  PendingRow, row_of, overdue, expire_rows, expire_body, expire_pending,
}
use distribuid_system_simula.Db.Expiry.Sinking.{
  Yields-lift, Yields-in_tx, Yields-in_sink, begin_sinking_ok,
}
use distribuid_system_simula.Db.Expiry.Selected.{delete_row-Ensures}
use distribuid_system_simula.Db.Expiry.Selects.{Yields-select}
use distribuid_system_simula.Db.Expiry.Complete.{Hits}

module _ {P : Type 0} where
  find_pending-Mem :
      (f : PendingEvent P → Bool) (r : PendingEvent P) (rs : List (PendingEvent P))
      → Memᴰ r rs
      → f r ≡ true
      → (p : P) × (find_pending f rs ≡ some p)
  unfolding find_pending
  find_pending-Mem f r [] m h = elim m [ ]
  find_pending-Mem f r (x ∷ rs) (Memᴰ.head e) h =
      let hit : f x ≡ true = rw e at h in rw hit (x.payload, refl)
  find_pending-Mem f r (x ∷ rs) (Memᴰ.tail m) h = elim (Bool-cases (f x)) [
    | inl hit ↦ rw hit (x.payload, refl)
    | inr miss ↦ rw miss (find_pending-Mem f r rs m h)
  ]

  overdue-head :
      (locked : PendingEvent P → Bool) (limit now : ℕ) (max_age : ℤ) (rs : List (PendingEvent P))
      (r : PendingEvent P)
      → Memᴰ r (overdue locked limit now max_age rs)
      → Memᴰ r rs
  unfolding overdue
  overdue-head locked limit now max_age rs r m =
      Mem-sort_by (λ r. r.received_at) r rs (Mem-keep _ r _ (Mem-take limit r _ m)).0

module _ {P K : Type 0} (env : Platform P) (sink : EventEnvelope → Exec K Unit) where
  -- A round, and what its delete takes away.
  round-Yields :
      (p : PendingRow P) (rows : List (PendingRow P)) (n : ℕ) (s : Session P × K)
      (Q : ℕ → Session P × K → Type 0)
      → ((id : ℕ) (u : Session P × K)
          → env.uuid p.order_id ≡ some id
          → u.0.tables ≡ remove_pending (is_row id p.plan_id p.seq_id) s.0.tables
          → Yields (expire_rows env sink rows (suc n)) u Q)
      → Yields (expire_rows env sink (p ∷ rows) n) s Q
  unfolding expire_rows
  round-Yields p rows n s Q k =
      Yields-bind _ _ s _ _
        (Yields-in_tx _ s (λ _ u. u ≡ s.0.tables) (Ensures-or_reject _ _ λ e is. refl))
        λ e u (tables, _). Yields-bind _ _ u _ _ (Yields-in_sink (sink e) u) λ _ v (same, _).
          Yields-bind _ _ v _ _ (Yields-in_tx _ v _ (delete_row-Ensures env p v.0.tables))
            λ _ w ((id, cast, is), _). k id w cast (
              is
              ∙ ap (remove_pending (is_row id p.plan_id p.seq_id))
                  (ap (λ x. x.tables) same ∙ tables))

  expire_rows-le :
      (rows : List (PendingRow P)) (n : ℕ) (s : Session P × K)
      → Yields (expire_rows env sink rows n) s (λ _ u. length u.0.pending ≤ length s.0.pending)
  unfolding expire_rows remove_pending
  expire_rows-le [] n s = Yields-pure n s _ (omega arith)
  expire_rows-le (p ∷ rows) n s = round-Yields p rows n s _ λ id u cast is.
      Yields-mono _ u _ _ (expire_rows-le rows (suc n) u) λ _ v h.
        let fewer = length-delete-le (is_row id p.plan_id p.seq_id) s.0.pending in
        let size : length u.0.pending
            ≡ length (delete_pending (is_row id p.plan_id p.seq_id) s.0.pending) =
          ap (λ t. length t.pending) is in
        omega arith

  expire_rows-lt :
      (p : PendingRow P) (rows : List (PendingRow P)) (n : ℕ) (s : Session P × K)
      (r : PendingEvent P)
      → Memᴰ r s.0.pending
      → Hits env p r
      → Yields
          (expire_rows env sink (p ∷ rows) n)
          s
          (λ _ u. length u.0.pending < length s.0.pending)
  unfolding remove_pending
  expire_rows-lt p rows n s r m h = round-Yields p rows n s _ λ id u cast is.
      Yields-mono _ u _ _ (expire_rows-le rows (suc n) u) λ _ v le.
        let is_id : r.order_id ≡ id = cc (h.0, cast) in
        let hit : is_row id p.plan_id p.seq_id r ≡ true =
          ground (arith, h.1, h.2, eq_iff r.plan_id p.plan_id, eqb_ℤ_iff r.seq_id p.seq_id) in
        let (payload, found) =
          find_pending-Mem (is_row id p.plan_id p.seq_id) r s.0.pending m hit in
        let fewer = length-delete-lt (is_row id p.plan_id p.seq_id) s.0.pending found in
        let size : length u.0.pending
            ≡ length (delete_pending (is_row id p.plan_id p.seq_id) s.0.pending) =
          ap (λ t. length t.pending) is in
        omega arith

  -- `selected` are rows of the buffer.
  expire_selected :
      (selected : List (PendingEvent P)) (s : Session P × K)
      → ((n : ℕ) → env.uuid (env.uuid_text n) ≡ some n)
      → ((r : PendingEvent P) → Memᴰ r selected → Memᴰ r s.0.pending)
      → Yields
          (expire_rows env sink (map (row_of env) selected) 0)
          s
          (λ n u. 0 < n → length u.0.pending < length s.0.pending)
  unfolding row_of expire_rows
  expire_selected [] s reads there = Yields-pure 0 s _ (λ h. absurd (omega arith))
  expire_selected (r ∷ rs) s reads there =
      Yields-mono _ s _ _
        (expire_rows-lt (row_of env r) (map (row_of env) rs) 0 s r (there r (Memᴰ.head refl))
          (reads r.order_id, refl, refl))
        λ n u h _. h

module _ {P K : Type 0} (env : Platform P) (sink : EventEnvelope → Exec K Unit)
    (locked : PendingEvent P → Bool) (max_age limit : ℤ) where
  expire_body-lt :
      (s : Session P × K)
      → ((n : ℕ) → env.uuid (env.uuid_text n) ≡ some n)
      → Yields
          (expire_body env sink locked max_age limit)
          s
          (λ n u. 0 < n → length u.0.pending < length s.0.pending)
  unfolding expire_body
  expire_body-lt s reads =
      Yields-bind _ _ s _ _ (Yields-lift _ s _ (Yields-select env locked max_age limit s.0))
        λ rows u ((tables, is), _).
          rw (is, sym tables)
            (expire_selected env sink (overdue locked (pos_part limit) s.0.now max_age u.0.pending)
              u reads λ r m. overdue-head locked (pos_part limit) s.0.now max_age u.0.pending r m)

  pub expire_pending-lt :
      (s s' : Session P × K) (n : ℕ)
      → ((n : ℕ) → env.uuid (env.uuid_text n) ≡ some n)
      → expire_pending env sink locked max_age limit s ≡ (ok n, s')
      → 0 < n
      → length s'.0.pending < length s.0.pending
  unfolding expire_pending
  expire_pending-lt s s' n reads h some_ =
      let (u, tables, _, ran, end, _) = begin_sinking_ok _ s s' n h in
      rw (end, sym tables) (Yields-ok _ _ _ n (expire_body-lt (u, s.1) reads) ran some_)
