-- ===== src/Db/Expiry/Selects.antt =====
-- server/internal/db/postgres.go, ExpirePending: what a SELECT that succeeds returns.
use mathlib.Core.List.{Memᴰ}
use mathlib.Core.Path.{subst}
use distribuid_system_simula.Prelude.{
  ℕ, suc, Bool, true, false, not, ◌&&◌, List, [], ◌∷◌, map, ◌≡◌, refl, sym, ap, ◌∙◌, ◌<◌, ◌≤◌,
  length,
}
use distribuid_system_simula.Prelude.Int.{ℤ, pos_part}
use distribuid_system_simula.Prelude.Select.{keep-Mem, sort_by-Mem, take-all, length-take}
use distribuid_system_simula.Exec.{Error}
use distribuid_system_simula.Exec.Yields.{
  Yields, Post, Yields-pure, Yields-gets, Yields-bind, Yields-within, Yields-raise,
}
use distribuid_system_simula.Db.Platform.{Platform}
use distribuid_system_simula.Db.Tables.{PendingEvent, Session, Fault, fine, lost, unacked}
use distribuid_system_simula.Db.Statements.{answer, later, request, check}
use distribuid_system_simula.Db.Expiry.{row_of, is_overdue, overdue, select_overdue}

module _ {P : Type 0} where
  pub Yields-request :
      (s : Session P) → Yields request s (λ _ u. (u.tables ≡ s.tables) × (u.now ≡ s.now))
  unfolding request
  Yields-request s = record { post = answered s.faults }
    where
      answered :
          (fs : List Fault)
          → Post
              (answer fs)
              (record s { faults = later s.faults })
              (λ _ u. (u.tables ≡ s.tables) × (u.now ≡ s.now))
      answered [] = (refl, refl)
      answered (fine ∷ _) = (refl, refl)
      answered (lost _ ∷ _) = tt
      answered (unacked _ ∷ _) = tt

  pub Yields-check : (b : Bool) (e : Error) (s : Session P) → Yields (check b e) s (λ _ u. u ≡ s)
  unfolding check
  Yields-check true e s = Yields-pure tt s _ refl
  Yields-check false e s = Yields-raise e s _

  -- Where the limit cuts nothing off, every row that the SELECT asks for is selected.
  pub overdue-Mem :
      (locked : PendingEvent P → Bool) (limit now : ℕ) (max_age : ℤ) (rs : List (PendingEvent P))
      (r : PendingEvent P)
      → length (overdue locked limit now max_age rs) < limit
      → Memᴰ r rs
      → (is_overdue now max_age r && not (locked r)) ≡ true
      → Memᴰ r (overdue locked limit now max_age rs)
  unfolding overdue
  overdue-Mem locked limit now max_age rs r few m h =
      subst (Memᴰ r) (sym (take-all limit _ few))
        (keep-Mem _ r _ (sort_by-Mem (λ r. r.received_at) r rs m) h)

  pub length-overdue :
      (locked : PendingEvent P → Bool) (limit now : ℕ) (max_age : ℤ) (rs : List (PendingEvent P))
      → length (overdue locked limit now max_age rs) ≤ limit
  unfolding overdue
  length-overdue locked limit now max_age rs = length-take limit _

module _ {P : Type 0} (env : Platform P) where
  pub length-map_row : (rs : List (PendingEvent P)) → length (map (row_of env) rs) ≡ length rs
  length-map_row [] = refl
  length-map_row (r ∷ rs) = ap suc (length-map_row rs)

  pub Mem-map_row :
      (r : PendingEvent P) (rs : List (PendingEvent P))
      → Memᴰ r rs
      → Memᴰ (row_of env r) (map (row_of env) rs)
  Mem-map_row r [] m = elim m [ ]
  Mem-map_row r (x ∷ rs) (Memᴰ.head e) = Memᴰ.head (ap (row_of env) e)
  Mem-map_row r (x ∷ rs) (Memᴰ.tail m) = Memᴰ.tail (Mem-map_row r rs m)

  pub Yields-select :
      (locked : PendingEvent P → Bool) (max_age limit : ℤ) (s : Session P)
      → Yields (select_overdue env locked max_age limit) s (λ rows u.
        (u.tables ≡ s.tables)
        × (rows ≡ map (row_of env) (overdue locked (pos_part limit) s.now max_age s.pending)))
  unfolding select_overdue
  Yields-select locked max_age limit s = Yields-within _ _ s _ (
      Yields-bind _ _ s _ _ (Yields-request s) λ _ u (tables, clock).
        Yields-bind _ _ u _ _ (Yields-check _ _ u) λ _ v same.
          Yields-bind _ _ v (λ n w. (n ≡ s.now) × (w.tables ≡ s.tables)) _
            (Yields-gets _ v _ (ap (λ x. x.now) same ∙ clock, ap (λ x. x.tables) same ∙ tables))
            λ n w (is_now, kept).
              Yields-bind _ _ w
                (λ rs x. (rs ≡ overdue locked (pos_part limit) n max_age w.pending) × (x ≡ w)) _
                (Yields-gets _ w _ (refl, refl))
                λ rs x (is, same').
                  Yields-pure _ x _ (ap (λ y. y.tables) same' ∙ kept, rw (is, is_now, kept) refl))
