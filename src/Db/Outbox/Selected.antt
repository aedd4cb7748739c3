-- ===== src/Db/Outbox/Selected.antt =====
-- Which rows of the outbox a claim selects, and what its UPDATE does to them.
use mathlib.Core.List.{Memᴰ}
use distribuid_system_simula.Prelude.{
  ℕ, Bool, true, false, List, [], ◌∷◌, ◌≡◌, refl, sym, ap, arith, if◌then◌else◌, length, ◌≤◌,
}
use distribuid_system_simula.Prelude.Select.{sort_by, Mem-keep, Mem-take, Mem-sort_by, length-take}
use distribuid_system_simula.Db.Tables.{OutboxRow}
use distribuid_system_simula.Db.Outbox.Rows.{any, update_rows, is_claimable, heads}

module _ {P : Type 0} where
  pub any-Mem :
      (f : OutboxRow P → Bool) (r : OutboxRow P) (rows : List (OutboxRow P))
      → Memᴰ r rows
      → f r ≡ true
      → any f rows ≡ true
  unfolding any
  any-Mem f r [] m h = elim m [ ]
  any-Mem f r (x ∷ rest) (Memᴰ.head e) h = rw (sym e, h) refl
  any-Mem f r (x ∷ rest) (Memᴰ.tail m) h = ground (arith, any-Mem f r rest m h)

  pub Mem-update :
      (f : OutboxRow P → Bool) (g : OutboxRow P → OutboxRow P) (r : OutboxRow P)
      (rows : List (OutboxRow P))
      → Memᴰ r rows
      → Memᴰ (if f r then g r else r) (update_rows f g rows)
  unfolding update_rows
  Mem-update f g r [] m = elim m [ ]
  Mem-update f g r (x ∷ rest) (Memᴰ.head e) = Memᴰ.head (ap (λ y. if f y then g y else y) e)
  Mem-update f g r (x ∷ rest) (Memᴰ.tail m) = Memᴰ.tail (Mem-update f g r rest m)

  pub update-Mem :
      (f : OutboxRow P → Bool) (g : OutboxRow P → OutboxRow P) (k : OutboxRow P)
      (rows : List (OutboxRow P))
      → Memᴰ k (update_rows f g rows)
      → (r : OutboxRow P) × Memᴰ r rows × (k ≡ (if f r then g r else r))
  unfolding update_rows
  update-Mem f g k [] m = elim m [ ]
  update-Mem f g k (x ∷ rest) (Memᴰ.head e) = (x, Memᴰ.head refl, e)
  update-Mem f g k (x ∷ rest) (Memᴰ.tail m) =
      let (r, there, e) = update-Mem f g k rest m in (r, Memᴰ.tail there, e)

module _ {P : Type 0} where
  -- A head is a row of the outbox that may be claimed.
  pub heads-IsClaimable :
      (locked : ℕ → Bool) (limit now : ℕ) (rows : List (OutboxRow P)) (h : OutboxRow P)
      → Memᴰ h (heads locked limit now rows)
      → Memᴰ h rows × (is_claimable now rows h ≡ true) × (locked h.id ≡ false)
  unfolding heads
  heads-IsClaimable locked limit now rows h m =
      let (there, both) = Mem-keep _ h (sort_by (λ r. r.position) rows) (Mem-take limit h _ m) in
      (Mem-sort_by (λ r. r.position) h rows there, ground arith, ground arith)

  pub length-heads :
      (locked : ℕ → Bool) (limit now : ℕ) (rows : List (OutboxRow P))
      → length (heads locked limit now rows) ≤ limit
  unfolding heads
  length-heads locked limit now rows = length-take limit _
