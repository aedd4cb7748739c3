-- ===== src/Db/Outbox/Claims.antt =====
-- server/internal/db/outbox.go, ClaimOutbox: the entries that it hands out, and their leases.
use mathlib.Core.List.{Memᴰ}
use distribuid_system_simula.Prelude.{
  suc, inr, ◌∙◌, inl, Bool-cases, ℕ, ◌≤◌, Bool, true, false, List, [], ◌∷◌, map, ◌≡◌, ◌≢◌, refl,
  sym, ap, length, All,
}
use distribuid_system_simula.Prelude.Int.{ℤ, pos, pos_part, leb_ℤ, add_duration}
use distribuid_system_simula.Exec.{ok, ◌>>=◌}
use distribuid_system_simula.Db.Platform.{Platform}
use distribuid_system_simula.Db.Tables.{OutboxRow, Session}
use distribuid_system_simula.Db.Statements.{check, write}
use distribuid_system_simula.Db.Outbox.{OutboxEntry, entry_of, claim_heads, claim_outbox}
use distribuid_system_simula.Db.Outbox.Rows.{
  heads, is_claimable, has_id, update_outbox, update_rows,
}
use distribuid_system_simula.Db.Outbox.Selected.{Mem-update, update-Mem, heads-IsClaimable}
use distribuid_system_simula.Db.Outbox.Autocommit.{autocommit_ok}
use distribuid_system_simula.Db.Outbox.Heads.{leased, leased-claimable, apart, same_id}

module _ {P : Type 0} (env : Platform P) where
  -- A claim that returns no error hands out the heads, and has leased them.
  pub record Claim (locked : ℕ → Bool) (limit lease : ℤ) (s s' : Session P)
      (entries : List (OutboxEntry P)) : Type 0 where
    pub handed : entries ≡ map (entry_of env) (heads locked (pos_part limit) s.now s.outbox)
    pub tables_after :
        s'.tables
        ≡ update_outbox
            (has_id (heads locked (pos_part limit) s.now s.outbox))
            (leased (add_duration s.now lease))
            s.tables

  claim_heads-Claim :
      (locked : ℕ → Bool) (limit lease : ℤ) (s s' u : Session P) (entries : List (OutboxEntry P))
      → claim_heads env locked limit lease s ≡ (ok entries, u)
      → s'.tables ≡ u.tables
      → Claim locked limit lease s s' entries
  unfolding claim_heads check write ◌>>=◌
  claim_heads-Claim locked limit lease s s' u entries ran same =
      elim (Bool-cases (leb_ℤ (pos 0) limit)) [
        | inl fits ↦
            let ran' = rw fits at ran in
            record { handed = cc; tables_after = same ∙ sym (ap (λ p. p.1.tables) ran') }
        | inr negative ↦ let refused = rw negative at ran in absurd cc
      ]

  pub claim_outbox-Claim :
      (locked : ℕ → Bool) (limit lease : ℤ) (s s' : Session P) (entries : List (OutboxEntry P))
      → claim_outbox env locked limit lease s ≡ (ok entries, s')
      → Claim locked limit lease s s' entries
  unfolding claim_outbox
  claim_outbox-Claim locked limit lease s s' entries h =
      let (ran, same) = autocommit_ok _ (claim_heads env locked limit lease) s s' entries h in
      claim_heads-Claim locked limit lease s s' _ entries ran same

  pub All-map_entries :
      (Q : OutboxEntry P → Type 0) (rows : List (OutboxRow P))
      → ((r : OutboxRow P) → Memᴰ r rows → Q (entry_of env r))
      → All Q (map (entry_of env) rows)
  All-map_entries Q [] f = tt
  All-map_entries Q (r ∷ rest) f =
      (f r (Memᴰ.head refl), All-map_entries Q rest (λ x m. f x (Memᴰ.tail m)))

  pub length-map_entries :
      (rows : List (OutboxRow P)) → length (map (entry_of env) rows) ≡ length rows
  length-map_entries [] = refl
  length-map_entries (r ∷ rest) = ap suc (length-map_entries rest)

  excluded :
      (locked locked' : ℕ → Bool) (limit limit' : ℕ) (lease : ℤ) (now now' : ℕ)
      (rows : List (OutboxRow P)) (h k : OutboxRow P)
      → ((a b : OutboxRow P) → Memᴰ a rows → Memᴰ b rows → a.position ≡ b.position → a.id ≡ b.id)
      → Memᴰ h (heads locked limit now rows)
      → Memᴰ k (
          heads locked' limit' now' (
            update_rows
              (has_id (heads locked limit now rows))
              (leased (add_duration now lease))
              rows))
      → now' ≤ add_duration now lease
      → h.aggregate_id ≢ k.aggregate_id
  excluded locked locked' limit limit' lease now now' rows h k numbered m m' early e =
      let (h_in, h_ok, _) = heads-IsClaimable locked limit now rows h m in
      let (k_in, k_ok, _) = heads-IsClaimable locked' limit' now' _ k m' in
      let (r, r_in, is) = update-Mem _ _ k rows k_in in
      elim (Bool-cases (has_id (heads locked limit now rows) r)) [
        | inl hit ↦ leased-claimable now' (add_duration now lease) _ r early (rw (is, hit) at k_ok)
        | inr miss ↦
            apart now now' rows _ h r _ _ h_ok (rw (is, miss) at k_ok) h_in r_in
              (Mem-update _ (leased (add_duration now lease)) h rows h_in)
              (e ∙ ap (λ x. x.aggregate_id) (rw miss at is))
              λ same. same_id (heads locked limit now rows) h r m (numbered h r h_in r_in same) miss
      ]

  -- The entries that a claim hands out are those of rows that pass the WHERE clause.
  pub claim_outbox-IsClaimable :
      (locked : ℕ → Bool) (limit lease : ℤ) (s s' : Session P) (entries : List (OutboxEntry P))
      → claim_outbox env locked limit lease s ≡ (ok entries, s')
      → All
          (λ e.
            (r : OutboxRow P) × Memᴰ r s.outbox
            × (e ≡ entry_of env r)
            × (is_claimable s.now s.outbox r ≡ true)
            × (locked r.id ≡ false))
          entries
  claim_outbox-IsClaimable locked limit lease s s' entries h =
      let c = claim_outbox-Claim locked limit lease s s' entries h in
      rw c.handed (
        All-map_entries _ _ (λ r m.
          let (there, claimable, free) =
            heads-IsClaimable locked (pos_part limit) s.now s.outbox r m in
          (r, there, refl, claimable, free)))

  -- With UUIDs that print apart and positions that tell rows apart: on the tables that a claim has
  -- left, and while its lease runs, a claim that returns no error hands out no entry of the orders
  -- of the first one's entries, neither the claimed entry nor a later one.
  pub claim_outbox_exclusive :
      (locked locked' : ℕ → Bool) (limit limit' lease lease' : ℤ) (s s' u u' : Session P)
      (entries entries' : List (OutboxEntry P))
      → ((a b : ℕ) → env.uuid_text a ≡ env.uuid_text b → a ≡ b)
      → ((a b : OutboxRow P)
          → Memᴰ a s.outbox
          → Memᴰ b s.outbox
          → a.position ≡ b.position
          → a.id ≡ b.id)
      → claim_outbox env locked limit lease s ≡ (ok entries, s')
      → u.tables ≡ s'.tables
      → u.now ≤ add_duration s.now lease
      → claim_outbox env locked' limit' lease' u ≡ (ok entries', u')
      → All (λ e. All (λ f. e.aggregate_id ≢ f.aggregate_id) entries') entries
  unfolding update_outbox entry_of
  claim_outbox_exclusive locked locked' limit limit' lease lease' s s' u u' entries entries'
        injective numbered h same early h' =
      let c = claim_outbox-Claim locked limit lease s s' entries h in
      let c' = claim_outbox-Claim locked' limit' lease' u u' entries' h' in
      rw (c.handed, c'.handed)
        (All-map_entries _ _ λ r m. All-map_entries _ _ λ k m' e.
          excluded locked locked' (pos_part limit) (pos_part limit') lease s.now u.now s.outbox r k
            numbered m (rw (ap (λ t. t.outbox) (same ∙ c.tables_after)) at m') early
            (injective _ _ e))
