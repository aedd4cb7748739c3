-- ===== src/Db/Outbox/Eligible.antt =====
-- server/internal/db/outbox.go, ClaimOutbox: which entries it hands out.
use mathlib.Core.List.{Memᴰ}
use mathlib.Core.Path.{subst}
use distribuid_system_simula.Prelude.{
  Bool-cases, ℕ, Bool, true, false, Option, none, some, List, [], ◌∷◌, map, length, ◌≡◌, inl, inr,
  refl, sym, ap, ◌≤◌, ◌<◌, All, All-map, arith, leb,
}
use distribuid_system_simula.Prelude.Int.{ℤ, pos_part}
use distribuid_system_simula.Prelude.Select.{keep-Mem, sort_by-Mem, take-all}
use distribuid_system_simula.Exec.{ok}
use distribuid_system_simula.Db.Platform.{Platform}
use distribuid_system_simula.Db.Tables.{OutboxRow, Session}
use distribuid_system_simula.Db.Outbox.{OutboxEntry, entry_of, claim_outbox}
use distribuid_system_simula.Db.Outbox.Rows.{
  heads, is_claimable, is_waiting, is_free, is_null, any, precedes,
}
use distribuid_system_simula.Db.Outbox.Selected.{any-Mem, length-heads}
use distribuid_system_simula.Db.Outbox.Heads.{conflict}
use distribuid_system_simula.Db.Outbox.Claims.{
  claim_outbox-Claim, claim_outbox-IsClaimable, length-map_entries,
}

null_none : (o : Option ℕ) → is_null o ≡ true → o ≡ none
null_none none h = refl
null_none (some n) h = cc

free-over : (now until : ℕ) (o : Option ℕ) → is_free now o ≡ true → o ≡ some until → until < now
free-over now until o h e = let k = rw e at h in ground arith

over-free :
    (now : ℕ) (o : Option ℕ) → ((until : ℕ) → o ≡ some until → until < now) → is_free now o ≡ true
over-free now none h = refl
over-free now (some until) h = let less = h until refl in ground arith

module _ {P : Type 0} where
  -- The row is neither delivered nor dead.
  pub record IsOpen (r : OutboxRow P) : Type 0 where
    pub not_processed : r.processed ≡ false
    pub not_dead : r.dead_at ≡ none

  -- The row may be sent now: it is open and due, its lease, if it has one, is over, and no earlier row of
  -- its order is open.
  pub record IsEligible (now : ℕ) (rows : List (OutboxRow P)) (r : OutboxRow P) : Type 0 where
    pub is_open : IsOpen r
    pub due : r.next_attempt_at ≤ now
    pub unleased : (until : ℕ) → r.lease_until ≡ some until → until < now
    pub first :
        (q : OutboxRow P)
        → Memᴰ q rows
        → q.aggregate_id ≡ r.aggregate_id
        → q.position < r.position
        → IsOpen q
        → ⊥

  IsOpen-intro : (r : OutboxRow P) → is_waiting r ≡ true → IsOpen r
  unfolding is_waiting
  IsOpen-intro r h = record {
    not_processed = ground arith;
    not_dead = null_none r.dead_at (ground arith);
  }

  IsOpen-waits : (r : OutboxRow P) → IsOpen r → is_waiting r ≡ true
  unfolding is_waiting
  IsOpen-waits r o = rw (o.not_processed, o.not_dead) refl

  any-none :
      (f : OutboxRow P → Bool) (rows : List (OutboxRow P))
      → ((q : OutboxRow P) → Memᴰ q rows → f q ≡ true → ⊥)
      → any f rows ≡ false
  unfolding any
  any-none f [] h = refl
  any-none f (q ∷ rows) h = elim (Bool-cases (f q)) [
    | inl hit ↦ absurd (h q (Memᴰ.head refl) hit)
    | inr miss ↦ rw miss (any-none f rows (λ x m. h x (Memᴰ.tail m)))
  ]

  precedes-parts :
      (r q : OutboxRow P)
      → precedes r q ≡ true
      → (q.aggregate_id ≡ r.aggregate_id) × (q.position < r.position) × (is_waiting q ≡ true)
  unfolding precedes
  precedes-parts r q h = (ground arith, ground arith, ground arith)

  parts-precedes :
      (r q : OutboxRow P)
      → q.aggregate_id ≡ r.aggregate_id
      → q.position < r.position
      → is_waiting q ≡ true
      → precedes r q ≡ true
  unfolding precedes
  parts-precedes r q a p w = ground arith

  IsEligible-intro :
      (now : ℕ) (rows : List (OutboxRow P)) (r : OutboxRow P)
      → is_claimable now rows r ≡ true
      → IsEligible now rows r
  unfolding is_claimable
  IsEligible-intro now rows r h = record {
    is_open = IsOpen-intro r (ground arith);
    due = ground arith;
    unleased = λ until e. free-over now until r.lease_until (ground arith) e;
    first = λ q m a p o.
        conflict (any-Mem (precedes r) q rows m (parts-precedes r q a p (IsOpen-waits q o)))
          (ground arith);
  }

  IsEligible-claimable :
      (now : ℕ) (rows : List (OutboxRow P)) (r : OutboxRow P)
      → IsEligible now rows r
      → is_claimable now rows r ≡ true
  unfolding is_claimable
  IsEligible-claimable now rows r e =
      let due : leb r.next_attempt_at now ≡ true = let d = e.due in ground arith in
      rw
        (
          IsOpen-waits r e.is_open,
          due,
          over-free now r.lease_until e.unleased,
          any-none (precedes r) rows
              (λ q m h. let (a, p, w) = precedes-parts r q h in e.first q m a p (IsOpen-intro q w)),
        )
        refl

module _ {P : Type 0} (env : Platform P) where
  Mem-map_entries :
      (r : OutboxRow P) (rows : List (OutboxRow P))
      → Memᴰ r rows
      → Memᴰ (entry_of env r) (map (entry_of env) rows)
  Mem-map_entries r [] m = elim m [ ]
  Mem-map_entries r (x ∷ rows) (Memᴰ.head e) = Memᴰ.head (ap (entry_of env) e)
  Mem-map_entries r (x ∷ rows) (Memᴰ.tail m) = Memᴰ.tail (Mem-map_entries r rows m)

  heads-all :
      (locked : ℕ → Bool) (limit now : ℕ) (rows : List (OutboxRow P)) (r : OutboxRow P)
      → length (heads locked limit now rows) < limit
      → Memᴰ r rows
      → IsEligible now rows r
      → locked r.id ≡ false
      → Memᴰ r (heads locked limit now rows)
  unfolding heads
  heads-all locked limit now rows r few m e free = subst (Memᴰ r) (sym (take-all limit _ few)) (
      keep-Mem _ r _ (sort_by-Mem (λ r. r.position) r rows m)
        (rw (IsEligible-claimable now rows r e, free) refl))

  -- When `ClaimOutbox` returns no error, it hands out at most `limit` entries, each of a row of the
  -- outbox that is neither delivered nor dead, is due, has no running lease, is not locked, and has no
  -- earlier row of its order that is neither delivered nor dead.
  pub claim_outbox-IsEligible :
      (locked : ℕ → Bool) (limit lease : ℤ) (s s' : Session P) (entries : List (OutboxEntry P))
      → claim_outbox env locked limit lease s ≡ (ok entries, s')
      → (length entries ≤ pos_part limit)
        × All
            (λ e.
              (r : OutboxRow P) × Memᴰ r s.outbox
              × (e ≡ entry_of env r)
              × IsEligible s.now s.outbox r
              × (locked r.id ≡ false))
            entries
  claim_outbox-IsEligible locked limit lease s s' entries h =
      let rows = heads locked (pos_part limit) s.now s.outbox in
      let c = claim_outbox-Claim env locked limit lease s s' entries h in
      (
        rw (c.handed, length-map_entries env rows)
            (length-heads locked (pos_part limit) s.now s.outbox),
        All-map entries
            (λ e (r, there, same, claimable, free).
              (r, there, same, IsEligible-intro s.now s.outbox r claimable, free))
            (claim_outbox-IsClaimable env locked limit lease s s' entries h),
      )

  -- When `ClaimOutbox` returns no error and fewer than `limit` entries, it hands out every row of the
  -- outbox that is neither delivered nor dead, is due, has no running lease, is not locked, and has no
  -- earlier row of its order that is neither delivered nor dead.
  pub claim_outbox_complete :
      (locked : ℕ → Bool) (limit lease : ℤ) (s s' : Session P) (entries : List (OutboxEntry P))
      (r : OutboxRow P)
      → claim_outbox env locked limit lease s ≡ (ok entries, s')
      → length entries < pos_part limit
      → Memᴰ r s.outbox
      → IsEligible s.now s.outbox r
      → locked r.id ≡ false
      → Memᴰ (entry_of env r) entries
  claim_outbox_complete locked limit lease s s' entries r h few m e free =
      let rows = heads locked (pos_part limit) s.now s.outbox in
      let c = claim_outbox-Claim env locked limit lease s s' entries h in
      let few' : length rows < pos_part limit =
        rw (sym (length-map_entries env rows), sym c.handed) few in
      rw c.handed
        (Mem-map_entries r rows (heads-all locked (pos_part limit) s.now s.outbox r few' m e free))
