-- ===== src/Db/Outbox/Heads.antt =====
-- server/internal/db/outbox.go, the CTE `heads` of ClaimOutbox: rows of one order.
use mathlib.Core.List.{Memᴰ}
use distribuid_system_simula.Prelude.{
  inr, inl, Bool-cases, ℕ, ◌≤◌, ◌<◌, ltb, arith, if◌then◌else◌, Bool, true, false, some, List, ◌≡◌,
  sym,
}
use distribuid_system_simula.Db.Tables.{OutboxRow}
use distribuid_system_simula.Db.Outbox.Rows.{
  is_claimable, has_id, any, precedes, is_waiting, is_free, is_id,
}
use distribuid_system_simula.Db.Outbox.Selected.{any-Mem}

pub conflict : {b : Bool} → b ≡ true → b ≡ false → ⊥
conflict h k = absurd (ground arith)

module _ {P : Type 0} where
  abbrev pub leased : ℕ → OutboxRow P → OutboxRow P
  leased until r = record r { lease_until = some until }

  pub claimable_parts :
      (now : ℕ) (rows : List (OutboxRow P)) (r : OutboxRow P)
      → is_claimable now rows r ≡ true
      → (is_waiting r ≡ true) × (is_free now r.lease_until ≡ true) × (any (precedes r) rows ≡ false)
  unfolding is_claimable
  claimable_parts now rows r h = (ground arith, ground arith, ground arith)

  precedes_lem :
      (r prev : OutboxRow P)
      → prev.aggregate_id ≡ r.aggregate_id
      → prev.position < r.position
      → is_waiting prev ≡ true
      → precedes r prev ≡ true
  unfolding precedes
  precedes_lem r prev e less waits = ground arith

  pub leased-claimable :
      (now until : ℕ) (rows : List (OutboxRow P)) (r : OutboxRow P)
      → now ≤ until
      → is_claimable now rows (leased until r) ≡ true
      → ⊥
  leased-claimable now until rows r early h =
      let (_, free, _) = claimable_parts now rows (leased until r) h in absurd (ground arith)

  pub same_id :
      (rows : List (OutboxRow P)) (h r : OutboxRow P)
      → Memᴰ h rows
      → h.id ≡ r.id
      → has_id rows r ≡ false
      → ⊥
  unfolding has_id
  same_id rows h r m e miss = conflict (any-Mem (λ x. is_id x.id r) h rows m (ground arith)) miss

  leased-waits :
      (until : ℕ) (r : OutboxRow P) → is_waiting r ≡ true → is_waiting (leased until r) ≡ true
  unfolding is_waiting
  leased-waits until r h = h

  -- Two claimable rows of one order have the same position.
  pub apart :
      (now now' : ℕ) (rows rows' : List (OutboxRow P)) (h k : OutboxRow P) (f : Bool) (until : ℕ)
      → is_claimable now rows h ≡ true
      → is_claimable now' rows' k ≡ true
      → Memᴰ h rows
      → Memᴰ k rows
      → Memᴰ (if f then leased until h else h) rows'
      → h.aggregate_id ≡ k.aggregate_id
      → (h.position ≡ k.position → ⊥)
      → ⊥
  apart now now' rows rows' h k f until h_ok k_ok h_in k_in h_in' e differ =
      let (h_waits, _, h_first) = claimable_parts now rows h h_ok in
      let (k_waits, _, k_first) = claimable_parts now' rows' k k_ok in
      elim (Bool-cases (ltb k.position h.position)) [
        | inl less ↦
            conflict
              (any-Mem (precedes h) k rows k_in (precedes_lem h k (sym e) (ground arith) k_waits))
              h_first
        | inr not_less ↦ elim (Bool-cases (ltb h.position k.position)) [
          | inl less ↦
              conflict (any-Mem (precedes k) _ rows' h_in' (blocks f until (ground arith) h_waits))
                k_first
          | inr not_more ↦ differ (ground arith)
        ]
      ]
    where
      blocks :
          (f : Bool) (until : ℕ)
          → h.position < k.position
          → is_waiting h ≡ true
          → precedes k (if f then leased until h else h) ≡ true
      blocks true until less waits =
          precedes_lem k (leased until h) e less (leased-waits until h waits)
      blocks false until less waits = precedes_lem k h e less waits
