-- ===== src/Db/Invariant/Decisions.antt =====
-- How the decisions on other events change when an event is applied.
use mathlib.Core.Path.{subst}
use text.Mathlib.TextPositions.{eq_refl}
use distribuid_system_simula.Prelude.{
  ℕ, zero, suc, String, true, false, ◌==◌, eq_iff, ◌&&◌, ◌≡◌, ◌⊎◌, inl, inr, arith, Bool-cases,
}
use distribuid_system_simula.Prelude.Int.{
  leb_ℤ-suc_right, leb_ℤ-refl, ℤ, pos, negsuc, suc_ℤ, leb_ℤ, ltb_ℤ, eqb_ℤ, eqb_ℤ_iff, leb_ℤ-suc_ℤ,
}
use distribuid_system_simula.Models.{status_aborted}
use distribuid_system_simula.Db.Repository.{add_drained}
use distribuid_system_simula.Sequencing.{
  Outcome, apply, duplicate, buffer, plan_mismatch, OrderState, decide,
}

-- The state of an order after its event `seq` was written.
abbrev pub written : String → ℤ → String → OrderState
written plan seq status = record { exists = true; plan_id = plan; last_seq = seq; status = status }

abbrev pub IsWaiting : Outcome → Type 0
IsWaiting o = (o ≡ buffer) ⊎ (o ≡ plan_mismatch) ⊎ (o ≡ apply)

pub decide-next :
    (plan status : String) (seq : ℤ)
    → (status == status_aborted) ≡ false
    → decide (written plan seq status) plan (suc_ℤ seq) ≡ apply
unfolding decide
decide-next plan status seq h =
    rw (eq_refl, h, leb_ℤ-suc_ℤ seq) (ground (arith, eqb_ℤ_iff (suc_ℤ seq) (suc_ℤ seq)))

gap :
    (q last : ℤ)
    → leb_ℤ q last ≡ false
    → eqb_ℤ q (suc_ℤ last) ≡ false
    → leb_ℤ q (suc_ℤ last) ≡ false
gap q (pos n) h e = ground arith
gap q (negsuc zero) h e = ground arith
gap q (negsuc (suc n)) h e = ground arith

beyond-next :
    (last seq q : ℤ)
    → eqb_ℤ seq (suc_ℤ last) ≡ true
    → leb_ℤ q last ≡ false
    → eqb_ℤ q seq ≡ false
    → leb_ℤ q seq ≡ false
beyond-next last seq q e l n =
    let p = (eqb_ℤ_iff seq (suc_ℤ last)).0 e in rw p (gap q last l (rw p at n))

beyond-first :
    (seq q : ℤ)
    → eqb_ℤ seq (pos 1) ≡ true
    → ltb_ℤ (pos 0) q ≡ true
    → eqb_ℤ q seq ≡ false
    → leb_ℤ q seq ≡ false
beyond-first seq q e l n = ground arith

-- Where `seq` is next, any other event of the plan that waits lies beyond it.
beyond :
    (s : OrderState) (plan : String) (seq q : ℤ)
    → decide s plan seq ≡ apply
    → ltb_ℤ (pos 0) q ≡ true
    → eqb_ℤ q seq ≡ false
    → IsWaiting (decide s plan q)
    → leb_ℤ q seq ≡ false
unfolding decide
beyond s plan seq q h q_pos ne w = ground (arith, beyond-next s.last_seq seq q, beyond-first seq q)

written-IsWaiting :
    (plan status : String) (seq q : ℤ)
    → (status == status_aborted) ≡ false
    → leb_ℤ q seq ≡ false
    → IsWaiting (decide (written plan seq status) plan q)
unfolding decide
written-IsWaiting plan status seq q live l = rw (eq_refl, live, l) (ground arith)

-- Applying an event leaves every other waiting event waiting, or makes it the next one.
pub decide-after_write :
    (s : OrderState) (plan status : String) (seq : ℤ) (p : String) (q : ℤ)
    → decide s plan seq ≡ apply
    → (status == status_aborted) ≡ false
    → ltb_ℤ (pos 0) q ≡ true
    → (p == plan && eqb_ℤ q seq) ≡ false
    → IsWaiting (decide s p q)
    → IsWaiting (decide (written plan seq status) p q)
decide-after_write s plan status seq p q h live q_pos ne w = elim (Bool-cases (plan == p)) [
  | inl same ↦
      subst
        (λ x.
          (x == plan && eqb_ℤ q seq) ≡ false
          → IsWaiting (decide s x q)
          → IsWaiting (decide (written plan seq status) x q))
        ((eq_iff plan p).0 same)
        (λ n v.
          written-IsWaiting plan status seq q live
            (beyond s plan seq q h q_pos (rw eq_refl at n) v))
        ne w
  | inr other ↦ inr (inl (unfold decide in rw other))
]

-- An order has one next event.
pub decide_unique :
    (s : OrderState) (plan : String) (seq : ℤ) (p : String) (q : ℤ)
    → s.exists ≡ true
    → decide s plan seq ≡ apply
    → decide s p q ≡ apply
    → (p == plan && eqb_ℤ q seq) ≡ true
unfolding decide
decide_unique s plan seq p q there h k = ground (
  arith,
  eq_iff s.plan_id plan,
  eq_iff s.plan_id p,
  eq_iff p plan,
  eqb_ℤ_iff seq (suc_ℤ s.last_seq),
  eqb_ℤ_iff q (suc_ℤ s.last_seq),
  eqb_ℤ_iff q seq,
)

-- The next event follows the last one.
pub decide-suc_ℤ :
    (s : OrderState) (plan : String) (seq : ℤ)
    → (s.exists ≡ false → s.last_seq ≡ pos 0)
    → decide s plan seq ≡ apply
    → seq ≡ suc_ℤ s.last_seq
unfolding decide
decide-suc_ℤ s plan seq zero_value h =
    ground (arith, eqb_ℤ_iff seq (suc_ℤ s.last_seq), eqb_ℤ_iff seq (pos 1), zero_value)

pub decide-owner :
    (s : OrderState) (plan : String) (seq : ℤ)
    → decide s plan seq ≡ apply
    → s.exists ≡ true
    → s.plan_id ≡ plan
unfolding decide
decide-owner s plan seq h there = ground (arith, eq_iff s.plan_id plan)

-- What lies below the next event was applied.
pub decide-applied :
    (s : OrderState) (plan : String) (seq last : ℤ)
    → s.exists ≡ true
    → decide s plan (suc_ℤ last) ≡ apply
    → s.last_seq ≡ last
    → leb_ℤ seq last ≡ true
    → decide s plan seq ≡ duplicate
unfolding decide
decide-applied s plan seq last there ready e h =
    let below : leb_ℤ seq s.last_seq ≡ true = rw e h in ground arith

pub leb_ℤ-add_drained : (seq : ℤ) (n : ℕ) → leb_ℤ seq (add_drained seq n) ≡ true
leb_ℤ-add_drained seq zero = leb_ℤ-refl seq
leb_ℤ-add_drained seq (suc n) = leb_ℤ-suc_right seq (add_drained seq n) (leb_ℤ-add_drained seq n)
