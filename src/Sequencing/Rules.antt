-- ===== src/Sequencing/Rules.antt =====
-- server/internal/sequencing/sequencing.go: what its ordering rules mean.
use distribuid_system_simula.Prelude.{String, true, false, eq_iff, ◌≡◌, ◌≢◌, ◌⊎◌, ◌↔◌, arith}
use distribuid_system_simula.Prelude.Int.{ℤ, pos, suc_ℤ, eqb_ℤ_iff, leb_ℤ-suc_ℤ}
use distribuid_system_simula.Models.{status_aborted}
use distribuid_system_simula.Sequencing.{apply, OrderState, decide}

-- The order accepts events of `plan`.
pub record IsOpen (s : OrderState) (plan : String) : Type 0 where
  pub there : s.exists ≡ true
  pub owner : s.plan_id ≡ plan
  pub live : s.status ≢ status_aborted

abbrev pub IsNext : OrderState → String → ℤ → Type 0
IsNext s plan seq =
    ((s.exists ≡ false) × (seq ≡ pos 1)) ⊎ (IsOpen s plan × (seq ≡ suc_ℤ s.last_seq))

-- An event is applied exactly when it is the next one: the first of an order that does not exist,
-- or the successor of the last applied one on an open order of the same plan.
pub decide-IsNext :
    (s : OrderState) (plan : String) (seq : ℤ) → (decide s plan seq ≡ apply) ↔ IsNext s plan seq
unfolding decide
decide-IsNext s plan seq = ground (
  arith,
  eq_iff s.plan_id plan,
  eq_iff s.status status_aborted,
  eqb_ℤ_iff seq (pos 1),
  eqb_ℤ_iff seq (suc_ℤ s.last_seq),
  leb_ℤ-suc_ℤ s.last_seq,
)
