-- ===== src/Sequencing.antt =====
-- server/internal/sequencing/sequencing.go: the ordering rules for plan events.
pub mod Rules
use distribuid_system_simula.Prelude.{String, Bool, true, false, ◌==◌, if◌then◌else◌}
use distribuid_system_simula.Prelude.Int.{ℤ, pos, suc_ℤ, leb_ℤ, eqb_ℤ}
use distribuid_system_simula.Models.{status_aborted, status_completed}

pub data Outcome : Type 0 where
  apply duplicate buffer discard plan_mismatch tombstone : Outcome

-- The texts of the constants, which label logs and metrics.
unfoldable pub outcome_text : Outcome → String
outcome_text apply = "APPLY"
outcome_text duplicate = "DUPLICATE"
outcome_text buffer = "BUFFER"
outcome_text discard = "DISCARD"
outcome_text plan_mismatch = "PLAN_MISMATCH"
outcome_text tombstone = "TOMBSTONE"

pub record OrderState : Type 0 where
  pub exists : Bool
  pub plan_id : String
  pub last_seq : ℤ
  pub status : String

-- The zero value: an order that does not exist yet.
abbrev pub no_order : OrderState
no_order = record { exists = false; plan_id = ""; last_seq = pos 0; status = "" }

-- `LastSeq + 1` does not wrap: it is read from an INTEGER column into a 64-bit int.
unfoldable pub decide : OrderState → String → ℤ → Outcome
decide s plan seq =
    if s.exists
    then (if s.plan_id == plan
        then (if s.status == status_aborted
            then discard
            else if leb_ℤ seq s.last_seq
            then duplicate
            else if eqb_ℤ seq (suc_ℤ s.last_seq)
            then apply
            else buffer)
        else plan_mismatch)
    else (if eqb_ℤ seq (pos 1) then apply else buffer)

unfoldable pub decide_abort : OrderState → String → Outcome
decide_abort s plan =
    if s.exists
    then (if s.plan_id == plan
        then (if s.status == status_aborted
            then duplicate
            else if s.status == status_completed
            then discard
            else apply)
        else plan_mismatch)
    else tombstone
