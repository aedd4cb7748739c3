-- ===== src/Db/Frontier.antt =====
-- server/internal/db/postgres.go, ApplyEvent against an abstract order: the set of the seq_ids that
-- have arrived.
pub mod Received
pub mod Refines
use distribuid_system_simula.Prelude.{ℕ, suc, String, List, ◌≡◌, ◌↔◌, ◌<◌, All, false}
use distribuid_system_simula.Prelude.Int.{ℤ, pos}
use distribuid_system_simula.Models.{EventEnvelope}
use distribuid_system_simula.Db.Tables.{Tables}
use distribuid_system_simula.Db.Rows.{is_of_plan}
use distribuid_system_simula.Db.Effects.{order_state}
use distribuid_system_simula.Db.Reordering.{HasSeq}

-- The seq_ids 1, …, n have arrived, and n + 1 has not.
pub record IsFrontier (events : List EventEnvelope) (n : ℕ) : Type 0 where
  pub all_before : (k : ℕ) → k < n → HasSeq (pos (suc k)) events
  pub not_next : HasSeq (pos (suc n)) events → ⊥

-- The order does not exist yet, and no event of the plan waits for it.
pub record IsFresh {P : Type 0} (id : ℕ) (plan : String) (t : Tables P) : Type 0 where
  pub absent : (order_state id t).exists ≡ false
  pub no_rows : All (λ r. is_of_plan id plan r ≡ false) t.pending

-- The same seq_ids have arrived, in whatever order and number.
abbrev pub SameSeqs : List EventEnvelope → List EventEnvelope → Type 0
SameSeqs es es' = (q : ℤ) → HasSeq q es ↔ HasSeq q es'
