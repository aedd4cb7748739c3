-- ===== src/Db/Invariant.antt =====
-- What holds of the tables between two transactions of the repository.
pub mod Decisions
pub mod Write
pub mod Step
pub mod Seen
pub mod Drain
pub mod Buffer
pub mod Apply
pub mod Close
pub mod Abort
use distribuid_system_simula.Prelude.{
  ℕ, zero, suc, String, Bool, true, false, Option, none, some, List, [], ◌∷◌, ◌++◌, ◌==◌, ◌&&◌, not,
  ◌≡◌, ◌⊎◌, eqb, if◌then◌else◌, All,
}
use distribuid_system_simula.Prelude.Int.{ℤ, pos, negsuc, leb_ℤ, ltb_ℤ}
use distribuid_system_simula.Models.{EventEnvelope, event_type_abort_plan}
use distribuid_system_simula.Sequencing.{buffer, plan_mismatch, decide}
use distribuid_system_simula.Db.Platform.{Platform}
use distribuid_system_simula.Db.Tables.{PendingEvent, OutboxRow, Tables}
use distribuid_system_simula.Db.Effects.{order_state}

-- 1, 2, …, n
unfoldable pub one_to : ℤ → List ℤ
one_to (pos zero) = []
one_to (pos (suc n)) = one_to (pos n) ++ pos (suc n) ∷ []
one_to (negsuc n) = []

abbrev pub seq_list : Option ℤ → List ℤ
seq_list none = []
seq_list (some n) = n ∷ []

abbrev pub seqs_of : Option EventEnvelope → List ℤ
seqs_of none = []
seqs_of (some e) = seq_list e.seq_id

module _ {P : Type 0} (env : Platform P) where
  -- whether `r` notifies of a sequenced event of the order `id`
  abbrev pub is_of_order : ℕ → OutboxRow P → Bool
  is_of_order id r = eqb r.aggregate_id id && not (r.event_type == event_type_abort_plan)

  -- The seq_ids that the notifications of the order `id` carry, in the order of insertion, aborts
  -- left out.
  unfoldable pub notified : ℕ → List (OutboxRow P) → List ℤ
  notified id [] = []
  notified id (r ∷ rs) =
      let rest = notified id rs in
      if is_of_order id r then seqs_of (env.unmarshal r.payload) ++ rest else rest

  -- A row of the buffer holds a sequenced event under its own key.
  pub record IsBuffered (r : PendingEvent P) : Type 0 where
    pub event : EventEnvelope
    pub reads : env.unmarshal r.payload ≡ some event
    pub order : env.uuid event.order_id ≡ some r.order_id
    pub plan : event.plan_id ≡ r.plan_id
    pub seq : event.seq_id ≡ some r.seq_id
    pub positive : ltb_ℤ (pos 0) r.seq_id ≡ true
    pub not_abort : (event.event_type == event_type_abort_plan) ≡ false

  -- Decided again, the buffered event would be buffered again, or belongs to another plan.
  abbrev pub IsParked : Tables P → PendingEvent P → Type 0
  IsParked t r =
      (decide (order_state r.order_id t) r.plan_id r.seq_id ≡ buffer)
      ⊎ (decide (order_state r.order_id t) r.plan_id r.seq_id ≡ plan_mismatch)

  pub record Inv (t : Tables P) : Type 0 where
    -- each order has notified of each of its events once, in order, up to the last applied one
    pub ledger : (id : ℕ) → notified id t.outbox ≡ one_to (order_state id t).last_seq
    pub counted : (id : ℕ) → leb_ℤ (pos 0) (order_state id t).last_seq ≡ true
    -- no buffered event is ready to be applied, and none has been applied
    pub parked : All (λ r. IsBuffered r × IsParked t r) t.pending
