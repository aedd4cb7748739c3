-- ===== src/Db/Accepted.antt =====
-- server/pkg/models/event.go, Validate, against the CHECKs on the columns of init.sql.
use distribuid_system_simula.Prelude.{
  ℕ, suc, String, Bool, true, false, some, ◌≡◌, ◌⊎◌, inl, inr, refl, ◌==◌,
}
use distribuid_system_simula.Prelude.Int.{pos}
use distribuid_system_simula.Exec.{ok}
use distribuid_system_simula.Models.{
  EventEnvelope, event_type_abort_plan, status_aborted, status_from_event_type, validate,
}
use distribuid_system_simula.Models.Validity.{IsWellFormed-intro, pick, status-ne-aborted}
use distribuid_system_simula.Db.Statements.{status_allowed}

-- The status that the event gives an order passes the CHECK on orders.status, and is not that of an
-- aborted order; the seq_id passes the CHECK on pending_events.seq_id.
pub record IsAllowed (e : EventEnvelope) : Type 0 where
  pub status : status_allowed (status_from_event_type e.event_type) ≡ true
  pub not_aborted : (status_from_event_type e.event_type == status_aborted) ≡ false
  pub seq : ℕ
  pub positive : e.seq_id ≡ some (pos (suc seq))

pick-allowed :
    (a b c d e f : Bool)
    → (pick a b c d e f == "") ≡ false
    → status_allowed (pick a b c d e f) ≡ true
unfolding pick status_allowed
pick-allowed true b c d e f h = refl
pick-allowed false true c d e f h = refl
pick-allowed false false true d e f h = refl
pick-allowed false false false true e f h = refl
pick-allowed false false false false true f h = refl
pick-allowed false false false false false true h = refl
pick-allowed false false false false false false h = absurd cc

known-allowed :
    (t : String)
    → (status_from_event_type t == "") ≡ false
    → status_allowed (status_from_event_type t) ≡ true
unfolding status_from_event_type pick
known-allowed t h = pick-allowed _ _ _ _ _ _ h

-- An event that `Validate` accepts is an ABORT_PLAN, or gives its order a status that the CHECK on
-- orders.status allows and that is not "aborted", and has a seq_id of at least 1, as the CHECK on
-- pending_events.seq_id demands.
pub validate-IsAllowed :
    (is_uuid : String → Bool) (e : EventEnvelope)
    → validate is_uuid e ≡ ok tt
    → ((e.event_type == event_type_abort_plan) ≡ true) ⊎ IsAllowed e
validate-IsAllowed is_uuid e h = elim (IsWellFormed-intro is_uuid e h).kind [
  | inl abort ↦ inl abort
  | inr q ↦ inr (record {
    status = known-allowed e.event_type q.known;
    not_aborted = status-ne-aborted e.event_type q.not_abort;
    seq = q.seq;
    positive = q.positive;
  })
]
