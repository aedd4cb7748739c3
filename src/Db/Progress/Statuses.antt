-- ===== src/Db/Progress/Statuses.antt =====
-- server/internal/db/postgres.go, the statuses that applyEvent writes, and the CHECK of init.sql.
use distribuid_system_simula.Prelude.{String, Bool, true, false, ◌==◌, ◌≡◌, refl, if◌then◌else◌}
use distribuid_system_simula.Models.{status_aborted, status_completed, status_from_event_type}
use distribuid_system_simula.Db.Statements.{status_allowed}

-- `status_from_event_type` over the results of its tests
choose : Bool → Bool → Bool → Bool → Bool → Bool → String
choose a b c d e f =
    if a
    then "pending"
    else if b
    then "inventory_validated"
    else if c
    then "payment_processed"
    else if d
    then "shipped"
    else if e
    then status_completed
    else if f
    then status_aborted
    else ""

choose-allowed :
    (a b c d e f : Bool)
    → (choose a b c d e f == "") ≡ false
    → status_allowed (choose a b c d e f) ≡ true
unfolding choose status_allowed
choose-allowed true b c d e f h = refl
choose-allowed false true c d e f h = refl
choose-allowed false false true d e f h = refl
choose-allowed false false false true e f h = refl
choose-allowed false false false false true f h = refl
choose-allowed false false false false false true h = refl
choose-allowed false false false false false false h = absurd cc

-- The table takes every status of an event type.
pub status_allowed-status_from_event_type :
    (t : String)
    → (status_from_event_type t == "") ≡ false
    → status_allowed (status_from_event_type t) ≡ true
unfolding status_from_event_type choose
status_allowed-status_from_event_type t h = choose-allowed _ _ _ _ _ _ h
