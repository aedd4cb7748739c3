-- ===== src/Dispatcher/Loop.antt =====
-- server/internal/dispatcher/dispatcher.go, Run: the loop over batches. Logs are left out.
pub mod Undecided
use distribuid_system_simula.Prelude.{ℕ, Bool, true, false, List, [], ◌∷◌, ltb, if◌then◌else◌}
use distribuid_system_simula.Exec.{Result, ok, err}
use distribuid_system_simula.Db.Outbox.{OutboxEntry}
use distribuid_system_simula.Dispatcher.Defaults.{Config}
use distribuid_system_simula.Dispatcher.{
  OutboxStore, Delivering, Response, Admission, dispatch_batch,
}

-- What a round of the loop meets: what others have done to the store since the last one, time passing
-- included; the rows they hold; the circuit, the answers and the order of `dispatch_batch`; and
-- whether the context is cancelled when the batch has ended, or while the loop waits.
pub record Round (S P : Type 0) : Type 0 where
  pub meanwhile : S → S
  pub locked : ℕ → Bool
  pub is_open : Bool
  pub answers : OutboxEntry P → Admission × Response × Bool
  pub finishing : List (OutboxEntry P) → List (OutboxEntry P)
  pub cancelled : Bool
  pub cancelled_waiting : Bool

-- How a round ends: the loop polls again right away, has waited for the poll interval, or stops.
pub data Ending : Type 0 where
  polls waited stopped : Ending

unfoldable pub after_wait : Bool → Ending
after_wait cancelled = if cancelled then stopped else waited

unfoldable pub ending : Bool → Bool → Result ℕ → Ending
ending true cancelled_waiting r = stopped
ending false cancelled_waiting (err e) = after_wait cancelled_waiting
ending false cancelled_waiting (ok delivered) =
    if ltb 0 delivered then polls else after_wait cancelled_waiting

module _ {S P : Type 0} (store : (ℕ → Bool) → OutboxStore S P) (c : Config) where
  unfoldable pub round : Round S P → Delivering S → Result ℕ × Delivering S
  round r s =
      dispatch_batch (store r.locked) c r.is_open r.answers r.finishing
        (record s { store = r.meanwhile s.store })

  -- The rest of the loop, unless it stops.
  unfoldable pub go_on :
      Ending
      → (Delivering S → List Ending × Delivering S)
      → Delivering S
      → List Ending × Delivering S
  go_on stopped rest s = (stopped ∷ [], s)
  go_on polls rest s = let (endings, t) = rest s in (polls ∷ endings, t)
  go_on waited rest s = let (endings, t) = rest s in (waited ∷ endings, t)

  -- `Run` over the rounds that are given: how each one that it goes through ends.
  unfoldable pub run : List (Round S P) → Delivering S → List Ending × Delivering S
  run [] s = ([], s)
  run (r ∷ rounds) s =
      let (delivered, t) = round r s in
      go_on (ending r.cancelled r.cancelled_waiting delivered) (run rounds) t
