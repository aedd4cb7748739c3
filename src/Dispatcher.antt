-- ===== src/Dispatcher.antt =====
-- server/internal/dispatcher/dispatcher.go: how an outbox entry is delivered as a webhook, and one
-- batch of entries.
pub mod Defaults
pub mod Backoff
mod Decimal
pub mod Outcomes
pub mod Post
pub mod Circuit
pub mod Loop
pub mod Kept
use Prim.Native.String.{◌++◌}
use distribuid_system_simula.Prelude.{
  eqb, ℕ, ◌+◌, String, Bool, true, false, Option, none, some, List, [], ◌∷◌, ◌&&◌, ◌||◌, leb, ltb,
  if◌then◌else◌,
}
use distribuid_system_simula.Prelude.Int.{ℤ, pos, leb_ℤ}
use distribuid_system_simula.Exec.{Error, Result, ok, err, Exec, pure, modify, ◌>>=◌, ◌>>◌}
use distribuid_system_simula.Db.Platform.{Platform}
use distribuid_system_simula.Db.Tables.{Session}
use distribuid_system_simula.Db.Outbox.{
  OutboxEntry, claim_outbox, mark_outbox_delivered, mark_outbox_failed, release_outbox,
}
use distribuid_system_simula.Dispatcher.Defaults.{Config}
use distribuid_system_simula.Dispatcher.Decimal.{decimal}
use distribuid_system_simula.Dispatcher.Backoff.{backoff}

-- `OutboxStore`, over the state `S` of the store
pub record OutboxStore (S P : Type 0) : Type 0 where
  pub claim_outbox : ℤ → ℤ → Exec S (List (OutboxEntry P))
  pub mark_outbox_delivered : String → Exec S Unit
  pub mark_outbox_failed : String → ℤ → String → Bool → Exec S Unit
  pub release_outbox : String → Exec S Unit

-- The store and the labels that the counter WebhookDeliveries was incremented under, newest first.
pub record Delivering (S : Type 0) : Type 0 where
  pub store : S
  pub deliveries : List String

-- What `post` returns: a status, or an error by its text.
pub data Response : Type 0 where
  replied : ℕ → Response
  unreachable : String → Response

-- What the circuit breaker does with a call.
pub data Admission : Type 0 where
  admitted : Admission
  open_state too_many_requests : Admission

-- `status, err` of `d.cb.Execute`: no error, an error of the breaker itself, which `errors.Is` knows,
-- or any other error by its text.
pub data Attempt : Type 0 where
  returned : ℕ → Attempt
  not_attempted : Attempt
  failed : String → Attempt

-- `retryableStatus`
unfoldable pub retryable_status : ℕ → Bool
retryable_status status = leb 500 status || (eqb status 408 || eqb status 429)

-- The function that `deliver` hands to the breaker.
unfoldable pub judge : Response → Attempt
judge (unreachable e) = failed e
judge (replied status) =
    if retryable_status status
    then failed ("webhook returned status " ++ decimal status)
    else returned status

unfoldable pub execute : Admission → Response → Attempt
execute admitted response = judge response
execute open_state response = not_attempted
execute too_many_requests response = not_attempted

-- `status >= 200 && status < 300`
abbrev pub is_success : ℕ → Bool
is_success status = leb 200 status && ltb status 300

abbrev is_ok : Result Unit → Bool
is_ok (ok _) = true
is_ok (err _) = false

module _ {S : Type 0} where
  -- `WebhookDeliveries.WithLabelValues(label).Inc()`
  unfoldable pub count_delivery : String → Delivering S → Delivering S
  count_delivery label s = record s { deliveries = label ∷ s.deliveries }

  -- Call the store; an error is only logged. Tells whether there was none.
  unfoldable pub recorded : Exec S Unit → Delivering S → Bool × Delivering S
  recorded m s = let (r, t) = m s.store in (is_ok r, record s { store = t })

  -- A delivery counts only once it is recorded.
  unfoldable pub finish_delivered : Bool × Delivering S → Bool × Delivering S
  finish_delivered (true, s) = (true, count_delivery "delivered" s)
  finish_delivered (false, s) = (false, s)

  unfoldable pub unsuccessful : Exec S Unit → String → Delivering S → Bool × Delivering S
  unsuccessful m label s = let (_, t) = recorded m (count_delivery label s) in (false, t)

module _ {S P : Type 0} (store : OutboxStore S P) (c : Config) where
  unfoldable pub release : OutboxEntry P → Delivering S → Bool × Delivering S
  release entry = unsuccessful (store.release_outbox entry.id) "released"

  unfoldable pub retry_later : OutboxEntry P → String → Delivering S → Bool × Delivering S
  retry_later entry e =
      let attempt = entry.attempts + 1 in
      let dead = leb_ℤ c.max_attempts (pos attempt) in
      unsuccessful
        (store.mark_outbox_failed entry.id (backoff attempt c.retry_base c.retry_max) e dead)
        (if dead then "dead_max_attempts" else "retry_scheduled")

  -- The `switch` of `deliver`.
  unfoldable pub conclude : Attempt → Bool → OutboxEntry P → Delivering S → Bool × Delivering S
  conclude (returned status) cancelled entry s =
      if is_success status
      then finish_delivered (recorded (store.mark_outbox_delivered entry.id) s)
      else unsuccessful
          (store.mark_outbox_failed entry.id (pos 0) ("rejected with status " ++ decimal status)
            true)
          "dead_rejected" s
  conclude not_attempted cancelled entry s = release entry s
  conclude (failed e) cancelled entry s =
      if cancelled then release entry s else retry_later entry e s

  -- `deliver`; `cancelled` is whether its context is, once the call has returned.
  unfoldable pub deliver :
      Admission → Response → Bool → OutboxEntry P → Delivering S → Bool × Delivering S
  deliver admission response cancelled entry = conclude (execute admission response) cancelled entry

  -- The goroutines of `dispatchBatch`, in the order in which they finish: each makes one call of the
  -- store. `answers` is what becomes of each entry's request.
  unfoldable pub deliver_all :
      (OutboxEntry P → Admission × Response × Bool)
      → List (OutboxEntry P)
      → Delivering S
      → ℕ × Delivering S
  deliver_all answers [] s = (0, s)
  deliver_all answers (entry ∷ rest) s =
      let (admission, response, cancelled) = answers entry in
      let (delivered, t) = deliver admission response cancelled entry s in
      let (n, u) = deliver_all answers rest t in ((if delivered then n + 1 else n), u)

  unfoldable pub deliver_claimed :
      (OutboxEntry P → Admission × Response × Bool)
      → (List (OutboxEntry P) → List (OutboxEntry P))
      → Result (List (OutboxEntry P))
      → Delivering S
      → Result ℕ × Delivering S
  deliver_claimed answers finishing (err e) s = (err e, s)
  deliver_claimed answers finishing (ok entries) s =
      let (n, t) = deliver_all answers (finishing entries) s in (ok n, t)

  -- `dispatchBatch`; `is_open` is whether the circuit is open, and `finishing` reorders the claimed
  -- entries as their goroutines finish.
  unfoldable pub dispatch_batch :
      Bool
      → (OutboxEntry P → Admission × Response × Bool)
      → (List (OutboxEntry P) → List (OutboxEntry P))
      → Delivering S
      → Result ℕ × Delivering S
  dispatch_batch true answers finishing s = (ok 0, s)
  dispatch_batch false answers finishing s =
      let (claimed, t) = store.claim_outbox c.batch_size c.lease s.store in
      deliver_claimed answers finishing claimed (record s { store = t })

-- The repository as the dispatcher's store; `locked` are the rows that other transactions hold.
unfoldable pub repository_store : {P : Type 0} → Platform P → (ℕ → Bool) → OutboxStore (Session P) P
repository_store env locked = record {
  claim_outbox = claim_outbox env locked;
  mark_outbox_delivered = mark_outbox_delivered env;
  mark_outbox_failed = mark_outbox_failed env;
  release_outbox = release_outbox env;
}
