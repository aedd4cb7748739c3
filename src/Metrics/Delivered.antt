-- ===== src/Metrics/Delivered.antt =====
-- server/internal/metrics/metrics.go, and the results that the dispatcher counts under.
use distribuid_system_simula.Prelude.{
  String, Bool, true, false, List, [], ◌∷◌, ◌≡◌, refl, All, inl, inr, Bool-cases, if◌then◌else◌,
}
use distribuid_system_simula.Exec.{Result, ok, err, Exec}
use distribuid_system_simula.Db.Outbox.{OutboxEntry}
use distribuid_system_simula.Dispatcher.Defaults.{Config}
use distribuid_system_simula.Dispatcher.{
  OutboxStore, Delivering, Response, Admission, Attempt, returned, not_attempted, failed, execute,
  is_success, count_delivery, recorded, finish_delivered, unsuccessful, release, retry_later,
  conclude, deliver, deliver_all, deliver_claimed, dispatch_batch,
}
use distribuid_system_simula.Metrics.{new_series, contains}

abbrev pub IsResult : String → Type 0
IsResult label = contains new_series.webhook_deliveries label ≡ true

-- Every result that was counted is that of a series that `New` creates.
abbrev pub AllResults : {S : Type 0} → Delivering S → Type 0
AllResults s = All IsResult s.deliveries

module _ {S : Type 0} where
  finish_delivered-AllResults :
      (b : Bool) (s : Delivering S) → AllResults s → AllResults (finish_delivered (b, s)).1
  unfolding finish_delivered count_delivery
  finish_delivered-AllResults true s k = (unfold new_series in refl, k)
  finish_delivered-AllResults false s k = k

  unsuccessful-AllResults :
      (m : Exec S Unit) (label : String) (s : Delivering S)
      → IsResult label
      → AllResults s
      → AllResults (unsuccessful m label s).1
  unfolding unsuccessful recorded count_delivery
  unsuccessful-AllResults m label s h k = (h, k)

module _ {S P : Type 0} (store : OutboxStore S P) (c : Config) where
  retry_label : (dead : Bool) → IsResult (if dead then "dead_max_attempts" else "retry_scheduled")
  unfolding new_series
  retry_label true = refl
  retry_label false = refl

  release-AllResults :
      (entry : OutboxEntry P) (s : Delivering S)
      → AllResults s
      → AllResults (release store c entry s).1
  unfolding release
  release-AllResults entry s k = unsuccessful-AllResults _ _ s (unfold new_series in refl) k

  conclude-AllResults :
      (a : Attempt) (cancelled : Bool) (entry : OutboxEntry P) (s : Delivering S)
      → AllResults s
      → AllResults (conclude store c a cancelled entry s).1
  unfolding conclude
  conclude-AllResults (returned status) cancelled entry s k =
      elim (Bool-cases (is_success status)) [
        | inl good ↦ rw good (finish_delivered-AllResults _ _ (unfold recorded in k))
        | inr bad ↦ rw bad (unsuccessful-AllResults _ _ s (unfold new_series in refl) k)
      ]
  conclude-AllResults not_attempted cancelled entry s k = release-AllResults entry s k
  conclude-AllResults (failed e) true entry s k = release-AllResults entry s k
  conclude-AllResults (failed e) false entry s k =
      unfold retry_later in unsuccessful-AllResults _ _ s (retry_label _) k

  deliver_all-AllResults :
      (answers : OutboxEntry P → Admission × Response × Bool) (entries : List (OutboxEntry P))
      (s : Delivering S)
      → AllResults s
      → AllResults (deliver_all store c answers entries s).1
  unfolding deliver_all deliver
  deliver_all-AllResults answers [] s k = k
  deliver_all-AllResults answers (entry ∷ rest) s k = deliver_all-AllResults answers rest _ (
      conclude-AllResults (execute (answers entry).0 (answers entry).1) (answers entry).2 entry s k)

  deliver_claimed-AllResults :
      (answers : OutboxEntry P → Admission × Response × Bool)
      (finishing : List (OutboxEntry P) → List (OutboxEntry P)) (r : Result (List (OutboxEntry P)))
      (s : Delivering S)
      → AllResults s
      → AllResults (deliver_claimed store c answers finishing r s).1
  unfolding deliver_claimed
  deliver_claimed-AllResults answers finishing (ok entries) s k =
      deliver_all-AllResults answers (finishing entries) s k
  deliver_claimed-AllResults answers finishing (err e) s k = k

  -- Whatever the outbox, the breaker and the webhook do, a batch counts its deliveries under no
  -- results but those of the series that the metrics start with.
  pub dispatch_batch-AllResults :
      (is_open : Bool) (answers : OutboxEntry P → Admission × Response × Bool)
      (finishing : List (OutboxEntry P) → List (OutboxEntry P)) (s : Delivering S)
      → AllResults s
      → AllResults (dispatch_batch store c is_open answers finishing s).1
  unfolding dispatch_batch
  dispatch_batch-AllResults true answers finishing s k = k
  dispatch_batch-AllResults false answers finishing s k =
      deliver_claimed-AllResults answers finishing _ _ k
