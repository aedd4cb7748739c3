-- ===== src/Metrics/Backlog.antt =====
-- server/internal/metrics/backlog.go: the gauges of one scrape.
use distribuid_system_simula.Prelude.{ℕ, String, List, [], ◌∷◌, ◌++◌, ◌≡◌, ◌⊎◌, length}
use distribuid_system_simula.Exec.{Result, ok, err, Exec}
use distribuid_system_simula.Db.Platform.{Platform}
use distribuid_system_simula.Db.Tables.{Tables, Session}
use distribuid_system_simula.Db.Outbox.{outbox_backlog}
use distribuid_system_simula.Db.Outbox.Rows.{count, is_waiting, is_dead}
use distribuid_system_simula.Db.Expiry.{pending_events_count}

-- `BacklogSource`, over its state `S`
pub record BacklogSource (S : Type 0) : Type 0 where
  pub outbox_backlog : Exec S (ℕ × ℕ)
  pub pending_events_count : Exec S ℕ

-- A metric that `Collect` sends, of the two descriptions.
pub data Gauge : Type 0 where
  outbox_entries : String → ℕ → Gauge
  pending_events : ℕ → Gauge

outbox_gauges : Result (ℕ × ℕ) → List Gauge
outbox_gauges (ok (waiting, dead)) =
    outbox_entries "pending" waiting ∷ outbox_entries "dead" dead ∷ []
outbox_gauges (err e) = []

pending_gauges : Result ℕ → List Gauge
pending_gauges (ok n) = pending_events n ∷ []
pending_gauges (err e) = []

-- `Collect`, which drops an error after it has logged it
unfoldable pub collect : {S : Type 0} → BacklogSource S → S → List Gauge × S
unfolding outbox_gauges pending_gauges
collect src s =
    let (backlog, t) = src.outbox_backlog s in
    let (count, u) = src.pending_events_count t in
    (outbox_gauges backlog ++ pending_gauges count, u)

-- The repository as the collector's source.
unfoldable pub backlog_source : {P : Type 0} → Platform P → BacklogSource (Session P)
backlog_source env = record {
  outbox_backlog = outbox_backlog env;
  pending_events_count = pending_events_count;
}

-- The gauge is the number of rows in the state.
abbrev pub IsCount : {P : Type 0} → Tables P → Gauge → Type 0
IsCount t (outbox_entries state n) =
    ((state ≡ "pending") × (n ≡ count is_waiting t.outbox))
    ⊎ ((state ≡ "dead") × (n ≡ count is_dead t.outbox))
IsCount t (pending_events n) = n ≡ length t.pending
