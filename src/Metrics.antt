-- ===== src/Metrics.antt =====
-- server/internal/metrics: the label values of metrics.go, the series that New creates with them, and
-- what the collector of backlog.go reports.
pub mod Known
pub mod Delivered
pub mod Backlog
use Prim.Native.String.{◌++◌, slice}
use Prim.Native.Char.{Char, code}
use distribuid_system_simula.Prelude.{
  ℕ, ◌+◌, ◌-◌, String, Bool, false, ◌==◌, ◌||◌, ◌&&◌, List, [], ◌∷◌, ◌++◌ as ◌⊕◌, map, leb,
  if◌then◌else◌,
}
use distribuid_system_simula.Sequencing.{Outcome, outcome_text}

abbrev pub event_kinds : List String
event_kinds = "sequenced" ∷ "abort" ∷ []

abbrev pub event_outcomes : List String
event_outcomes = "apply" ∷ "duplicate" ∷ "buffer" ∷ "discard" ∷ "plan_mismatch" ∷ "tombstone" ∷ []

abbrev pub dlq_codes : List String
dlq_codes =
    "PARSE_ERROR" ∷ "INVALID_EVENT" ∷ "DB_REJECTED" ∷ "PLAN_MISMATCH" ∷ "BUFFER_TIMEOUT" ∷ []

abbrev pub webhook_results : List String
webhook_results =
    "delivered" ∷ "retry_scheduled" ∷ "dead_max_attempts" ∷ "dead_rejected" ∷ "released" ∷ []

abbrev pub cb_states : List String
cb_states = "closed" ∷ "half-open" ∷ "open" ∷ []

-- The series with labels that exist, by the values of their labels.
pub record Series : Type 0 where
  pub events_processed : List (String × String)
  pub dlq_messages : List String
  pub webhook_deliveries : List String
  pub circuit_breaker_transitions : List String

unfoldable pub kind_series : List String → List String → List (String × String)
kind_series [] outcomes = []
kind_series (kind ∷ kinds) outcomes = map (λ o. (kind, o)) outcomes ⊕ kind_series kinds outcomes

-- The loops of `New`
unfoldable pub new_series : Series
new_series = record {
  events_processed = kind_series event_kinds event_outcomes;
  dlq_messages = dlq_codes;
  webhook_deliveries = webhook_results;
  circuit_breaker_transitions = cb_states;
}

-- the small letter of a capital, by its place in the alphabet
lower : Char → String
lower c =
    let n = code c in
    if leb 65 n && leb n 90
    then slice "abcdefghijklmnopqrstuvwxyz" (n - 65) (n - 64)
    else String.◌∷◌ c ""

to_lower : String → String
unfolding lower
to_lower String.[] = ""
to_lower (String.◌∷◌ c s) = lower c ++ to_lower s

-- `outcomeLabel` of consumer.go
unfoldable pub outcome_label : Outcome → String
unfolding to_lower outcome_text
outcome_label o = to_lower (outcome_text o)

abbrev pub contains : List String → String → Bool
contains [] s = false
contains (x ∷ xs) s = x == s || contains xs s

abbrev pub contains_pair : List (String × String) → String → String → Bool
contains_pair [] a b = false
contains_pair ((x, y) ∷ rest) a b = (x == a && y == b) || contains_pair rest a b
