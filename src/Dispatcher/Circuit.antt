-- ===== src/Dispatcher/Circuit.antt =====
-- server/internal/dispatcher/dispatcher.go, newCircuitBreaker: the settings of the breaker and what a
-- change of its state does to the metrics. The breaker itself is github.com/sony/gobreaker.
use distribuid_system_simula.Prelude.{ℕ, String, Bool, true, List, [], ◌∷◌, ◌≡◌, refl, leb, All}
use distribuid_system_simula.Prelude.Int.{ℤ}
use distribuid_system_simula.Dispatcher.Defaults.{Config}
use distribuid_system_simula.Metrics.{new_series, contains}

-- `gobreaker.State`, and its texts
pub data CircuitState : Type 0 where
  state_closed state_half_open state_open : CircuitState

unfoldable pub state_text : CircuitState → String
state_text state_closed = "closed"
state_text state_half_open = "half-open"
state_text state_open = "open"

-- `cbStateValue`
unfoldable pub cb_state_value : CircuitState → ℕ
cb_state_value state_open = 2
cb_state_value state_half_open = 1
cb_state_value state_closed = 0

-- `gobreaker.Settings`; `ready_to_trip` sees the number of consecutive failures.
pub record Settings : Type 0 where
  pub max_requests : ℕ
  pub timeout : ℤ
  pub ready_to_trip : ℕ → Bool

unfoldable pub settings : Config → Settings
settings c = record {
  max_requests = c.breaker.success_threshold;
  timeout = c.breaker.open_duration;
  ready_to_trip = λ consecutive_failures. leb c.breaker.failure_threshold consecutive_failures;
}

-- The gauge CircuitBreakerState, and the labels that CircuitBreakerTransitions was incremented under,
-- newest first.
pub record CircuitMetrics : Type 0 where
  pub state : ℕ
  pub transitions : List String

unfoldable pub on_state_change : CircuitState → CircuitState → CircuitMetrics → CircuitMetrics
on_state_change previous next m = record {
  state = cb_state_value next;
  transitions = state_text next ∷ m.transitions;
}

-- The gauge before any change.
unfoldable pub new_circuit : CircuitState → CircuitMetrics → CircuitMetrics
new_circuit initial m = record m { state = cb_state_value initial }

-- The breaker goes through the states in turn; the last one is returned.
unfoldable pub changes :
    CircuitState → List CircuitState → CircuitMetrics → CircuitState × CircuitMetrics
changes state [] m = (state, m)
changes state (next ∷ rest) m = changes next rest (on_state_change state next m)

abbrev pub AllKnown : CircuitMetrics → Type 0
AllKnown m = All (λ t. contains new_series.circuit_breaker_transitions t ≡ true) m.transitions

state_text-known :
    (s : CircuitState) → contains new_series.circuit_breaker_transitions (state_text s) ≡ true
unfolding new_series state_text
state_text-known state_closed = refl
state_text-known state_half_open = refl
state_text-known state_open = refl

-- Whatever states the breaker goes through, the gauge shows the last of them, and every transition is
-- counted in a series that `New` creates.
pub changes-AllKnown :
    (state : CircuitState) (states : List CircuitState) (m : CircuitMetrics)
    → m.state ≡ cb_state_value state
    → AllKnown m
    → ((changes state states m).1.state ≡ cb_state_value (changes state states m).0)
      × AllKnown (changes state states m).1
unfolding changes on_state_change
changes-AllKnown state [] m shown known = (shown, known)
changes-AllKnown state (next ∷ rest) m shown known =
    changes-AllKnown next rest _ refl (state_text-known next, known)
