-- ===== src/Scenarios/Rules.antt =====
-- The pure rules: validation, sequencing, defaults and backoff.
use distribuid_system_simula.Prelude.{true, ◌==◌, ◌⊎◌, ◌≡◌, ◌↔◌, refl, arith}
use distribuid_system_simula.Prelude.Int.{pos}
use distribuid_system_simula.Exec.{ok}
use distribuid_system_simula.Models.{validate}
use distribuid_system_simula.Models.{event_type_abort_plan}
use distribuid_system_simula.Db.Accepted.{IsAllowed, validate-IsAllowed}
use distribuid_system_simula.Sequencing.{OrderState, apply, decide}
use distribuid_system_simula.Sequencing.Rules.{IsNext, decide-IsNext}
use distribuid_system_simula.Dispatcher.Defaults.{Config}
use distribuid_system_simula.Dispatcher.Backoff.{backoff, backoff_lem}
use distribuid_system_simula.Scenarios.Setting.{created}

created_valid : validate (λ _. true) created ≡ ok tt
unfolding validate
created_valid = refl

validate-IsAllowed_example :
    ((created.event_type == event_type_abort_plan) ≡ true) ⊎ IsAllowed created
validate-IsAllowed_example = validate-IsAllowed (λ _. true) created created_valid

abbrev shipped : OrderState
shipped = record { exists = true; plan_id = "plan"; last_seq = pos 3; status = "shipped" }

decide-IsNext_example : (decide shipped "plan" (pos 4) ≡ apply) ↔ IsNext shipped "plan" (pos 4)
decide-IsNext_example = decide-IsNext shipped "plan" (pos 4)

abbrev config : Config
config = record {
  webhook_url = "http://receiver";
  poll_interval = pos 0;
  workers = pos 8;
  batch_size = pos 0;
  max_attempts = pos 0;
  retry_base = pos 0;
  retry_max = pos 0;
  lease = pos 5000000000;
  breaker = record {
    failure_threshold = 0;
    success_threshold = 0;
    open_duration = pos 0;
    request_timeout = pos 10000000000;
  };
}

backoff_lem_example : backoff 5 (pos 1000000000) (pos 60000000000) ≡ pos 16000000000
backoff_lem_example = backoff_lem 5 1000000000 60000000000 (omega arith)
