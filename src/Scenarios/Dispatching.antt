-- ===== src/Scenarios/Dispatching.antt =====
-- The dispatcher's loop and its requests.
use distribuid_system_simula.Prelude.{leb, false, [], ◌∷◌, ◌+◌, arith, ◌≡◌, ◌↔◌, true, none, refl}
use distribuid_system_simula.Prelude.Int.{pos, leb_ℤ, twice}
use distribuid_system_simula.Models.{EventEnvelope}
use distribuid_system_simula.Db.Outbox.{entry_of}
use distribuid_system_simula.Dispatcher.Loop.{Round, run}
use distribuid_system_simula.Db.Tables.{Session}
use distribuid_system_simula.Dispatcher.Defaults.{with_defaults}
use distribuid_system_simula.Dispatcher.{
  execute, judge, retryable_status, admitted, replied, repository_store,
}
use distribuid_system_simula.Dispatcher.Outcomes.{is_final}
use distribuid_system_simula.Dispatcher.Loop.Undecided.{LeavesOpen, Waits, run-Waits}
use distribuid_system_simula.Db.Outbox.Rows.{any, is_waiting}
use distribuid_system_simula.Dispatcher.Post.{
  Request, HttpClient, post, request_of, key_of, post_lem,
}
use distribuid_system_simula.Scenarios.Notifications.{row, defaults, waiting}
use distribuid_system_simula.Scenarios.Setting.{reads_zeros, platform, created, zeros-injective}

-- Every URL will do, and every request is accepted.
abbrev accepting : HttpClient EventEnvelope
accepting = record { refusal = λ _. none; send = λ _. replied 202 }

post_lem_example :
    (q : Request EventEnvelope) × (post accepting defaults (entry_of platform (row 0 3 created))
      ≡ replied 202)
    × (leb_ℤ q.timeout (pos 10000000000) ≡ true)
    × (leb_ℤ (twice q.timeout) (pos 60000000000) ≡ true)
    × ((key_of q ≡ key_of (request_of defaults (entry_of platform (row 1 3 created))))
        ↔ ((row 0 3 created).id ≡ (row 1 3 created).id))
unfolding with_defaults
post_lem_example =
    post_lem platform accepting defaults (row 0 3 created) (row 1 3 created) zeros-injective refl
      refl

-- A round, a hundred units after the last one, in which the receiver answers 503; after nine failures
-- the context is cancelled.
abbrev failing : Round (Session EventEnvelope) EventEnvelope
failing = record {
  meanwhile = λ s. record s { now = s.now + 100 };
  locked = λ _. false;
  is_open = false;
  answers = λ e. (admitted, replied 503, leb 9 e.attempts);
  finishing = λ entries. entries;
  cancelled = false;
  cancelled_waiting = false;
}

failing-LeavesOpen : LeavesOpen platform defaults 0 failing
unfolding with_defaults is_final execute judge retryable_status
failing-LeavesOpen = record {
  meanwhile = λ s w. record { calm = w.calm; waiting = w.waiting };
  undecided = λ e h. ground arith;
  reordered = λ es e m. m;
}

first-Waits : Waits 0 waiting
unfolding any is_waiting
first-Waits = record { calm = refl; waiting = refl }

run-Waits_example :
    Waits 0
      (run
        (repository_store platform)
        defaults
        (failing ∷ failing ∷ [])
        (record { store = waiting; deliveries = [] })).1.store
run-Waits_example =
    run-Waits platform defaults 0 (failing ∷ failing ∷ [])
      (record { store = waiting; deliveries = [] }) reads_zeros
      (failing-LeavesOpen, (failing-LeavesOpen, tt)) first-Waits
