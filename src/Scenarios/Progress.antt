-- ===== src/Scenarios/Progress.antt =====
-- server/internal/db/postgres.go: runs in which no request fails.
use distribuid_system_simula.Prelude.{
  ℕ, zero, suc, List, [], ◌∷◌, ◌≡◌, refl, ◌<◌, inl, inr, arith, true,
}
use distribuid_system_simula.Prelude.Int.{pos, leb_ℤ}
use distribuid_system_simula.Exec.{ok}
use distribuid_system_simula.Models.{EventEnvelope, status_from_event_type, lookup}
use distribuid_system_simula.Db.Tables.{Session}
use distribuid_system_simula.Db.Rows.{find_order}
use distribuid_system_simula.Db.Repository.{total_amount, user_id}
use distribuid_system_simula.Db.Effects.{order_state}
use distribuid_system_simula.Db.Invariant.{one_to, notified}
use distribuid_system_simula.Db.Reordering.{HasSeq, apply_all}
use distribuid_system_simula.Db.Progress.Writes.{Storable}
use distribuid_system_simula.Db.Progress.Order.{apply_all_delivers}
use distribuid_system_simula.Scenarios.Setting.{
  platform, trips, created, validated, created-IsSequenced, validated-IsSequenced, empty, empty-Inv,
}

created-Storable : Storable platform created
unfolding status_from_event_type total_amount user_id lookup
created-Storable = record {
  writable = record {
    id = 3;
    order = refl;
    text = created;
    stored = created;
    marshals = refl;
    kept = refl;
    plan_fits = refl;
    kind_fits = refl;
    user_fits = refl;
  };
  known = refl;
  amount = (pos 9990, refl);
  seq = 0;
  numbered = refl;
  seq_fits = refl;
  next_fits = refl;
}

validated-Storable : Storable platform validated
unfolding status_from_event_type total_amount user_id lookup
validated-Storable = record {
  writable = record {
    id = 3;
    order = refl;
    text = validated;
    stored = validated;
    marshals = refl;
    kept = refl;
    plan_fits = refl;
    kind_fits = refl;
    user_fits = refl;
  };
  known = refl;
  amount = (pos 9990, refl);
  seq = 1;
  numbered = refl;
  seq_fits = refl;
  next_fits = refl;
}

-- the second event first, and the first one twice
abbrev late_and_repeated : List EventEnvelope
late_and_repeated = validated ∷ created ∷ created ∷ []

each_arrives : (k : ℕ) → k < 2 → HasSeq (pos (suc k)) late_and_repeated
each_arrives zero h = inr (inl refl)
each_arrives (suc zero) h = inl refl
each_arrives (suc (suc k)) h = absurd (omega arith)

apply_all_delivers_example :
    (s' : Session EventEnvelope) × (apply_all platform late_and_repeated empty ≡ (ok tt, s'))
    × (leb_ℤ (pos 2) (order_state 3 s'.tables).last_seq ≡ true)
    × (notified platform 3 s'.outbox ≡ one_to (order_state 3 s'.tables).last_seq)
unfolding find_order
apply_all_delivers_example =
    apply_all_delivers platform trips 3 "plan" 2 late_and_repeated empty refl
      (
        record { sequenced = validated-IsSequenced; order = refl; owner = refl },
        (
          record { sequenced = created-IsSequenced; order = refl; owner = refl },
          (record { sequenced = created-IsSequenced; order = refl; owner = refl }, tt),
        ),
      )
      (validated-Storable, (created-Storable, (created-Storable, tt))) tt empty-Inv (inl refl)
      each_arrives
