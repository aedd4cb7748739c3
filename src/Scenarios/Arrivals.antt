-- ===== src/Scenarios/Arrivals.antt =====
-- server/internal/db/postgres.go: the same events in two orders of arrival.
use distribuid_system_simula.Prelude.{ℕ, List, [], ◌∷◌, ◌≡◌, inl, inr, refl}
use distribuid_system_simula.Prelude.Int.{pos}
use distribuid_system_simula.Exec.{◌>>=◌}
use distribuid_system_simula.Db.Repository.{
  begin_func, finish, lock_order, total_amount, user_id, deref, insert_outbox, write_order,
  write_event, drain_round, drain_pending, buffer_event, carry_out, apply_body, apply_event,
  discard_pending, carry_out_abort, abort_body, abort_plan,
}
use distribuid_system_simula.Db.Statements.{
  request, select_order, cast_uuid, or_reject, check, write, encode_int4, fits, status_allowed,
  allowed, to_jsonb, to_decimal, unique, insert_order, update_row, update_order, update_status,
  take_pending, delete_plan, insert_unless, insert_pending, next_position, insert_outbox_row,
}
use distribuid_system_simula.Db.Rows.{
  find_order, set_order, find_pending, delete_pending, add_order, change_order, add_pending,
  remove_pending, add_outbox,
}
use distribuid_system_simula.Sequencing.{decide, decide_abort}
use distribuid_system_simula.Models.{status_from_event_type, lookup}
use distribuid_system_simula.Exec.{ok}
use distribuid_system_simula.Models.{EventEnvelope}
use distribuid_system_simula.Db.Tables.{Session}
use distribuid_system_simula.Db.Effects.{order_state}
use distribuid_system_simula.Db.Invariant.{notified, one_to}
use distribuid_system_simula.Db.Reordering.{IsOf, apply_all}
use distribuid_system_simula.Db.Frontier.{IsFrontier, IsFresh, SameSeqs}
use distribuid_system_simula.Db.Frontier.Refines.{apply_all_refines, apply_all_order_free}
use distribuid_system_simula.Scenarios.Setting.{
  platform, trips, created, validated, created-IsSequenced, validated-IsSequenced, empty, empty-Inv,
}
use distribuid_system_simula.Scenarios.Orders.{shuffled, after_shuffled, shuffled_applied}

abbrev ordered : List EventEnvelope
ordered = created ∷ validated ∷ []

abbrev after_ordered : Session EventEnvelope
after_ordered = (apply_all platform ordered empty).1

ordered_applied : apply_all platform ordered empty ≡ (ok tt, after_ordered)
unfolding apply_all ◌>>=◌ begin_func finish request lock_order select_order cast_uuid or_reject
    check write encode_int4 fits status_allowed allowed to_jsonb to_decimal unique insert_order
    update_row update_order update_status take_pending delete_plan insert_unless insert_pending
    next_position insert_outbox_row find_order set_order find_pending delete_pending add_order
    change_order add_pending remove_pending add_outbox total_amount user_id deref insert_outbox
    write_order write_event drain_round drain_pending buffer_event carry_out apply_body apply_event
    discard_pending carry_out_abort abort_body abort_plan decide decide_abort status_from_event_type
    lookup
ordered_applied = refl

created-IsOf : IsOf platform 3 "plan" created
created-IsOf = record { sequenced = created-IsSequenced; order = refl; owner = refl }

validated-IsOf : IsOf platform 3 "plan" validated
validated-IsOf = record { sequenced = validated-IsSequenced; order = refl; owner = refl }

same_seqs : SameSeqs shuffled ordered
same_seqs q = (
  λ h. elim h [
    | inl second ↦ inr (inl second)
    | inr (inl first) ↦ inl first
    | inr (inr (inl first)) ↦ inl first
    | inr (inr (inr none_left)) ↦ absurd none_left
  ],
  λ h. elim h [
    | inl first ↦ inr (inl first)
    | inr (inl second) ↦ inl second
    | inr (inr none_left) ↦ absurd none_left
  ],
)

empty-IsFresh : IsFresh 3 "plan" empty.tables
unfolding find_order
empty-IsFresh = record { absent = refl; no_rows = tt }

apply_all_refines_example :
    (n : ℕ) × ((order_state 3 after_shuffled.tables).last_seq ≡ pos n)
    × IsFrontier shuffled n
    × (notified platform 3 after_shuffled.outbox ≡ one_to (pos n))
apply_all_refines_example =
    apply_all_refines platform trips 3 "plan" shuffled empty after_shuffled
      (validated-IsOf, (created-IsOf, (created-IsOf, tt))) empty-Inv empty-IsFresh shuffled_applied

apply_all_order_free_example :
    ((order_state 3 after_shuffled.tables).last_seq ≡ (order_state 3 after_ordered.tables).last_seq)
    × (notified platform 3 after_shuffled.outbox ≡ notified platform 3 after_ordered.outbox)
apply_all_order_free_example =
    apply_all_order_free platform trips 3 "plan" shuffled ordered empty after_shuffled empty
      after_ordered (validated-IsOf, (created-IsOf, (created-IsOf, tt)))
      (created-IsOf, (validated-IsOf, tt)) same_seqs empty-Inv empty-Inv empty-IsFresh empty-IsFresh
      shuffled_applied ordered_applied
