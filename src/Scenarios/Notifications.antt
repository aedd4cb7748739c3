-- ===== src/Scenarios/Notifications.antt =====
-- The outbox: claims, leases, deliveries.
use mathlib.Core.List.{Memᴰ}
use distribuid_system_simula.Prelude.{
  ℕ, false, none, List, [], ◌∷◌, ◌≡◌, ◌≢◌, inl, refl, sym, ap, ◌∙◌, All, arith, ◌≤◌, length,
}
use distribuid_system_simula.Prelude.Int.{pos}
use distribuid_system_simula.Exec.{◌>>=◌, ok}
use distribuid_system_simula.Models.{EventEnvelope}
use distribuid_system_simula.Prelude.Select.{keep, take, sort_by, insert_by}
use distribuid_system_simula.Db.Tables.{OutboxRow, Session}
use distribuid_system_simula.Db.Statements.{check, write, cast_uuid, or_reject}
use distribuid_system_simula.Db.Repository.{finish}
use distribuid_system_simula.Db.Outbox.{
  OutboxEntry, autocommit, entry_of, claim_heads, claim_outbox, update_by_id, mark_outbox_delivered,
  mark_outbox_failed, release_outbox,
}
use distribuid_system_simula.Db.Outbox.Rows.{
  heads, is_claimable, is_waiting, precedes, any, has_id, update_rows, update_outbox, is_dead,
}
use distribuid_system_simula.Db.Outbox.Claims.{claim_outbox_exclusive}
use distribuid_system_simula.Db.Outbox.Eligible.{
  IsEligible, claim_outbox-IsEligible, claim_outbox_complete,
}
use distribuid_system_simula.Db.Outbox.Settled.{settled_not-claimed}
use distribuid_system_simula.Dispatcher.{
  admitted, replied, execute, judge, retryable_status, Delivering, deliver, repository_store,
}
use distribuid_system_simula.Dispatcher.Defaults.{Config, with_defaults}
use distribuid_system_simula.Dispatcher.Outcomes.{
  is_final, counted, is_delivery, Concluded, deliver_lem,
}
use distribuid_system_simula.Scenarios.Setting.{
  platform, created, validated, empty, zeros, zeros-injective, reads_zeros,
}

abbrev pub row : ℕ → ℕ → EventEnvelope → OutboxRow EventEnvelope
row position order e = record {
  id = position;
  position = position;
  aggregate_id = order;
  event_type = e.event_type;
  payload = e;
  topic = "order-notifications";
  processed = false;
  attempts = 0;
  next_attempt_at = 0;
  lease_until = none;
  last_error = none;
  dead_at = none;
}

-- Two notifications of the order 3, and one of the order 4 that is due at 110.
abbrev pub waiting : Session EventEnvelope
waiting = record empty {
  tables = record {
    orders = [];
    pending = [];
    outbox =
        row 0 3 created
        ∷ row 1 3 validated
        ∷ (record (row 2 4 created) { next_attempt_at = 110 })
        ∷ [];
  };
}

abbrev entries : List (OutboxEntry EventEnvelope)
entries = entry_of platform (row 0 3 created) ∷ []

abbrev after_claim : Session EventEnvelope
after_claim = (claim_outbox platform (λ _. false) (pos 50) (pos 60) waiting).1

claimed : claim_outbox platform (λ _. false) (pos 50) (pos 60) waiting ≡ (ok entries, after_claim)
unfolding ◌>>=◌ finish check write autocommit entry_of claim_heads claim_outbox update_by_id
    mark_outbox_delivered mark_outbox_failed release_outbox heads take keep is_claimable is_waiting
    sort_by insert_by precedes any has_id update_rows update_outbox is_dead
claimed = refl

claim_outbox-IsEligible_example :
    (length entries ≤ 50)
    × All
        (λ e.
          (r : OutboxRow EventEnvelope) × Memᴰ r waiting.outbox
          × (e ≡ entry_of platform r)
          × IsEligible waiting.now waiting.outbox r
          × (false ≡ false))
        entries
claim_outbox-IsEligible_example =
    claim_outbox-IsEligible platform (λ _. false) (pos 50) (pos 60) waiting after_claim entries
      claimed

first-IsEligible : IsEligible waiting.now waiting.outbox (row 0 3 created)
first-IsEligible = record {
  is_open = record { not_processed = refl; not_dead = refl };
  due = omega arith;
  unleased = λ until e. absurd cc;
  first = λ q m a p o. absurd (omega arith);
}

claim_outbox_complete_example : Memᴰ (entry_of platform (row 0 3 created)) entries
claim_outbox_complete_example =
    claim_outbox_complete platform (λ _. false) (pos 50) (pos 60) waiting after_claim entries
      (row 0 3 created) claimed (omega arith) (Memᴰ.head refl) first-IsEligible refl

id_position :
    (a : OutboxRow EventEnvelope) (rows : List (OutboxRow EventEnvelope))
    → Memᴰ a rows
    → All (λ r. r.position ≡ r.id) rows
    → a.position ≡ a.id
id_position a [] m h = elim m [ ]
id_position a (r ∷ rest) (Memᴰ.head e) h = ap (λ x. x.position) e ∙ h.0 ∙ sym (ap (λ x. x.id) e)
id_position a (r ∷ rest) (Memᴰ.tail m) h = id_position a rest m h.1

numbered :
    (a b : OutboxRow EventEnvelope)
    → Memᴰ a waiting.outbox
    → Memᴰ b waiting.outbox
    → a.position ≡ b.position
    → a.id ≡ b.id
numbered a b m n e =
    sym (id_position a waiting.outbox m (refl, (refl, (refl, tt))))
    ∙ e
    ∙ id_position b waiting.outbox n (refl, (refl, (refl, tt)))

-- Another dispatcher, twenty units later, gets the notification of the other order.
abbrev twenty_later : Session EventEnvelope
twenty_later = record after_claim { now = 120 }

abbrev others : List (OutboxEntry EventEnvelope)
others = entry_of platform (row 2 4 created) ∷ []

claimed_others :
    claim_outbox platform (λ _. false) (pos 50) (pos 60) twenty_later
    ≡ (ok others, (claim_outbox platform (λ _. false) (pos 50) (pos 60) twenty_later).1)
unfolding ◌>>=◌ finish check write autocommit entry_of claim_heads claim_outbox update_by_id
    mark_outbox_delivered mark_outbox_failed release_outbox heads take keep is_claimable is_waiting
    sort_by insert_by precedes any has_id update_rows update_outbox is_dead
claimed_others = refl

claim_outbox_exclusive_example :
    All
      (λ (e : OutboxEntry EventEnvelope).
        All (λ (f : OutboxEntry EventEnvelope). e.aggregate_id ≢ f.aggregate_id) others)
      entries
claim_outbox_exclusive_example =
    claim_outbox_exclusive platform (λ _. false) (λ _. false) (pos 50) (pos 50) (pos 60) (pos 60)
      waiting after_claim twenty_later _ entries others zeros-injective numbered claimed refl
      (omega arith) claimed_others

-- The first notification is delivered; what is claimed next is the second of its order.
abbrev after_delivery : Session EventEnvelope
after_delivery = (mark_outbox_delivered platform "" after_claim).1

delivered : mark_outbox_delivered platform "" after_claim ≡ (ok tt, after_delivery)
unfolding ◌>>=◌ finish check write cast_uuid or_reject autocommit entry_of claim_heads claim_outbox
    update_by_id mark_outbox_delivered mark_outbox_failed release_outbox heads take keep
    is_claimable is_waiting sort_by insert_by precedes any has_id update_rows update_outbox is_dead
delivered = refl

abbrev next : List (OutboxEntry EventEnvelope)
next = entry_of platform (row 1 3 validated) ∷ []

claimed_next :
    claim_outbox platform (λ _. false) (pos 50) (pos 60) after_delivery
    ≡ (ok next, (claim_outbox platform (λ _. false) (pos 50) (pos 60) after_delivery).1)
unfolding ◌>>=◌ finish check write cast_uuid or_reject autocommit entry_of claim_heads claim_outbox
    update_by_id mark_outbox_delivered mark_outbox_failed release_outbox heads take keep
    is_claimable is_waiting sort_by insert_by precedes any has_id update_rows update_outbox is_dead
claimed_next = refl

settled_not-claimed_example : All (λ (e : OutboxEntry EventEnvelope). e.id ≢ "") next
settled_not-claimed_example =
    settled_not-claimed platform (λ _. false) (pos 50) (pos 60) (pos 0) "" "" 0 after_claim
      after_delivery after_delivery _ next reads_zeros refl (inl delivered) refl claimed_next

abbrev pub defaults : Config
defaults = with_defaults (record {
  webhook_url = "http://receiver";
  poll_interval = pos 0;
  workers = pos 0;
  batch_size = pos 0;
  max_attempts = pos 0;
  retry_base = pos 0;
  retry_max = pos 0;
  lease = pos 0;
  breaker = record {
    failure_threshold = 0;
    success_threshold = 0;
    open_duration = pos 0;
    request_timeout = pos 0;
  };
})

abbrev delivering : Delivering (Session EventEnvelope)
delivering = record { store = after_claim; deliveries = [] }

-- The receiver answers 503: the row waits on, and has had one attempt.
deliver_lem_example :
    ((deliver
        (repository_store platform (λ _. false))
        defaults
        admitted
        (replied 503)
        false
        (entry_of platform (row 0 3 created))
        delivering).0
      ≡ false)
    × Concluded 0 1 false false after_claim
        (deliver
          (repository_store platform (λ _. false))
          defaults
          admitted
          (replied 503)
          false
          (entry_of platform (row 0 3 created))
          delivering).1.store
unfolding autocommit entry_of claim_heads claim_outbox update_by_id mark_outbox_delivered
    mark_outbox_failed release_outbox execute judge retryable_status with_defaults zeros is_final
    counted is_delivery finish ◌>>=◌ check write heads take keep is_claimable is_waiting sort_by
    insert_by precedes any has_id update_rows update_outbox is_dead
deliver_lem_example =
    deliver_lem platform (λ _. false) defaults admitted (replied 503) false
      (entry_of platform (row 0 3 created)) 0 delivering refl refl
