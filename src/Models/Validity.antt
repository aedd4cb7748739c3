-- ===== src/Models/Validity.antt =====
-- What `Validate` accepts, and what the event types map to.
use distribuid_system_simula.Prelude.{
  ℕ, zero, suc, String, Bool, true, false, not, Option, none, some, ◌==◌, ◌≡◌, refl, ◌⊎◌, inl, inr,
  arith, ◌↔◌, ◌∙◌, if◌then◌else◌,
}
use distribuid_system_simula.Prelude.Int.{ℤ, pos, negsuc}
use distribuid_system_simula.Exec.{plain, Result, ok, err}
use distribuid_system_simula.Models.{
  EventEnvelope, event_type_abort_plan, status_aborted, status_completed, status_from_event_type,
  validate_seq, validate,
}

-- A sequenced event: its type has a status, and its seq_id is at least 1.
pub record IsSequenced (e : EventEnvelope) : Type 0 where
  pub not_abort : (e.event_type == event_type_abort_plan) ≡ false
  pub known : (status_from_event_type e.event_type == "") ≡ false
  pub seq : ℕ
  pub positive : e.seq_id ≡ some (pos (suc seq))

pub record IsWellFormed (is_uuid : String → Bool) (e : EventEnvelope) : Type 0 where
  pub plan_given : (e.plan_id == "") ≡ false
  pub order_uuid : is_uuid e.order_id ≡ true
  pub kind : ((e.event_type == event_type_abort_plan) ≡ true) ⊎ IsSequenced e

validate_seq-some :
    (seq : Option ℤ) → validate_seq seq ≡ ok tt → (n : ℕ) × (seq ≡ some (pos (suc n)))
unfolding validate_seq
validate_seq-some none h = cc
validate_seq-some (some (negsuc n)) h = absurd (ground arith)
validate_seq-some (some (pos zero)) h = absurd (ground arith)
validate_seq-some (some (pos (suc n))) h = (n, refl)

validate_seq-suc : (n : ℕ) → validate_seq (some (pos (suc n))) ≡ ok tt
unfolding validate_seq
validate_seq-suc n = ground arith

-- The order and the effect of the checks, over their results.
checks : Bool → Bool → Bool → Bool → Result Unit → Result Unit
checks no_plan uuid abort unknown seq =
    if no_plan
    then err (plain "plan_id is required")
    else if not uuid
    then err (plain "order_id must be a UUID")
    else if abort
    then ok tt
    else if unknown
    then err (plain "unknown event type")
    else seq

checks_ok :
    (no_plan uuid abort unknown : Bool) (seq : Result Unit)
    → checks no_plan uuid abort unknown seq ≡ ok tt
    → (no_plan ≡ false)
      × (uuid ≡ true)
      × ((abort ≡ true) ⊎ ((abort ≡ false) × (unknown ≡ false) × (seq ≡ ok tt)))
unfolding checks
checks_ok no_plan uuid abort unknown seq h = ground arith

checks_pass :
    (no_plan uuid abort unknown : Bool) (seq : Result Unit)
    → no_plan ≡ false
    → uuid ≡ true
    → abort ≡ false
    → unknown ≡ false
    → checks no_plan uuid abort unknown seq ≡ seq
unfolding checks
checks_pass no_plan uuid abort unknown seq p u a k = ground arith

IsSequenced-intro :
    (e : EventEnvelope)
    → (e.event_type == event_type_abort_plan) ≡ false
    → (status_from_event_type e.event_type == "") ≡ false
    → validate_seq e.seq_id ≡ ok tt
    → IsSequenced e
IsSequenced-intro e n k v =
    let (seq, p) = validate_seq-some e.seq_id v in
    record { not_abort = n; known = k; seq = seq; positive = p }

pub IsWellFormed-intro :
    (is_uuid : String → Bool) (e : EventEnvelope)
    → validate is_uuid e ≡ ok tt
    → IsWellFormed is_uuid e
unfolding validate checks
IsWellFormed-intro is_uuid e h =
    let c =
      checks_ok (e.plan_id == "") (is_uuid e.order_id) (e.event_type == event_type_abort_plan)
        (status_from_event_type e.event_type == "") (validate_seq e.seq_id) h in
    record {
      plan_given = c.0;
      order_uuid = c.1;
      kind = elim c.2 [ inl a ↦ inl a | inr (n, k, v) ↦ inr (IsSequenced-intro e n k v) ];
    }

validate-abort :
    (is_uuid : String → Bool) (e : EventEnvelope)
    → (e.plan_id == "") ≡ false
    → is_uuid e.order_id ≡ true
    → (e.event_type == event_type_abort_plan) ≡ true
    → validate is_uuid e ≡ ok tt
unfolding validate
validate-abort is_uuid e p u a = rw (p, u, a)

validate-sequenced :
    (is_uuid : String → Bool) (e : EventEnvelope)
    → (e.plan_id == "") ≡ false
    → is_uuid e.order_id ≡ true
    → IsSequenced e
    → validate is_uuid e ≡ ok tt
unfolding validate checks
validate-sequenced is_uuid e p u q =
    checks_pass _ _ _ _ _ p u q.not_abort q.known ∙ rw q.positive (validate_seq-suc q.seq)

-- `Validate` accepts exactly the events with a plan and a UUID for an order that are an ABORT_PLAN or have a known type and a seq_id of at least 1.
pub validate-IsWellFormed :
    (is_uuid : String → Bool) (e : EventEnvelope)
    → (validate is_uuid e ≡ ok tt) ↔ IsWellFormed is_uuid e
validate-IsWellFormed is_uuid e = (
  IsWellFormed-intro is_uuid e,
  λ p. elim p.kind [
    | inl a ↦ validate-abort is_uuid e p.plan_given p.order_uuid a
    | inr q ↦ validate-sequenced is_uuid e p.plan_given p.order_uuid q
  ],
)

-- `status_from_event_type` over the results of its tests
unfoldable pub pick : Bool → Bool → Bool → Bool → Bool → Bool → String
pick a b c d e f =
    if a
    then "pending"
    else if b
    then "inventory_validated"
    else if c
    then "payment_processed"
    else if d
    then "shipped"
    else if e
    then status_completed
    else if f
    then status_aborted
    else ""

pick-ne-aborted : (a b c d e : Bool) → (pick a b c d e false == status_aborted) ≡ false
unfolding pick
pick-ne-aborted true b c d e = refl
pick-ne-aborted false true c d e = refl
pick-ne-aborted false false true d e = refl
pick-ne-aborted false false false true e = refl
pick-ne-aborted false false false false true = refl
pick-ne-aborted false false false false false = refl

-- No event but an abort gives an order the status "aborted".
pub status-ne-aborted :
    (t : String)
    → (t == event_type_abort_plan) ≡ false
    → (status_from_event_type t == status_aborted) ≡ false
unfolding status_from_event_type pick
status-ne-aborted t h = rw h (pick-ne-aborted _ _ _ _ _)
