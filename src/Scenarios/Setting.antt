-- ===== src/Scenarios/Setting.antt =====
-- A concrete platform, events and sessions to run the code on.
use Prim.Native.String.{◌∷◌ as cons, count}
use Prim.Native.String.count
use distribuid_system_simula.Prelude.{
  ℕ, zero, suc, String, some, [], ◌∷◌, ◌≡◌, refl, sym, ap, ◌∙◌, leb,
}
use distribuid_system_simula.Prelude.Int.{pos, ltb_ℤ}
use distribuid_system_simula.Models.{status_from_event_type, EventEnvelope, float64, string}
use distribuid_system_simula.Models.Validity.{IsSequenced}
use distribuid_system_simula.Db.Platform.{Platform, RoundTrips}
use distribuid_system_simula.Db.Tables.{Session}
use distribuid_system_simula.Db.Rows.{find_order}
use distribuid_system_simula.Db.Invariant.{Inv, notified, one_to}

-- The UUID n is written as n zeros.
unfoldable pub zeros : ℕ → String
zeros zero = ""
zeros (suc n) = cons "0" (zeros n)

pub count-zeros : (n : ℕ) → count (zeros n) ≡ n
unfolding zeros
count-zeros zero = refl
count-zeros (suc n) = (λ i. count.cons "0" (zeros n) i) ∙ ap suc (count-zeros n)

-- Payloads are the envelopes themselves.
abbrev pub platform : Platform EventEnvelope
platform = record {
  marshal = λ e. some e;
  unmarshal = λ p. some p;
  jsonb = λ p. some p;
  uuid = λ t. some (count t);
  uuid_text = zeros;
  random_uuid = λ n. n;
  decimal = λ bits. some (pos bits);
  int4 = λ n. ltb_ℤ n (pos 2147483648);
  varchar = λ n t. leb (count t) n;
}

pub trips : RoundTrips platform
trips = record { read_back = λ e p q m j. sym (m ∙ j) }

abbrev pub event : String → ℕ → EventEnvelope
event kind seq = record {
  event_id = kind;
  event_type = kind;
  plan_id = "plan";
  seq_id = some (pos seq);
  order_id = "000";
  timestamp = "";
  schema_version = "1.0";
  event_data = ("user_id", string "ana") ∷ ("total_amount", float64 9990) ∷ [];
}

abbrev pub created : EventEnvelope
created = event "OrderCreated" 1

abbrev pub validated : EventEnvelope
validated = event "InventoryValidated" 2

abbrev pub abort : EventEnvelope
abort = event "ABORT_PLAN" 0

pub created-IsSequenced : IsSequenced created
unfolding status_from_event_type
created-IsSequenced = record { not_abort = refl; known = refl; seq = 0; positive = refl }

pub validated-IsSequenced : IsSequenced validated
unfolding status_from_event_type
validated-IsSequenced = record { not_abort = refl; known = refl; seq = 1; positive = refl }

abbrev pub empty : Session EventEnvelope
empty = record {
  tables = record { orders = []; pending = []; outbox = [] };
  serial = 0;
  now = 100;
  faults = [];
}

pub empty-Inv : Inv platform empty.tables
unfolding notified one_to find_order
empty-Inv = record { ledger = λ id. refl; counted = λ id. refl; parked = tt }

pub zeros-injective : (a b : ℕ) → zeros a ≡ zeros b → a ≡ b
zeros-injective a b e = sym (count-zeros a) ∙ ap count e ∙ count-zeros b

pub reads_zeros : (n : ℕ) → platform.uuid (platform.uuid_text n) ≡ some n
reads_zeros n = ap some (count-zeros n)
