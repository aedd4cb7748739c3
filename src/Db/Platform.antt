-- ===== src/Db/Platform.antt =====
-- What the repository relies on and does not implement: the JSON codec, and the parts of Postgres
-- and of its driver pgx that turn Go values into column values. Payloads are of a type `P`.
use distribuid_system_simula.Prelude.{ℕ, String, Bool, Option, some, ◌≡◌}
use distribuid_system_simula.Prelude.Int.{ℤ}
use distribuid_system_simula.Models.{EventEnvelope}

pub record Platform (P : Type 0) : Type 0 where
  -- `json.Marshal` and `json.Unmarshal` of an envelope; `none` is an error
  pub marshal : EventEnvelope → Option P
  pub unmarshal : P → Option EventEnvelope
  -- a JSONB column as it reads back, or `none` where Postgres refuses the text (SQLSTATE 22P05)
  pub jsonb : P → Option P
  -- `::uuid`, or `none` for SQLSTATE 22P02; a UUID is its 128 bits
  pub uuid : String → Option ℕ
  -- `::text` of a UUID
  pub uuid_text : ℕ → String
  -- `gen_random_uuid()` at each row of the outbox, by the row's position
  pub random_uuid : ℕ → ℕ
  -- a float64 as DECIMAL(10, 2), in cents and by its sign, or `none` for SQLSTATE 22003
  pub decimal : ℕ → Option ℤ
  -- whether pgx encodes an int as INTEGER; its refusal is no Postgres error
  pub int4 : ℤ → Bool
  -- whether a text fits VARCHAR(n), or else SQLSTATE 22001
  pub varchar : ℕ → String → Bool

-- An envelope that was marshalled and stored reads back as itself.
pub record RoundTrips {P : Type 0} (env : Platform P) : Type 0 where
  pub read_back :
      (e : EventEnvelope) (p q : P)
      → env.marshal e ≡ some p
      → env.jsonb p ≡ some q
      → env.unmarshal q ≡ some e
