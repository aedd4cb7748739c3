-- ===== src/Consumer/Sweeper.antt =====
-- server/internal/consumer/consumer.go, expirePending: one tick of pendingSweeper. Logs are left out.
pub mod Swept
use distribuid_system_simula.Prelude.{ℕ, zero, suc, String, Bool, List, [], ltb, if◌then◌else◌}
use distribuid_system_simula.Prelude.Int.{ℤ, pos}
use distribuid_system_simula.Exec.{Exec, Result, ok, err, out_of_fuel, pure, raise, ◌>>=◌}
use distribuid_system_simula.Models.{EventEnvelope}
use distribuid_system_simula.Consumer.{Letter, of_event, Store, DeadLetter, Consuming, send_counted}

-- `pendingSweepBatch`
abbrev pub pending_sweep_batch : ℕ
pending_sweep_batch = 100

module _ {S D : Type 0} where
  -- The state without the store, which the sink does not touch, and back.
  abbrev pub detach : Consuming S D → Consuming Unit D
  detach s = record {
    store = tt;
    letters = s.letters;
    events_processed = s.events_processed;
    events_drained = s.events_drained;
    dlq_messages = s.dlq_messages;
    consumer_retries = s.consumer_retries;
  }

  abbrev pub attach : S → Consuming Unit D → Consuming S D
  attach t k = record {
    store = t;
    letters = k.letters;
    events_processed = k.events_processed;
    events_drained = k.events_drained;
    dlq_messages = k.dlq_messages;
    consumer_retries = k.consumer_retries;
  }

abbrev pub timeout_letter : {V : Type 0} → EventEnvelope → Letter V
timeout_letter event =
    of_event event "buffer timeout: predecessor event never arrived" "BUFFER_TIMEOUT"

module _ {D V : Type 0} (dlq : DeadLetter D V) where
  -- The function `sink` of `expirePending`
  unfoldable pub expired_sink : EventEnvelope → Exec (Consuming Unit D) Unit
  expired_sink event = send_counted dlq (timeout_letter event)

module _ {S D : Type 0} where
  unfoldable pub next_batch : ℕ → Exec (Consuming S D) Unit → Exec (Consuming S D) Unit
  next_batch n rest = if ltb n pending_sweep_batch then pure tt else rest

module _ {S D V : Type 0} (store : Store S) (dlq : DeadLetter D V) (pending_ttl : ℤ) where
  unfoldable pub expire_batch : Exec (Consuming S D) ℕ
  expire_batch s =
      let (r, t) =
        store.expire_pending pending_ttl (pos pending_sweep_batch) (expired_sink dlq)
          (s.store, detach s) in
      (r, attach t.0 t.1)

  -- The loop of `expirePending`; its error is the one that the code logs.
  unfoldable pub sweep_pending : ℕ → Exec (Consuming S D) Unit
  sweep_pending zero = raise out_of_fuel
  sweep_pending (suc fuel) = do n ← expire_batch; next_batch n (sweep_pending fuel)
