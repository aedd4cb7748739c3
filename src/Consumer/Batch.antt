-- ===== src/Consumer/Batch.antt =====
-- server/internal/consumer/consumer.go, Run and processWithRetry: what the handling of a record keeps,
-- a batch keeps.
use distribuid_system_simula.Prelude.{ℕ, zero, suc, ◌+◌, String, Bool, true, false, List, [], ◌∷◌}
use distribuid_system_simula.Exec.{Result, ok, err}
use distribuid_system_simula.Models.{EventEnvelope}
use distribuid_system_simula.Consumer.{
  Store, DeadLetter, Consuming, handle_record, give_up, retry, process_with_retry, add_settled,
  consume,
}

module _ {S D V : Type 0} (store : Store S) (dlq : DeadLetter D V) (is_uuid : String → Bool)
    (unmarshal : V → Result EventEnvelope) where
  -- What every record keeps, and the counter of the retries has no part in.
  pub record KeptByRecords (I : Consuming S D → Type 0) : Type 0 where
    pub retries :
        (s : Consuming S D) → I s → I (record s { consumer_retries = s.consumer_retries + 1 })
    pub records :
        (value : V) (s : Consuming S D)
        → I s
        → I (handle_record store dlq is_uuid unmarshal value s).1

  module _ (I : Consuming S D → Type 0) (kept : KeptByRecords I) where
    give_up-keeps :
        (waiting : Bool) (r : Result Unit) (t : Consuming S D) → I t → I (give_up waiting r t).1
    unfolding give_up
    give_up-keeps waiting (ok _) t v = v
    give_up-keeps true (err e) t v = kept.retries t v
    give_up-keeps false (err e) t v = v

    retry-keeps :
        (r : Result Unit) (more : Consuming S D → Bool × Consuming S D) (t : Consuming S D)
        → ((u : Consuming S D) → I u → I (more u).1)
        → I t
        → I (retry r more t).1
    unfolding retry
    retry-keeps (ok _) more t k v = v
    retry-keeps (err e) more t k v = k _ (kept.retries t v)

    process_with_retry-keeps :
        (n : ℕ) (waiting : Bool) (value : V) (s : Consuming S D)
        → I s
        → I (process_with_retry store dlq is_uuid unmarshal n waiting value s).1
    unfolding process_with_retry
    process_with_retry-keeps zero waiting value s v =
        give_up-keeps waiting _ _ (kept.records value s v)
    process_with_retry-keeps (suc n) waiting value s v =
        retry-keeps _ _ _ (process_with_retry-keeps n waiting value) (kept.records value s v)

    add_settled-keeps :
        (value : V) (b : Bool) (rest : Consuming S D → List V × Consuming S D) (t : Consuming S D)
        → ((u : Consuming S D) → I u → I (rest u).1)
        → I t
        → I (add_settled store dlq is_uuid unmarshal value b rest t).1
    unfolding add_settled
    add_settled-keeps value true rest t k v = k t v
    add_settled-keeps value false rest t k v = v

    pub consume-keeps :
        (records : List (V × ℕ × Bool)) (s : Consuming S D)
        → I s
        → I (consume store dlq is_uuid unmarshal records s).1
    unfolding consume
    consume-keeps [] s v = v
    consume-keeps ((value, n, waiting) ∷ records) s v =
        add_settled-keeps value _ (consume store dlq is_uuid unmarshal records) _
          (consume-keeps records) (process_with_retry-keeps n waiting value s v)
