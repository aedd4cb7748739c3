-- ===== src/Consumer/Committed.antt =====
-- server/internal/consumer/consumer.go, processWithRetry and Run: the records that a batch commits.
use distribuid_system_simula.Prelude.{
  ℕ, zero, suc, String, Bool, true, false, List, [], ◌∷◌, ◌++◌, map, ◌≡◌, refl, ap, All,
}
use distribuid_system_simula.Exec.{Result, ok, err}
use distribuid_system_simula.Models.{EventEnvelope}
use distribuid_system_simula.Consumer.{
  Store, DeadLetter, Consuming, handle_record, give_up, retry, process_with_retry, add_settled,
  consume,
}

module _ {S D V : Type 0} (store : Store S) (dlq : DeadLetter D V) (is_uuid : String → Bool)
    (unmarshal : V → Result EventEnvelope) where
  -- In some state `handleRecord` has settled the record.
  pub record WasHandled (value : V) : Type 0 where
    pub before : Consuming S D
    pub after : Consuming S D
    pub handled : handle_record store dlq is_uuid unmarshal value before ≡ (ok tt, after)

  give_up-WasHandled :
      (waiting : Bool) (value : V) (r : Result Unit) (s t : Consuming S D)
      → handle_record store dlq is_uuid unmarshal value s ≡ (r, t)
      → (give_up waiting r t).0 ≡ true
      → WasHandled value
  unfolding give_up
  give_up-WasHandled waiting value (ok _) s t h e = record { before = s; after = t; handled = h }
  give_up-WasHandled true value (err x) s t h e = absurd cc
  give_up-WasHandled false value (err x) s t h e = absurd cc

  retry-WasHandled :
      (value : V) (r : Result Unit) (more : Consuming S D → Bool × Consuming S D)
      (s t : Consuming S D)
      → ((u : Consuming S D) → (more u).0 ≡ true → WasHandled value)
      → handle_record store dlq is_uuid unmarshal value s ≡ (r, t)
      → (retry r more t).0 ≡ true
      → WasHandled value
  unfolding retry
  retry-WasHandled value (ok _) more s t k h e = record { before = s; after = t; handled = h }
  retry-WasHandled value (err x) more s t k h e = k _ e

  process_with_retry-WasHandled :
      (n : ℕ) (waiting : Bool) (value : V) (s : Consuming S D)
      → (process_with_retry store dlq is_uuid unmarshal n waiting value s).0 ≡ true
      → WasHandled value
  unfolding process_with_retry
  process_with_retry-WasHandled zero waiting value s e =
      give_up-WasHandled waiting value _ s _ refl e
  process_with_retry-WasHandled (suc n) waiting value s e =
      retry-WasHandled value _ _ s _ (process_with_retry-WasHandled n waiting value) refl e

  -- The committed values are a prefix of the batch, and each was handled.
  pub record IsPrefix (records : List (V × ℕ × Bool)) (values : List V) : Type 0 where
    pub rest : List V
    pub split : map (λ r. r.0) records ≡ values ++ rest
    pub settled : All WasHandled values

  add_settled-IsPrefix :
      (value : V) (n : ℕ) (waiting : Bool) (records : List (V × ℕ × Bool)) (b : Bool)
      (t : Consuming S D)
      → (b ≡ true → WasHandled value)
      → IsPrefix records (consume store dlq is_uuid unmarshal records t).0
      → IsPrefix
          ((value, n, waiting) ∷ records)
          (add_settled store dlq is_uuid unmarshal value b
            (consume store dlq is_uuid unmarshal records)
            t).0
  unfolding add_settled
  add_settled-IsPrefix value n waiting records true t h p = record {
    rest = p.rest;
    split = ap (λ vs. value ∷ vs) p.split;
    settled = (h refl, p.settled);
  }
  add_settled-IsPrefix value n waiting records false t h p = record {
    rest = value ∷ map (λ r. r.0) records;
    split = refl;
    settled = tt;
  }

  -- After a batch a prefix of its records is committed, each of which `handleRecord` has settled: no
  -- record is committed before an earlier one of the batch.
  pub consume-IsPrefix :
      (records : List (V × ℕ × Bool)) (s : Consuming S D)
      → IsPrefix records (consume store dlq is_uuid unmarshal records s).0
  unfolding consume
  consume-IsPrefix [] s = record { rest = []; split = refl; settled = tt }
  consume-IsPrefix ((value, n, waiting) ∷ records) s =
      add_settled-IsPrefix value n waiting records _ _
        (process_with_retry-WasHandled n waiting value s)
        (consume-IsPrefix records
          (process_with_retry store dlq is_uuid unmarshal n waiting value s).1)
