-- ===== src/Consumer/Sweeper/Swept.antt =====
-- server/internal/consumer/consumer.go, expirePending over server/internal/db/postgres.go,
-- ExpirePending.
use mathlib.Core.List.{Memᴰ}
use mathlib.Core.Path.{subst}
use distribuid_system_simula.Prelude.{
  ℕ, zero, suc, String, Bool, some, ltb, ◌≡◌, ◌⊎◌, inl, inr, refl, sym, ◌∙◌, ◌<◌, length, arith,
  Bool-cases,
}
use distribuid_system_simula.Prelude.Int.{ℤ, pos}
use distribuid_system_simula.Exec.{Exec, Result, ok, err, ◌>>=◌}
use distribuid_system_simula.Models.{EventEnvelope}
use distribuid_system_simula.Db.Platform.{Platform}
use distribuid_system_simula.Db.Tables.{PendingEvent, Tables, Session}
use distribuid_system_simula.Db.Rows.{is_row, find_pending}
use distribuid_system_simula.Db.Invariant.{Inv}
use distribuid_system_simula.Db.Expiry.{expire_pending}
use distribuid_system_simula.Db.Expiry.Sinking.{Sink}
use distribuid_system_simula.Db.Expiry.Handed.{expire_pending-Accounted, expire_pending-Inv}
use distribuid_system_simula.Db.Expiry.Shrinks.{expire_pending-lt}
use distribuid_system_simula.Db.Expiry.Sunk.{expire_pending-sink}
use distribuid_system_simula.Consumer.{Letter, DeadLetter, Consuming, event_store}
use distribuid_system_simula.Consumer.Letters.{send_counted_ok, letters-send_counted}
use distribuid_system_simula.Consumer.Sweeper.{
  pending_sweep_batch, detach, timeout_letter, expired_sink, expire_batch, next_batch,
  sweep_pending,
}

-- A message that the broker has stays there.
pub record AppendsOnly {D V : Type 0} (dlq : DeadLetter D V) : Type 0 where
  pub kept :
      (l m : Letter V) (d : D) → Memᴰ m (dlq.delivered d) → Memᴰ m (dlq.delivered (dlq.send l d).1)

module _ {P D V : Type 0} (env : Platform P) (locked : PendingEvent P → Bool) (dlq : DeadLetter D V)
    (pending_ttl : ℤ) where
  continue-cong :
      (r : Result ℕ) (u : Consuming (Session P) D) (f g : ℕ → Exec (Consuming (Session P) D) Unit)
      → ((n : ℕ) → r ≡ ok n → f n u ≡ g n u)
      → ((λ (s : Consuming (Session P) D). (r, u)) >>= f) u
        ≡ ((λ (s : Consuming (Session P) D). (r, u)) >>= g) u
  unfolding ◌>>=◌
  continue-cong (ok n) u f g same = same n refl
  continue-cong (err e) u f g same = refl

  next_batch-cong :
      (n : ℕ) (m m' : Exec (Consuming (Session P) D) Unit) (u : Consuming (Session P) D)
      → (0 < n → m u ≡ m' u)
      → next_batch n m u ≡ next_batch n m' u
  unfolding next_batch
  next_batch-cong n m m' u same = elim (Bool-cases (ltb n pending_sweep_batch)) [
    | inl few ↦ rw few refl
    | inr full ↦ rw full (same (ground arith))
  ]

  -- A batch that expires an event shrinks the buffer.
  expire_batch-lt :
      (s : Consuming (Session P) D) (n : ℕ)
      → ((n : ℕ) → env.uuid (env.uuid_text n) ≡ some n)
      → (expire_batch (event_store env locked) dlq pending_ttl s).0 ≡ ok n
      → 0 < n
      → length (expire_batch (event_store env locked) dlq pending_ttl s).1.store.pending
        < length s.store.pending
  unfolding expire_batch event_store
  expire_batch-lt s n reads h some_ =
      expire_pending-lt env (expired_sink dlq) locked pending_ttl (pos 100) (s.store, detach s) _ n
        reads
        (λ i. (
          h i,
          (expire_pending env (expired_sink dlq) locked pending_ttl (pos 100)
              (s.store, detach s)).1,
        ))
        some_

  -- Any two amounts of fuel above the number of buffered rows give the same run of the loop of
  -- `expirePending`, whatever fails. A UUID that was written as a text reads back.
  pub sweep_pending-fuel :
      (f g : ℕ) (s : Consuming (Session P) D)
      → ((n : ℕ) → env.uuid (env.uuid_text n) ≡ some n)
      → length s.store.pending < f
      → length s.store.pending < g
      → sweep_pending (event_store env locked) dlq pending_ttl f s
        ≡ sweep_pending (event_store env locked) dlq pending_ttl g s
  unfolding sweep_pending ◌>>=◌
  sweep_pending-fuel zero g s reads hf hg = absurd (omega arith)
  sweep_pending-fuel (suc f) zero s reads hf hg = absurd (omega arith)
  sweep_pending-fuel (suc f) (suc g) s reads hf hg =
      continue-cong (expire_batch (event_store env locked) dlq pending_ttl s).0
        (expire_batch (event_store env locked) dlq pending_ttl s).1 _ _
        λ n is.
          next_batch-cong n _ _ (expire_batch (event_store env locked) dlq pending_ttl s).1 λ some_.
            let fewer = expire_batch-lt s n reads is some_ in
            sweep_pending-fuel f g _ reads (omega arith) (omega arith)

module _ {P D V : Type 0} (env : Platform P) (locked : PendingEvent P → Bool) (dlq : DeadLetter D V)
    (appends : AppendsOnly dlq) (pending_ttl : ℤ) where
  sink-kept :
      (e : EventEnvelope) (m : Letter V) (k : Consuming Unit D)
      → Memᴰ m (dlq.delivered k.letters)
      → Memᴰ m (dlq.delivered (expired_sink dlq e k).1.letters)
  unfolding expired_sink
  sink-kept e m k h =
      subst (λ d. Memᴰ m (dlq.delivered d)) (sym (letters-send_counted dlq (timeout_letter e) k))
        (appends.kept (timeout_letter e) m k.letters h)

  -- The dead-letter topic as the sink of `ExpirePending`.
  dead_letters : Sink (Consuming Unit D)
  unfolding expired_sink
  dead_letters = record {
    accept = expired_sink dlq;
    accepted = λ k e. Memᴰ (timeout_letter e) (dlq.delivered k.letters);
    acknowledged = λ e k k' h. rw (send_counted_ok dlq (timeout_letter e) k k' h) (Memᴰ.head refl);
    kept = λ e f k h. sink-kept e (timeout_letter f) k h;
  }

  -- A buffer timeout of an event with the key is on the dead-letter topic.
  abbrev pub IsTimedOut : ℕ → String → ℤ → D → Type 0
  IsTimedOut id plan seq d =
      (e : EventEnvelope) × (env.uuid e.order_id ≡ some id)
      × (e.plan_id ≡ plan)
      × (e.seq_id ≡ some seq)
      × Memᴰ (timeout_letter e) (dlq.delivered d)

  -- The invariant holds, and of the key, what was in the buffer of the tables `t` still is, or timed
  -- out.
  abbrev pub Swept : ℕ → String → ℤ → Tables P → Consuming (Session P) D → Type 0
  Swept id plan seq t s =
      Inv env s.store.tables
      × ((find_pending (is_row id plan seq) s.store.pending
            ≡ find_pending (is_row id plan seq) t.pending)
          ⊎ IsTimedOut id plan seq s.letters)

  module _ (reads : (n : ℕ) → env.uuid (env.uuid_text n) ≡ some n) (id : ℕ) (plan : String)
      (seq : ℤ) (t : Tables P) where
    expire_batch-Swept :
        (s : Consuming (Session P) D)
        → Swept id plan seq t s
        → Swept id plan seq t (expire_batch (event_store env locked) dlq pending_ttl s).1
    unfolding expire_batch event_store dead_letters
    expire_batch-Swept s (v, before) = (
      expire_pending-Inv env dead_letters locked pending_ttl (pos 100) (s.store, detach s) reads v,
      elim before [
        | inl same ↦
            elim (expire_pending-Accounted env dead_letters id plan seq locked pending_ttl (pos 100)
              (s.store, detach s) reads v) [ inl still ↦ inl (still ∙ same) | inr gone ↦ inr gone ]
        | inr gone ↦ inr (
            expire_pending-sink (λ k. IsTimedOut id plan seq k.letters) env (expired_sink dlq)
              (λ e k (f, o, p, q, m). (f, o, p, q, sink-kept e (timeout_letter f) k m)) locked
              pending_ttl (pos 100) (s.store, detach s) gone)
      ],
    )

    continue-Swept :
        (r : Result ℕ) (u : Consuming (Session P) D) (f : ℕ → Exec (Consuming (Session P) D) Unit)
        → ((n : ℕ) → Swept id plan seq t (f n u).1)
        → Swept id plan seq t u
        → Swept id plan seq t (((λ (s : Consuming (Session P) D). (r, u)) >>= f) u).1
    unfolding ◌>>=◌
    continue-Swept (ok n) u f k h = k n
    continue-Swept (err e) u f k h = h

    next_batch-Swept :
        (n : ℕ) (m : Exec (Consuming (Session P) D) Unit) (u : Consuming (Session P) D)
        → Swept id plan seq t (m u).1
        → Swept id plan seq t u
        → Swept id plan seq t (next_batch n m u).1
    unfolding next_batch ◌>>=◌
    next_batch-Swept n m u k h = elim (Bool-cases (ltb n pending_sweep_batch)) [
      | inl few ↦ rw few h
      | inr full ↦ rw full k
    ]

    sweep_pending-Swept :
        (fuel : ℕ) (s : Consuming (Session P) D)
        → Swept id plan seq t s
        → Swept id plan seq t (sweep_pending (event_store env locked) dlq pending_ttl fuel s).1
    unfolding sweep_pending ◌>>=◌
    sweep_pending-Swept zero s h = h
    sweep_pending-Swept (suc fuel) s h =
        let u = expire_batch (event_store env locked) dlq pending_ttl s in
        let k = expire_batch-Swept s h in
        continue-Swept u.0 u.1 _ (λ n. next_batch-Swept n _ u.1 (sweep_pending-Swept fuel u.1 k) k)
          k

  -- However many batches `expirePending` sends, and whatever requests to Postgres and to Kafka fail:
  -- the invariant of the tables is kept, and an event of the buffer is still there, or an event of
  -- its order, its plan and its seq_id is on the dead-letter topic as a buffer timeout. The topic
  -- keeps its messages; a UUID that was written as a text reads back.
  pub sweep_pending_accounts :
      (id : ℕ) (plan : String) (seq : ℤ) (fuel : ℕ) (s : Consuming (Session P) D)
      → ((n : ℕ) → env.uuid (env.uuid_text n) ≡ some n)
      → Inv env s.store.tables
      → Swept id plan seq s.store.tables
          (sweep_pending (event_store env locked) dlq pending_ttl fuel s).1
  sweep_pending_accounts id plan seq fuel s reads v =
      sweep_pending-Swept reads id plan seq s.store.tables fuel s (v, inl refl)
