-- ===== src/Dispatcher/Loop/Undecided.antt =====
-- server/internal/dispatcher/dispatcher.go, Run, over server/internal/db/outbox.go: a notification whose
-- deliveries decide nothing.
use mathlib.Core.List.{Memᴰ}
use distribuid_system_simula.Prelude.{
  ℕ, Bool, true, false, not, some, List, [], ◌∷◌, map, ◌≡◌, inl, inr, refl, ap, ◌∙◌, All, arith,
  Bool-cases, ◌&&◌, ◌||◌, if◌then◌else◌,
}
use distribuid_system_simula.Prelude.Int.{ℤ, pos, pos_part, leb_ℤ}
use distribuid_system_simula.Prelude.Select.{All-intro, All-Mem}
use distribuid_system_simula.Exec.{Result, ok, err, ◌>>=◌}
use distribuid_system_simula.Db.Platform.{Platform}
use distribuid_system_simula.Db.Tables.{OutboxRow, Session}
use distribuid_system_simula.Db.Statements.{check, write}
use distribuid_system_simula.Db.Repository.{finish}
use distribuid_system_simula.Db.Outbox.{
  OutboxEntry, entry_of, autocommit, claim_heads, claim_outbox,
}
use distribuid_system_simula.Db.Outbox.Rows.{
  any, is_id, is_waiting, heads, has_id, update_rows, update_outbox,
}
use distribuid_system_simula.Dispatcher.{
  Admission, Response, execute, repository_store, Delivering, deliver, deliver_all, deliver_claimed,
  dispatch_batch,
}
use distribuid_system_simula.Dispatcher.Defaults.{Config}
use distribuid_system_simula.Dispatcher.Outcomes.{is_final, Concluded, deliver_lem}
use distribuid_system_simula.Dispatcher.Loop.{
  Round, Ending, stopped, polls, waited, round, go_on, run,
}

or-true : (b : Bool) → (b || true) ≡ true
or-true true = refl
or-true false = refl

kept_true : (a b : Bool) → a ≡ true → (a && b) ≡ (a && not false) → b ≡ true
kept_true a b h e = rw h at e

module _ {P : Type 0} (id : ℕ) where
  abbrev waits : OutboxRow P → Bool
  waits r = is_id id r && is_waiting r

  -- No request is to fail, and a notification of the id is neither delivered nor dead.
  pub record Waits (s : Session P) : Type 0 where
    pub calm : s.faults ≡ []
    pub waiting : any waits s.outbox ≡ true

  any-update_rows :
      (f : OutboxRow P → Bool) (g : OutboxRow P → OutboxRow P) (rows : List (OutboxRow P))
      → ((r : OutboxRow P) → f r ≡ true → waits r ≡ true → waits (g r) ≡ true)
      → any waits rows ≡ true
      → any waits (update_rows f g rows) ≡ true
  unfolding any update_rows
  any-update_rows f g [] k h = h
  any-update_rows f g (r ∷ rows) k h = elim (Bool-cases (waits r)) [
    | inr miss ↦
        let later = any-update_rows f g rows k (rw miss at h) in
        rw later (or-true (waits (if f r then g r else r)))
    | inl hit ↦ elim (Bool-cases (f r)) [
      | inl changed ↦ rw (changed, k r changed hit) refl
      | inr kept ↦ rw (kept, hit) refl
    ]
  ]

  waits-parts : (r : OutboxRow P) → waits r ≡ true → (r.id ≡ id) × (is_waiting r ≡ true)
  waits-parts r h = (ground arith, ground arith)

  parts-waits : (r : OutboxRow P) → r.id ≡ id → is_waiting r ≡ true → waits r ≡ true
  parts-waits r e w = ground arith

  conclude-Waits :
      (n k : ℕ) (final delivery : Bool) (s t : Session P)
      → (k ≡ id → final ≡ false)
      → Concluded k n final delivery s t
      → Waits s
      → Waits t
  conclude-Waits n k final delivery s t undecided c w = record {
    calm = c.calm;
    waiting = rw c.changed (any-update_rows (is_id k) c.change s.outbox still w.waiting);
  }
    where
      still : (r : OutboxRow P) → is_id k r ≡ true → waits r ≡ true → waits (c.change r) ≡ true
      still r hit h =
          let (at_id, is_open) = waits-parts r h in
          let same : k ≡ id = ground arith in
          let kept : (is_waiting r && is_waiting (c.change r)) ≡ (is_waiting r && not false) =
            rw (undecided same) at c.waits r in
          parts-waits (c.change r) (c.ids r ∙ at_id)
            (kept_true (is_waiting r) (is_waiting (c.change r)) is_open kept)

  lease-Waits :
      (rows : List (OutboxRow P)) (until : ℕ) (s : Session P)
      → any waits s.outbox ≡ true
      → any waits (update_rows (has_id rows) (λ r. record r { lease_until = some until }) s.outbox)
        ≡ true
  unfolding is_waiting
  lease-Waits rows until s h =
      any-update_rows (has_id rows) (λ r. record r { lease_until = some until }) s.outbox
        (λ r hit w. w) h

-- What the breaker and the receiver decide of an entry of the id leaves it open.
abbrev pub Undecides :
    {P : Type 0} → Platform P → Config → ℕ → (OutboxEntry P → Admission × Response × Bool) → Type 0
Undecides env c id answers =
    (e : OutboxEntry _)
    → env.uuid e.id ≡ some id
    → is_final c.max_attempts (execute (answers e).0 (answers e).1) (answers e).2 e.attempts ≡ false

-- Deliveries that finish in another order are those of claimed entries.
abbrev pub IsReordering : {P : Type 0} → (List (OutboxEntry P) → List (OutboxEntry P)) → Type 0
IsReordering finishing =
    (es : List (OutboxEntry _)) (e : OutboxEntry _) → Memᴰ e (finishing es) → Memᴰ e es

module _ {P : Type 0} (env : Platform P) (locked : ℕ → Bool) (c : Config) (id : ℕ) where
  -- The id of the entry is a UUID.
  IsNamed : OutboxEntry P → Type 0
  IsNamed e = (k : ℕ) × (env.uuid e.id ≡ some k)

  deliver-Waits :
      (answers : OutboxEntry P → Admission × Response × Bool) (e : OutboxEntry P)
      (s : Delivering (Session P))
      → Undecides env c id answers
      → IsNamed e
      → Waits id s.store
      → Waits id
          (deliver
            (repository_store env locked)
            c
            (answers e).0
            (answers e).1
            (answers e).2
            e
            s).1.store
  unfolding IsNamed
  deliver-Waits answers e s u (k, cast) w =
      let (_, concluded) =
        deliver_lem env locked c (answers e).0 (answers e).1 (answers e).2 e k s cast w.calm in
      conclude-Waits id _ k _ _ s.store _ (λ same. u e (cast ∙ ap some same)) concluded w

  deliver_all-Waits :
      (answers : OutboxEntry P → Admission × Response × Bool) (entries : List (OutboxEntry P))
      (s : Delivering (Session P))
      → Undecides env c id answers
      → All IsNamed entries
      → Waits id s.store
      → Waits id (deliver_all (repository_store env locked) c answers entries s).1.store
  unfolding deliver_all
  deliver_all-Waits answers [] s u named w = w
  deliver_all-Waits answers (e ∷ es) s u (n, ns) w =
      deliver_all-Waits answers es _ u ns (deliver-Waits answers e s u n w)

  AllNamed : Result (List (OutboxEntry P)) → Type 0
  AllNamed (ok entries) = All IsNamed entries
  AllNamed (err e) = Unit

  map_entries-IsNamed :
      (rows : List (OutboxRow P))
      → ((n : ℕ) → env.uuid (env.uuid_text n) ≡ some n)
      → All IsNamed (map (entry_of env) rows)
  unfolding IsNamed entry_of
  map_entries-IsNamed [] reads = tt
  map_entries-IsNamed (r ∷ rows) reads = ((r.id, reads r.id), map_entries-IsNamed rows reads)

  claim_outbox-Waits :
      (limit lease : ℤ) (s : Session P)
      → ((n : ℕ) → env.uuid (env.uuid_text n) ≡ some n)
      → Waits id s
      → AllNamed (claim_outbox env locked limit lease s).0
        × Waits id (claim_outbox env locked limit lease s).1
  unfolding claim_outbox autocommit claim_heads check write finish update_outbox AllNamed ◌>>=◌
  claim_outbox-Waits limit lease s reads w = elim (Bool-cases (leb_ℤ (pos 0) limit)) [
    | inl fits ↦
        rw (fits, w.calm)
          (
            map_entries-IsNamed (heads locked (pos_part limit) s.now s.outbox) reads,
            record { calm = refl; waiting = lease-Waits id _ _ s w.waiting },
          )
    | inr negative ↦ rw (negative, w.calm) (tt, record { calm = refl; waiting = w.waiting })
  ]

  deliver_claimed-Waits :
      (answers : OutboxEntry P → Admission × Response × Bool)
      (finishing : List (OutboxEntry P) → List (OutboxEntry P)) (r : Result (List (OutboxEntry P)))
      (s : Delivering (Session P))
      → Undecides env c id answers
      → IsReordering finishing
      → AllNamed r
      → Waits id s.store
      → Waits id (deliver_claimed (repository_store env locked) c answers finishing r s).1.store
  unfolding deliver_claimed AllNamed
  deliver_claimed-Waits answers finishing (err e) s u among named w = w
  deliver_claimed-Waits answers finishing (ok entries) s u among named w =
      deliver_all-Waits answers (finishing entries) s u
        (All-intro IsNamed (finishing entries)
          (λ e m. All-Mem IsNamed e entries (among entries e m) named))
        w

  dispatch_batch-Waits :
      (is_open : Bool) (answers : OutboxEntry P → Admission × Response × Bool)
      (finishing : List (OutboxEntry P) → List (OutboxEntry P)) (s : Delivering (Session P))
      → ((n : ℕ) → env.uuid (env.uuid_text n) ≡ some n)
      → Undecides env c id answers
      → IsReordering finishing
      → Waits id s.store
      → Waits id
          (dispatch_batch (repository_store env locked) c is_open answers finishing s).1.store
  unfolding dispatch_batch repository_store
  dispatch_batch-Waits true answers finishing s reads u among w = w
  dispatch_batch-Waits false answers finishing s reads u among w =
      let (named, w') = claim_outbox-Waits c.batch_size c.lease s.store reads w in
      deliver_claimed-Waits answers finishing _ _ u among named w'

module _ {P : Type 0} (env : Platform P) (c : Config) (id : ℕ) where
  -- A round that leaves the notification open: what others do meanwhile does, and what the breaker and
  -- the receiver answer.
  pub record LeavesOpen (r : Round (Session P) P) : Type 0 where
    pub meanwhile : (s : Session P) → Waits id s → Waits id (r.meanwhile s)
    pub undecided : Undecides env c id r.answers
    pub reordered : IsReordering r.finishing

  round-Waits :
      (r : Round (Session P) P) (s : Delivering (Session P))
      → ((n : ℕ) → env.uuid (env.uuid_text n) ≡ some n)
      → LeavesOpen r
      → Waits id s.store
      → Waits id (round (repository_store env) c r s).1.store
  unfolding round
  round-Waits r s reads l w =
      dispatch_batch-Waits env r.locked c id r.is_open r.answers r.finishing _ reads l.undecided
        l.reordered (l.meanwhile s.store w)

  go_on-Waits :
      (e : Ending) (rest : Delivering (Session P) → List Ending × Delivering (Session P))
      (s : Delivering (Session P))
      → ((t : Delivering (Session P)) → Waits id t.store → Waits id (rest t).1.store)
      → Waits id s.store
      → Waits id (go_on (repository_store env) c e rest s).1.store
  unfolding go_on
  go_on-Waits stopped rest s keeps w = w
  go_on-Waits polls rest s keeps w = keeps s w
  go_on-Waits waited rest s keeps w = keeps s w

  -- A notification that is neither delivered nor dead is so still after any number of rounds of the
  -- dispatcher's loop, if no request to Postgres fails, others leave it so, and in every round the
  -- answers to its entry are not final: the circuit is open, the call is cancelled, or it has failed
  -- or got a 5xx, 408 or 429 with attempts left. A UUID that was written as a text reads back, and
  -- deliveries that finish in another order are still those of claimed entries.
  pub run-Waits :
      (rounds : List (Round (Session P) P)) (s : Delivering (Session P))
      → ((n : ℕ) → env.uuid (env.uuid_text n) ≡ some n)
      → All LeavesOpen rounds
      → Waits id s.store
      → Waits id (run (repository_store env) c rounds s).1.store
  unfolding run
  run-Waits [] s reads l w = w
  run-Waits (r ∷ rounds) s reads (l, ls) w =
      go_on-Waits _ _ _ (λ t. run-Waits rounds t reads ls) (round-Waits r s reads l w)
