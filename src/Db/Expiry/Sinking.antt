-- ===== src/Db/Expiry/Sinking.antt =====
-- `pgx.BeginFunc` of a function that calls a sink: what its steps establish, and what it leaves.
use distribuid_system_simula.Prelude.{ap, sym, ◌≡◌, refl}
use distribuid_system_simula.Exec.{Result, ok, err, Exec, ◌>>=◌}
use distribuid_system_simula.Exec.Yields.{Post, Yields}
use distribuid_system_simula.Models.{EventEnvelope}
use distribuid_system_simula.Db.Tables.{Tables, Session}
use distribuid_system_simula.Db.Statements.{Tx, answer, later, request}
use distribuid_system_simula.Db.Ensures.{Ensures}
use distribuid_system_simula.Db.Repository.{finish}
use distribuid_system_simula.Db.Transaction.{finish-keeps}
use distribuid_system_simula.Db.Outbox.Autocommit.{finish_ok}
use distribuid_system_simula.Db.Expiry.{in_tx, in_sink, begin_sinking}

-- A sink, and the events that it has accepted: those of the calls that returned no error, for good.
pub record Sink (K : Type 0) : Type 1 where
  pub accept : EventEnvelope → Exec K Unit
  pub accepted : K → EventEnvelope → Type 0
  pub acknowledged : (e : EventEnvelope) (k k' : K) → accept e k ≡ (ok tt, k') → accepted k' e
  pub kept : (e f : EventEnvelope) (k : K) → accepted k f → accepted (accept e k).1 f

module _ {P K A : Type 0} where
  tx-Post :
      (r : Result A) (t : Session P) (k : K) (Q : A → Session P → Type 0)
      → Post r t Q
      → Post {S = Session P × K} r (t, k) (λ a u. Q a u.0 × (u.1 ≡ k))
  tx-Post (ok a) t k Q h = (h, refl)
  tx-Post (err e) t k Q h = tt

  pub Yields-lift :
      (m : Tx P A) (s : Session P × K) (Q : A → Session P → Type 0)
      → Yields m s.0 Q
      → Yields (in_tx m) s (λ a u. Q a u.0 × (u.1 ≡ s.1))
  unfolding in_tx
  Yields-lift m s Q h = record { post = tx-Post (m s.0).0 (m s.0).1 s.1 Q h.post }

  pub Yields-in_tx :
      (m : Tx P A) (s : Session P × K) (Q : A → Tables P → Type 0)
      → Ensures s.0.tables m Q
      → Yields (in_tx m) s (λ a u. Q a u.0.tables × (u.1 ≡ s.1))
  Yields-in_tx m s Q h = Yields-lift m s (λ a u. Q a u.tables) (h.run s.0 refl)

  sink-Post :
      (m : Exec K A) (r : Result A) (s : Session P) (k k' : K)
      → m k ≡ (r, k')
      → Post {S = Session P × K} r (s, k') (λ a u. (u.0 ≡ s) × (m k ≡ (ok a, u.1)))
  sink-Post m (ok a) s k k' e = (refl, e)
  sink-Post m (err x) s k k' e = tt

  pub Yields-in_sink :
      (m : Exec K A) (s : Session P × K)
      → Yields (in_sink m) s (λ a u. (u.0 ≡ s.0) × (m s.1 ≡ (ok a, u.1)))
  unfolding in_sink
  Yields-in_sink m s = record { post = sink-Post m (m s.1).0 s.0 s.1 (m s.1).1 refl }

  rolled-Post :
      (R : Tables P → K → Type 0) (r : Result A) (t : Session P) (k : K)
      → Post {S = Session P × K} r (t, k) (λ _ u. R u.0.tables u.1)
      → Post r t (λ _ u. R u.tables k)
  rolled-Post R (ok a) t k h = h
  rolled-Post R (err e) t k h = tt

  begun-keeps :
      (R : Tables P → K → Type 0) (body : Exec (Session P × K) A) (r : Result Unit)
      (s u : Session P) (k : K)
      → ((k' : K) → R u.tables k')
      → Yields body (u, k) (λ _ v. R v.0.tables v.1)
      → (λ (v : Session P × K). R v.0.tables v.1)
          (((λ (v : Session P × K). (r, v)) >>= λ _ v.
              let (q, w) = body v in
              let (x, y) = finish w.0.faults v.0.tables q w.0 in (x, (y, w.1)))
            (u, k)).1
  unfolding ◌>>=◌
  begun-keeps R body (err e) s u k left b = left k
  begun-keeps R body (ok _) s u k left b =
      finish-keeps (λ t. R t (body (u, k)).1.1) (body (u, k)).1.0.faults u.tables (body (u, k)).0
        (body (u, k)).1.0 (left _)
        (rolled-Post R (body (u, k)).0 (body (u, k)).1.0 (body (u, k)).1.1 b.post)

  -- What holds of the old tables whatever the sink did, and of the tables and the sink after a body
  -- that succeeds, holds after the transaction.
  pub begin_sinking-keeps :
      (R : Tables P → K → Type 0) (body : Exec (Session P × K) A) (s : Session P × K)
      → ((k : K) → R s.0.tables k)
      → ((u : Session P) → u.tables ≡ s.0.tables → Yields body (u, s.1) (λ _ v. R v.0.tables v.1))
      → R (begin_sinking body s).1.0.tables (begin_sinking body s).1.1
  unfolding begin_sinking in_tx request ◌>>=◌
  begin_sinking-keeps R body s left b =
      begun-keeps R body (answer s.0.faults) s.0 (record s.0 { faults = later s.0.faults }) s.1 left
        (b _ refl)

  begun_ok :
      (body : Exec (Session P × K) A) (r : Result Unit) (u : Session P × K) (s' : Session P × K)
      (a : A)
      → ((λ (v : Session P × K). (r, v)) >>= λ _ v.
            let (q, w) = body v in let (x, y) = finish w.0.faults v.0.tables q w.0 in (x, (y, w.1)))
          u
        ≡ (ok a, s')
      → ((body u).0 ≡ ok a) × (s'.0.tables ≡ (body u).1.0.tables) × (s'.1 ≡ (body u).1.1)
  unfolding ◌>>=◌
  begun_ok body (err e) u s' a h = absurd cc
  begun_ok body (ok _) u s' a h =
      let (ran, same) =
        finish_ok (body u).1.0.faults u.0.tables (body u).0 (body u).1.0 s'.0 a
          (λ i. ((h i).0, (h i).1.0)) in
      (ran, same, sym (ap (λ x. x.1.1) h))

  -- A transaction that returned no error has run its body, and committed it.
  pub begin_sinking_ok :
      (body : Exec (Session P × K) A) (s s' : Session P × K) (a : A)
      → begin_sinking body s ≡ (ok a, s')
      → (u : Session P) × (u.tables ≡ s.0.tables)
        × (u.now ≡ s.0.now)
        × ((body (u, s.1)).0 ≡ ok a)
        × (s'.0.tables ≡ (body (u, s.1)).1.0.tables)
        × (s'.1 ≡ (body (u, s.1)).1.1)
  unfolding begin_sinking in_tx request ◌>>=◌
  begin_sinking_ok body s s' a h =
      let u = record s.0 { faults = later s.0.faults } in
      let (ran, same, sunk) = begun_ok body (answer s.0.faults) (u, s.1) s' a h in
      (u, refl, refl, ran, same, sunk)
