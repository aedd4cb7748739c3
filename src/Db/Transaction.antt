-- ===== src/Db/Transaction.antt =====
-- `pgx.BeginFunc`: what a transaction leaves in the tables, whatever fails.
use distribuid_system_simula.Prelude.{List, [], ◌∷◌, refl}
use distribuid_system_simula.Exec.{Result, ok, err, ◌>>=◌}
use distribuid_system_simula.Exec.Yields.{Post, Yields}
use distribuid_system_simula.Db.Tables.{Tables, Fault, fine, lost, unacked, Session}
use distribuid_system_simula.Db.Statements.{Tx, answer, later, request}
use distribuid_system_simula.Db.Ensures.{Ensures}
use distribuid_system_simula.Db.Repository.{finish, begin_func}

module _ {P A : Type 0} where
  pub finish-keeps :
      (I : Tables P → Type 0) (fs : List Fault) (t : Tables P) (r : Result A) (s : Session P)
      → I t
      → Post r s (λ _ u. I u.tables)
      → I (finish fs t r s).1.tables
  unfolding finish
  finish-keeps I fs t (err e) s h k = h
  finish-keeps I [] t (ok a) s h k = k
  finish-keeps I (fine ∷ fs) t (ok a) s h k = k
  finish-keeps I (lost e ∷ fs) t (ok a) s h k = h
  finish-keeps I (unacked e ∷ fs) t (ok a) s h k = k

  begun-keeps :
      (I : Tables P → Type 0) (body : Tx P A) (r : Result Unit) (s : Session P)
      → I s.tables
      → Ensures s.tables body (λ _ u. I u)
      → I
          (((λ t. (r, t)) >>= (λ _ t. let (q, u) = body t in finish u.faults t.tables q u))
            s).1.tables
  unfolding ◌>>=◌
  begun-keeps I body (err e) s h k = h
  begun-keeps I body (ok _) s h k =
      finish-keeps I (body s).1.faults s.tables (body s).0 (body s).1 h (k.run s refl).post

  -- What a body keeps when it succeeds, a transaction keeps whatever happens to it.
  pub begin_func-keeps :
      (I : Tables P → Type 0) (body : Tx P A) (s : Session P)
      → ((t : Tables P) → I t → Ensures t body (λ _ u. I u))
      → I s.tables
      → I (begin_func body s).1.tables
  unfolding begin_func request ◌>>=◌
  begin_func-keeps I body s k h =
      begun-keeps I body (answer s.faults) (record s { faults = later s.faults }) h (k s.tables h)

  finish-Post :
      (Q : A → Tables P → Type 0) (fs : List Fault) (t : Tables P) (r : Result A) (s : Session P)
      → Post r s (λ a u. Q a u.tables)
      → Post (finish fs t r s).0 (finish fs t r s).1 (λ a u. Q a u.tables)
  unfolding finish
  finish-Post Q fs t (err e) s k = tt
  finish-Post Q [] t (ok a) s k = k
  finish-Post Q (fine ∷ fs) t (ok a) s k = k
  finish-Post Q (lost e ∷ fs) t (ok a) s k = tt
  finish-Post Q (unacked e ∷ fs) t (ok a) s k = tt

  begun-Post :
      (Q : A → Tables P → Type 0) (body : Tx P A) (r : Result Unit) (s : Session P)
      → Ensures s.tables body Q
      → Yields
          ((λ t. (r, t)) >>= (λ _ t. let (q, u) = body t in finish u.faults t.tables q u))
          s
          (λ a u. Q a u.tables)
  unfolding ◌>>=◌
  begun-Post Q body (err e) s k = record { post = tt }
  begun-Post Q body (ok _) s k = record {
    post = finish-Post Q (body s).1.faults s.tables (body s).0 (body s).1 (k.run s refl).post;
  }

  -- What a body establishes when it succeeds, a transaction that returns no error establishes.
  pub Ensures-begin_func :
      (t : Tables P) (body : Tx P A) (Q : A → Tables P → Type 0)
      → Ensures t body Q
      → Ensures t (begin_func body) Q
  unfolding begin_func request ◌>>=◌
  Ensures-begin_func t body Q k = record {
    run = λ s e. record {
      post =
          (begun-Post Q body (answer s.faults) (record s { faults = later s.faults })
            (rw e k)).post;
    };
  }
