-- ===== src/Db/Atomicity.antt =====
-- server/internal/db/postgres.go: transactions that return an error.
use distribuid_system_simula.Prelude.{List, [], ◌∷◌, ◌≡◌, ◌⊎◌, inl, inr, refl, sym, ap}
use distribuid_system_simula.Exec.{Error, Result, ok, err, ◌>>=◌}
use distribuid_system_simula.Models.{EventEnvelope}
use distribuid_system_simula.Models.Validity.{IsSequenced}
use distribuid_system_simula.Db.Platform.{Platform, RoundTrips}
use distribuid_system_simula.Db.Tables.{Tables, Fault, fine, lost, unacked, Session}
use distribuid_system_simula.Db.Statements.{Tx, answer, later, request}
use distribuid_system_simula.Db.Ensures.{Ensures-ok, Ensures-mono}
use distribuid_system_simula.Db.Transaction.{begin_func-keeps}
use distribuid_system_simula.Db.Repository.{finish, begin_func, apply_body, apply_event}
use distribuid_system_simula.Db.Invariant.{Inv}
use distribuid_system_simula.Db.Invariant.Apply.{apply_body-Handled}
use distribuid_system_simula.Db.Redelivery.{handled_again}

error_or : {A : Type 0} → Error → Result A → Error
error_or d (ok a) = d
error_or d (err e) = e

module _ {P A : Type 0} where
  -- The body ran to its end, the COMMIT took effect, and its answer, the error `x`, was lost.
  pub record InDoubt (body : Tx P A) (s s' : Session P) (x : Error) : Type 0 where
    pub value : A
    pub end : Session P
    pub rest : List Fault
    pub ran : body (record s { faults = later s.faults }) ≡ (ok value, end)
    pub unanswered : end.faults ≡ unacked x ∷ rest
    pub committed : s'.tables ≡ end.tables

  finish_error :
      (fs : List Fault) (t : Tables P) (r : Result A) (u s' : Session P) (x : Error)
      → finish fs t r u ≡ (err x, s')
      → (s'.tables ≡ t)
        ⊎ ((a : A) × (rest : List Fault) × (r ≡ ok a)
            × (fs ≡ unacked x ∷ rest)
            × (s'.tables ≡ u.tables))
  unfolding finish error_or
  finish_error fs t (err e) u s' x h = inl (sym (ap (λ p. p.1.tables) h))
  finish_error [] t (ok a) u s' x h = cc
  finish_error (fine ∷ fs) t (ok a) u s' x h = cc
  finish_error (lost e ∷ fs) t (ok a) u s' x h = inl (sym (ap (λ p. p.1.tables) h))
  finish_error (unacked e ∷ fs) t (ok a) u s' x h =
      inr (a, fs, refl, ap (λ p. unacked (error_or e p.0) ∷ fs) h, sym (ap (λ p. p.1.tables) h))

  begun_error :
      (body : Tx P A) (r : Result Unit) (s s' : Session P) (x : Error)
      → ((λ t. (r, t)) >>= (λ _ t. let (q, u) = body t in finish u.faults t.tables q u)) s
        ≡ (err x, s')
      → (s'.tables ≡ s.tables)
        ⊎ ((a : A) × (u : Session P) × (rest : List Fault) × (body s ≡ (ok a, u))
            × (u.faults ≡ unacked x ∷ rest)
            × (s'.tables ≡ u.tables))
  unfolding ◌>>=◌
  begun_error body (err e) s s' x h = inl (sym (ap (λ p. p.1.tables) h))
  begun_error body (ok _) s s' x h =
      elim (finish_error (body s).1.faults s.tables (body s).0 (body s).1 s' x h) [
        | inl e ↦ inl e
        | inr (a, rest, ran, e, same) ↦
            inr (a, (body s).1, rest, (λ i. (ran i, (body s).1)), e, same)
      ]

  -- A transaction that returns an error has left the tables as they were, or its commit is in
  -- doubt.
  pub begin_func_error :
      (body : Tx P A) (s s' : Session P) (x : Error)
      → begin_func body s ≡ (err x, s')
      → (s'.tables ≡ s.tables) ⊎ InDoubt body s s' x
  unfolding begin_func request ◌>>=◌
  begin_func_error body s s' x h =
      elim (begun_error body (answer s.faults) (record s { faults = later s.faults }) s' x h) [
        | inl e ↦ inl e
        | inr (a, u, rest, ran, e, same) ↦ inr (record {
          value = a;
          end = u;
          rest = rest;
          ran = ran;
          unanswered = e;
          committed = same;
        })
      ]

module _ {P : Type 0} (env : Platform P) (trips : RoundTrips env) where
  -- When `ApplyEvent` of a valid event returns an error, on tables with the invariant, either
  -- nothing has changed, or the answer to its COMMIT was lost and a retry of the event on the
  -- tables that it left, whatever requests fail then, changes nothing more.
  pub apply_event_retry :
      (event : EventEnvelope) (s s' s'' : Session P) (x : Error)
      → IsSequenced event
      → Inv env s.tables
      → apply_event env event s ≡ (err x, s')
      → s''.tables ≡ s'.tables
      → (s'.tables ≡ s.tables) ⊎ ((apply_event env event s'').1.tables ≡ s'.tables)
  unfolding apply_event
  apply_event_retry event s s' s'' x q v e same =
      elim (begin_func_error (apply_body env event) s s' x e) [
        | inl kept ↦ inl kept
        | inr d ↦
            let h = Ensures-ok (apply_body-Handled env trips event s.tables q v) _ refl d.ran in
            inr (
              begin_func-keeps (λ u. u ≡ s'.tables) _ s''
                (λ t is.
                  rw (is, d.committed)
                    (Ensures-mono _ _ _
                      (handled_again env trips event s.tables d.end.tables d.value h)
                      (λ r u k. k.0)))
                same)
      ]
