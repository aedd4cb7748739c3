-- ===== src/Db/Outbox/Autocommit.antt =====
-- What a statement that commits on its own has done when it returns no error.
use distribuid_system_simula.Prelude.{String, List, [], ◌∷◌, ◌≡◌, sym, ap}
use distribuid_system_simula.Exec.{Result, ok, err, within, ◌>>=◌}
use distribuid_system_simula.Db.Tables.{Tables, Session, Fault, fine, lost, unacked}
use distribuid_system_simula.Db.Statements.{Tx}
use distribuid_system_simula.Db.Repository.{finish}
use distribuid_system_simula.Db.Outbox.{autocommit}

module _ {P A : Type 0} where
  pub finish_ok :
      (fs : List Fault) (t : Tables P) (r : Result A) (u s' : Session P) (a : A)
      → finish fs t r u ≡ (ok a, s')
      → (r ≡ ok a) × (s'.tables ≡ u.tables)
  unfolding finish
  finish_ok fs t (err e) u s' a h = absurd cc
  finish_ok [] t (ok b) u s' a h = (ap (λ p. p.0) h, sym (ap (λ p. p.1.tables) h))
  finish_ok (fine ∷ fs) t (ok b) u s' a h = (ap (λ p. p.0) h, sym (ap (λ p. p.1.tables) h))
  finish_ok (lost e ∷ fs) t (ok b) u s' a h = absurd cc
  finish_ok (unacked e ∷ fs) t (ok b) u s' a h = absurd cc

  within_ok :
      (prefix : String) (r : Result A) (u s' : Session P) (a : A)
      → within prefix (λ _. (r, u)) u ≡ (ok a, s')
      → ◌≡◌ {A = Result A × Session P} (r, u) (ok a, s')
  unfolding ◌>>=◌
  within_ok prefix (ok b) u s' a h = h
  within_ok prefix (err e) u s' a h = absurd cc

  -- A statement that returned no error has run, and its changes are there.
  pub autocommit_ok :
      (prefix : String) (m : Tx P A) (s s' : Session P) (a : A)
      → within prefix (autocommit m) s ≡ (ok a, s')
      → (m s ≡ (ok a, (m s).1)) × (s'.tables ≡ (m s).1.tables)
  unfolding autocommit ◌>>=◌
  autocommit_ok prefix m s s' a h =
      let u = (autocommit m s).1 in
      let (e, same) =
        finish_ok (m s).1.faults s.tables (m s).0 (m s).1 s' a
          (within_ok prefix (autocommit m s).0 u s' a h) in
      ((λ i. (e i, (m s).1)), same)
