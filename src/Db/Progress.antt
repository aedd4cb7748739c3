-- ===== src/Db/Progress.antt =====
-- That an action returns, with no error, where no request fails. One rule for each way to build an
-- action of the repository.
pub mod Statuses
pub mod Writes
pub mod Apply
pub mod Order
use mathlib.Core.Path.{subst}
use distribuid_system_simula.Prelude.{
  ℕ, String, Bool, true, false, Option, none, some, List, [], ◌≡◌, refl, sym, ◌∙◌,
}
use distribuid_system_simula.Exec.{Error, Result, ok, err, pure, gets, within, ◌>>=◌}
use distribuid_system_simula.Exec.Yields.{Post}
use distribuid_system_simula.Db.Tables.{Tables, Fault, Session}
use distribuid_system_simula.Db.Statements.{Tx, request, or_reject, check, write}
use distribuid_system_simula.Db.Repository.{finish, begin_func}
use distribuid_system_simula.Db.Ensures.{Ensures}

module _ {P A : Type 0} where
  abbrev pub Finishes : Result A → Session P → (A → Tables P → Type 0) → Type 0
  Finishes (ok a) s Q = (s.faults ≡ []) × Q a s.tables
  Finishes (err e) s Q = ⊥

  -- From the tables `t`, and with no fault to come, `m` returns no error, and its value and the
  -- final tables satisfy `Q`.
  pub record Succeeds (t : Tables P) (m : Tx P A) (Q : A → Tables P → Type 0) : Type 0 where
    pub run : (s : Session P) → s.tables ≡ t → s.faults ≡ [] → Finishes (m s).0 (m s).1 Q

  within-Finishes :
      (prefix : String) (r : Result A) (u : Session P) (Q : A → Tables P → Type 0)
      → Finishes r u Q
      → Finishes (within prefix (λ _. (r, u)) u).0 (within prefix (λ _. (r, u)) u).1 Q
  unfolding ◌>>=◌
  within-Finishes prefix (ok a) u Q h = h
  within-Finishes prefix (err e) u Q h = h

  module _ {t : Tables P} {Q : A → Tables P → Type 0} where
    pub Succeeds-pure : (a : A) → Q a t → Succeeds t (pure a) Q
    unfolding ◌>>=◌
    Succeeds-pure a h = record { run = λ s e f. (f, subst (Q a) (sym e) h) }

    pub Succeeds-gets : (g : Tables P → A) → Q (g t) t → Succeeds t (gets (λ s. g s.tables)) Q
    unfolding ◌>>=◌
    Succeeds-gets g h = record { run = λ s e f. (f, subst (λ x. Q (g x) x) (sym e) h) }

    pub Succeeds-within :
        (prefix : String) (m : Tx P A) → Succeeds t m Q → Succeeds t (within prefix m) Q
    unfolding ◌>>=◌
    Succeeds-within prefix m h = record {
      run = λ s e f. within-Finishes prefix (m s).0 (m s).1 Q (h.run s e f);
    }

    pub Succeeds-or_reject :
        (o : Option A) (e : Error) (a : A) → o ≡ some a → Q a t → Succeeds t (or_reject o e) Q
    unfolding or_reject
    Succeeds-or_reject o e a is h = rw is (Succeeds-pure a h)

  Finishes-mono :
      (r : Result A) (u : Session P) (R Q : A → Tables P → Type 0)
      → ((a : A) (v : Tables P) → R a v → Q a v)
      → Finishes r u R
      → Finishes r u Q
  Finishes-mono (ok a) u R Q f h = (h.0, f a u.tables h.1)
  Finishes-mono (err e) u R Q f h = h

  pub Succeeds-mono :
      {t : Tables P} (m : Tx P A) (R Q : A → Tables P → Type 0)
      → Succeeds t m R
      → ((a : A) (v : Tables P) → R a v → Q a v)
      → Succeeds t m Q
  Succeeds-mono m R Q h f = record {
    run = λ s e g. Finishes-mono (m s).0 (m s).1 R Q f (h.run s e g);
  }

  Finishes-and :
      (r : Result A) (u : Session P) (R Q : A → Tables P → Type 0)
      → Finishes r u R
      → Post r u (λ a v. Q a v.tables)
      → Finishes r u (λ a v. R a v × Q a v)
  Finishes-and (ok a) u R Q h k = (h.0, (h.1, k))
  Finishes-and (err e) u R Q h k = h

  -- An action that succeeds establishes what it ensures.
  pub Succeeds-and :
      {t : Tables P} {m : Tx P A} {R Q : A → Tables P → Type 0}
      → Succeeds t m R
      → Ensures t m Q
      → Succeeds t m (λ a u. R a u × Q a u)
  Succeeds-and {m} {R} {Q} h k = record {
    run = λ s e g. Finishes-and (m s).0 (m s).1 R Q (h.run s e g) (k.run s e).post;
  }

  -- The run of an action that succeeds.
  pub record Ran (m : Tx P A) (s : Session P) (Q : A → Tables P → Type 0) : Type 0 where
    pub value : A
    pub end : Session P
    pub ran : m s ≡ (ok value, end)
    pub quiet : end.faults ≡ []
    pub holds : Q value end.tables

  Finishes-Ran :
      (m : Tx P A) (s u : Session P) (r : Result A) (Q : A → Tables P → Type 0)
      → m s ≡ (r, u)
      → Finishes r u Q
      → Ran m s Q
  Finishes-Ran m s u (ok a) Q e h = record { value = a; end = u; ran = e; quiet = h.0; holds = h.1 }
  Finishes-Ran m s u (err x) Q e h = absurd h

  pub Succeeds-Ran :
      {m : Tx P A} {Q : A → Tables P → Type 0} (s : Session P)
      → s.faults ≡ []
      → Succeeds s.tables m Q
      → Ran m s Q
  Succeeds-Ran {m} {Q} s f h = Finishes-Ran m s (m s).1 (m s).0 Q refl (h.run s refl f)

module _ {P : Type 0} {t : Tables P} {Q : Unit → Tables P → Type 0} where
  pub Succeeds-request : Q tt t → Succeeds t request Q
  unfolding request
  Succeeds-request h = record { run = λ s e f. rw f (refl, subst (Q tt) (sym e) h) }

  pub Succeeds-check : (b : Bool) (e : Error) → b ≡ true → Q tt t → Succeeds t (check b e) Q
  unfolding check
  Succeeds-check b e is h = rw is (Succeeds-pure tt h)

  pub Succeeds-write : (g : Tables P → Tables P) → Q tt (g t) → Succeeds t (write g) Q
  unfolding write ◌>>=◌
  Succeeds-write g h = record { run = λ s e f. (f, subst (λ x. Q tt (g x)) (sym e) h) }

module _ {P A B : Type 0} where
  continue-Finishes :
      (r : Result A) (u : Session P) (f : A → Tx P B) (R : A → Tables P → Type 0)
      (Q : B → Tables P → Type 0)
      → Finishes r u R
      → ((a : A) (v : Tables P) → R a v → Succeeds v (f a) Q)
      → Finishes
          (((λ (x : Session P). (r, u)) >>= f) u).0
          (((λ (x : Session P). (r, u)) >>= f) u).1
          Q
  unfolding ◌>>=◌
  continue-Finishes (ok a) u f R Q h k = (k a u.tables h.1).run u refl h.0
  continue-Finishes (err e) u f R Q h k = h

module _ {P A B : Type 0} {t : Tables P} {Q : B → Tables P → Type 0} where
  pub Succeeds-bind :
      (m : Tx P A) (f : A → Tx P B) (R : A → Tables P → Type 0)
      → Succeeds t m R
      → ((a : A) (u : Tables P) → R a u → Succeeds u (f a) Q)
      → Succeeds t (m >>= f) Q
  unfolding ◌>>=◌
  Succeeds-bind m f R h k = record {
    run = λ s e g. continue-Finishes (m s).0 (m s).1 f R Q (h.run s e g) k;
  }

  -- `m` only reads
  pub Succeeds-read :
      (m : Tx P A) (f : A → Tx P B) (F : A → Type 0)
      → Succeeds t m (λ a u. (u ≡ t) × F a)
      → ((a : A) → F a → Succeeds t (f a) Q)
      → Succeeds t (m >>= f) Q
  Succeeds-read m f F h k =
      Succeeds-bind m f _ h (λ a u r. subst (λ x. Succeeds x (f a) Q) (sym r.0) (k a r.1))

  -- The same for a first step.
  pub or_reject_passes :
      (o : Option A) (e : Error) (f : A → Tx P B) (a : A)
      → o ≡ some a
      → Succeeds t (f a) Q
      → Succeeds t (or_reject o e >>= f) Q
  unfolding or_reject ◌>>=◌
  or_reject_passes o e f a is h = record { run = λ s same g. rw is (h.run s same g) }

  pub gets_passes :
      (g : Tables P → A) (f : A → Tx P B)
      → Succeeds t (f (g t)) Q
      → Succeeds t (gets (λ s. g s.tables) >>= f) Q
  gets_passes g f h =
      Succeeds-read (gets (λ s. g s.tables)) f (λ a. a ≡ g t) (Succeeds-gets g (refl, refl))
        (λ a p. subst (λ x. Succeeds t (f x) Q) (sym p) h)

module _ {P B : Type 0} {t : Tables P} {Q : B → Tables P → Type 0} where
  pub request_passes : (f : Unit → Tx P B) → Succeeds t (f tt) Q → Succeeds t (request >>= f) Q
  request_passes f h = Succeeds-read request f (λ _. Unit) (Succeeds-request (refl, tt)) (λ _ _. h)

  pub check_passes :
      (b : Bool) (e : Error) (f : Unit → Tx P B)
      → b ≡ true
      → Succeeds t (f tt) Q
      → Succeeds t (check b e >>= f) Q
  check_passes b e f is h =
      Succeeds-read (check b e) f (λ _. Unit) (Succeeds-check b e is (refl, tt)) (λ _ _. h)

  -- a read of the clock
  pub now_passes :
      (f : ℕ → Tx P B) → ((n : ℕ) → Succeeds t (f n) Q) → Succeeds t (gets (λ s. s.now) >>= f) Q
  unfolding ◌>>=◌
  now_passes f h = record { run = λ s e g. (h s.now).run s e g }

module _ {P A : Type 0} where
  finish-Finishes :
      (fs : List Fault) (t : Tables P) (r : Result A) (u : Session P) (Q : A → Tables P → Type 0)
      → fs ≡ u.faults
      → Finishes r u Q
      → Finishes (finish fs t r u).0 (finish fs t r u).1 Q
  unfolding finish
  finish-Finishes fs t (ok a) u Q e h = let quiet = e ∙ h.0 in rw quiet (refl, h.1)
  finish-Finishes fs t (err x) u Q e h = h

  -- A transaction whose body succeeds is committed.
  pub Succeeds-begin_func :
      {t : Tables P} {body : Tx P A} {Q : A → Tables P → Type 0}
      → Succeeds t body Q
      → Succeeds t (begin_func body) Q
  unfolding begin_func request ◌>>=◌
  Succeeds-begin_func {t} {body} {Q} h = record {
    run = λ s e f. rw f (
        finish-Finishes (body (record s { faults = [] })).1.faults s.tables
          (body (record s { faults = [] })).0 (body (record s { faults = [] })).1 Q refl
          (h.run (record s { faults = [] }) e refl));
  }
