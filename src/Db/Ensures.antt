-- ===== src/Db/Ensures.antt =====
-- What an action establishes of the tables when it returns no error, whatever the faults, the
-- clock and the sequence. One rule for each way to build an action of the repository.
use mathlib.Core.Path.{subst}
use distribuid_system_simula.Prelude.{
  ℕ, String, Bool, true, false, Option, none, some, List, [], ◌∷◌, ◌≡◌, refl, sym,
}
use distribuid_system_simula.Exec.{Error, Result, ok, err, pure, raise, gets, within, ◌>>=◌}
use distribuid_system_simula.Exec.Yields.{
  Yields, Yields-mono, Yields-pure, Yields-raise, Yields-gets, Yields-within, Yields-modify,
  Yields-bind, Post,
}
use distribuid_system_simula.Db.Tables.{Tables, Fault, fine, lost, unacked, Session}
use distribuid_system_simula.Db.Statements.{Tx, answer, later, request, or_reject, check, write}

module _ {P A : Type 0} where
  -- From the tables `t`, if `m` returns no error, its value and the final tables satisfy `Q`.
  pub record Ensures (t : Tables P) (m : Tx P A) (Q : A → Tables P → Type 0) : Type 0 where
    pub run : (s : Session P) → s.tables ≡ t → Yields m s (λ a u. Q a u.tables)

  module _ {t : Tables P} {Q : A → Tables P → Type 0} where
    pub Ensures-pure : (a : A) → Q a t → Ensures t (pure a) Q
    Ensures-pure a h = record {
      run = λ s e. Yields-pure a s (λ a u. Q a u.tables) (subst (Q a) (sym e) h);
    }

    pub Ensures-raise : (e : Error) → Ensures t (raise e) Q
    Ensures-raise e = record { run = λ s _. Yields-raise e s (λ a u. Q a u.tables) }

    pub Ensures-gets : (f : Tables P → A) → Q (f t) t → Ensures t (gets (λ s. f s.tables)) Q
    Ensures-gets f h = record {
      run = λ s e.
          Yields-gets (λ s. f s.tables) s (λ a u. Q a u.tables) (subst (λ x. Q (f x) x) (sym e) h);
    }

    pub Ensures-within :
        (prefix : String) (m : Tx P A) → Ensures t m Q → Ensures t (within prefix m) Q
    Ensures-within prefix m h = record {
      run = λ s e. Yields-within prefix m s (λ a u. Q a u.tables) (h.run s e);
    }

    pub Ensures-or_reject :
        (o : Option A) (e : Error) → ((a : A) → o ≡ some a → Q a t) → Ensures t (or_reject o e) Q
    unfolding or_reject
    Ensures-or_reject none e h = Ensures-raise e
    Ensures-or_reject (some a) e h = Ensures-pure a (h a refl)

  Post-ok :
      (Q : A → Tables P → Type 0) (r : Result A × Session P) (a : A) (u : Session P)
      → r ≡ (ok a, u)
      → Post r.0 r.1 (λ a u. Q a u.tables)
      → Q a u.tables
  Post-ok Q r a u e h = rw e at h

  -- What an action that returned no error established.
  pub Ensures-ok :
      {t : Tables P} {m : Tx P A} {Q : A → Tables P → Type 0} {a : A} {u : Session P}
      → Ensures t m Q
      → (s : Session P) → s.tables ≡ t
      → m s ≡ (ok a, u)
      → Q a u.tables
  Ensures-ok {m} {Q} {a} {u} h s e run = Post-ok Q (m s) a u run (h.run s e).post

  pub Ensures-mono :
      {t : Tables P} (m : Tx P A) (R Q : A → Tables P → Type 0)
      → Ensures t m R
      → ((a : A) (u : Tables P) → R a u → Q a u)
      → Ensures t m Q
  Ensures-mono m R Q h f = record {
    run = λ s e.
        Yields-mono m s (λ a u. R a u.tables) (λ a u. Q a u.tables) (h.run s e)
          (λ a u. f a u.tables);
  }

  Post-and :
      (Q R : A → Tables P → Type 0) (r : Result A) (u : Session P)
      → Post r u (λ a v. Q a v.tables)
      → Post r u (λ a v. R a v.tables)
      → Post r u (λ a v. Q a v.tables × R a v.tables)
  Post-and Q R (ok a) u h k = (h, k)
  Post-and Q R (err e) u h k = tt

  pub Ensures-and :
      {t : Tables P} {m : Tx P A} {Q R : A → Tables P → Type 0}
      → Ensures t m Q
      → Ensures t m R
      → Ensures t m (λ a u. Q a u × R a u)
  Ensures-and {m} {Q} {R} h k = record {
    run = λ s e. record { post = Post-and Q R (m s).0 (m s).1 (h.run s e).post (k.run s e).post };
  }

module _ {P : Type 0} {t : Tables P} {Q : Unit → Tables P → Type 0} where
  pub Ensures-request : Q tt t → Ensures t request Q
  unfolding request
  Ensures-request h = record {
    run = λ s e. record { post = answered s s.faults (subst (Q tt) (sym e) h) };
  }
    where
      answered :
          (s : Session P) (fs : List Fault)
          → Q tt s.tables
          → Post (answer fs) (record s { faults = later s.faults }) (λ a u. Q a u.tables)
      answered s [] q = q
      answered s (fine ∷ _) q = q
      answered s (lost _ ∷ _) q = tt
      answered s (unacked _ ∷ _) q = tt

  pub Ensures-check : (b : Bool) (e : Error) → (b ≡ true → Q tt t) → Ensures t (check b e) Q
  unfolding check
  Ensures-check true e h = Ensures-pure tt (h refl)
  Ensures-check false e h = Ensures-raise e

  pub Ensures-write : (f : Tables P → Tables P) → Q tt (f t) → Ensures t (write f) Q
  unfolding write
  Ensures-write f h = record {
    run = λ s e. Yields-modify _ s (λ a u. Q a u.tables) (subst (λ x. Q tt (f x)) (sym e) h);
  }

module _ {P A B : Type 0} {t : Tables P} {Q : B → Tables P → Type 0} where
  pub Ensures-bind :
      (m : Tx P A) (f : A → Tx P B) (R : A → Tables P → Type 0)
      → Ensures t m R
      → ((a : A) (u : Tables P) → R a u → Ensures u (f a) Q)
      → Ensures t (m >>= f) Q
  Ensures-bind m f R h k = record {
    run = λ s e.
        Yields-bind m f s (λ a u. R a u.tables) (λ b u. Q b u.tables) (h.run s e)
          (λ a u r. (k a u.tables r).run u refl);
  }

  -- `m` only reads
  pub Ensures-read :
      (m : Tx P A) (f : A → Tx P B) (F : A → Type 0)
      → Ensures t m (λ a u. (u ≡ t) × F a)
      → ((a : A) → F a → Ensures t (f a) Q)
      → Ensures t (m >>= f) Q
  Ensures-read m f F h k =
      Ensures-bind m f _ h (λ a u r. subst (λ x. Ensures x (f a) Q) (sym r.0) (k a r.1))

  -- The same for a first step.
  pub or_reject_then :
      (o : Option A) (e : Error) (f : A → Tx P B)
      → ((a : A) → o ≡ some a → Ensures t (f a) Q)
      → Ensures t (or_reject o e >>= f) Q
  or_reject_then o e f h =
      Ensures-read (or_reject o e) f (λ a. o ≡ some a) (Ensures-or_reject o e (λ a p. (refl, p))) h

  pub gets_then :
      (g : Tables P → A) (f : A → Tx P B)
      → Ensures t (f (g t)) Q
      → Ensures t (gets (λ s. g s.tables) >>= f) Q
  gets_then g f h =
      Ensures-read (gets (λ s. g s.tables)) f (λ a. a ≡ g t) (Ensures-gets g (refl, refl))
        (λ a p. subst (λ x. Ensures t (f x) Q) (sym p) h)

module _ {P B : Type 0} {t : Tables P} {Q : B → Tables P → Type 0} where
  pub request_then : (f : Unit → Tx P B) → Ensures t (f tt) Q → Ensures t (request >>= f) Q
  request_then f h = Ensures-read request f (λ _. Unit) (Ensures-request (refl, tt)) (λ _ _. h)

  pub check_then :
      (b : Bool) (e : Error) (f : Unit → Tx P B)
      → (b ≡ true → Ensures t (f tt) Q)
      → Ensures t (check b e >>= f) Q
  check_then b e f h =
      Ensures-read (check b e) f (λ _. b ≡ true) (Ensures-check b e (λ p. (refl, p))) (λ _. h)

  -- a read of the clock
  pub now_then :
      (f : ℕ → Tx P B) → ((n : ℕ) → Ensures t (f n) Q) → Ensures t (gets (λ s. s.now) >>= f) Q
  now_then f h =
      Ensures-read (gets (λ s. s.now)) f (λ _. Unit)
        (record { run = λ s e. Yields-gets _ s (λ _ u. (u.tables ≡ t) × Unit) (e, tt) })
        (λ n _. h n)
