-- ===== src/Exec/Yields.antt =====
-- What a run of an action establishes when it returns no error: one rule for each way to build an
-- action.
use distribuid_system_simula.Prelude.{String, Bool, true, false, if◌then◌else◌, ◌≡◌, refl}
use distribuid_system_simula.Exec.{
  Error, Result, ok, err, Exec, pure, raise, gets, modify, within, ◌>>=◌,
}

module _ {S A : Type 0} where
  abbrev pub Post : Result A → S → (A → S → Type 0) → Type 0
  Post (ok a) s Q = Q a s
  Post (err e) s Q = Unit

  -- If `m` returns from `s` with no error, its value and its final state satisfy `Q`.
  pub record Yields (m : Exec S A) (s : S) (Q : A → S → Type 0) : Type 0 where
    pub post : Post (m s).0 (m s).1 Q

  Post-ok : (Q : A → S → Type 0) (r : Result A) (a : A) (u : S) → r ≡ ok a → Post r u Q → Q a u
  Post-ok Q r a u e h = rw e at h

  -- What a run that returned no error established.
  pub Yields-ok :
      (m : Exec S A) (s : S) (Q : A → S → Type 0) (a : A)
      → Yields m s Q
      → (m s).0 ≡ ok a
      → Q a (m s).1
  Yields-ok m s Q a h e = Post-ok Q (m s).0 a (m s).1 e h.post

  Post-mono :
      (r : Result A) (s : S) (P Q : A → S → Type 0)
      → ((a : A) (t : S) → P a t → Q a t)
      → Post r s P
      → Post r s Q
  Post-mono (ok a) s P Q f h = f a s h
  Post-mono (err e) s P Q f h = tt

  pub Yields-mono :
      (m : Exec S A) (s : S) (P Q : A → S → Type 0)
      → Yields m s P
      → ((a : A) (t : S) → P a t → Q a t)
      → Yields m s Q
  Yields-mono m s P Q h f = record { post = Post-mono (m s).0 (m s).1 P Q f h.post }

  pub Yields-pure : (a : A) (s : S) (Q : A → S → Type 0) → Q a s → Yields (pure a) s Q
  unfolding ◌>>=◌
  Yields-pure a s Q h = record { post = h }

  pub Yields-raise : (e : Error) (s : S) (Q : A → S → Type 0) → Yields (raise e) s Q
  unfolding ◌>>=◌
  Yields-raise e s Q = record { post = tt }

  pub Yields-gets : (f : S → A) (s : S) (Q : A → S → Type 0) → Q (f s) s → Yields (gets f) s Q
  unfolding ◌>>=◌
  Yields-gets f s Q h = record { post = h }

  pub Yields-if :
      (b : Bool) (m n : Exec S A) (s : S) (Q : A → S → Type 0)
      → (b ≡ true → Yields m s Q)
      → (b ≡ false → Yields n s Q)
      → Yields (if b then m else n) s Q
  Yields-if true m n s Q hm hn = hm refl
  Yields-if false m n s Q hm hn = hn refl

  Post-within :
      (prefix : String) (r : Result A) (s : S) (Q : A → S → Type 0)
      → Post r s Q
      → Post (within prefix (λ t. (r, t)) s).0 s Q
  unfolding ◌>>=◌
  Post-within prefix (ok a) s Q h = h
  Post-within prefix (err e) s Q h = tt

  pub Yields-within :
      (prefix : String) (m : Exec S A) (s : S) (Q : A → S → Type 0)
      → Yields m s Q
      → Yields (within prefix m) s Q
  unfolding ◌>>=◌
  Yields-within prefix m s Q h = record { post = Post-within prefix (m s).0 (m s).1 Q h.post }

module _ {S : Type 0} where
  pub Yields-modify :
      (f : S → S) (s : S) (Q : Unit → S → Type 0) → Q tt (f s) → Yields (modify f) s Q
  unfolding ◌>>=◌
  Yields-modify f s Q h = record { post = h }

module _ {S A B : Type 0} where
  Post-continue :
      (r : Result A) (f : A → Exec S B) (t : S) (P : A → S → Type 0) (Q : B → S → Type 0)
      → Post r t P
      → ((a : A) (u : S) → P a u → Yields (f a) u Q)
      → Post (((λ s. (r, s)) >>= f) t).0 (((λ s. (r, s)) >>= f) t).1 Q
  unfolding ◌>>=◌
  Post-continue (ok a) f t P Q h k = (k a t h).post
  Post-continue (err e) f t P Q h k = tt

  pub Yields-bind :
      (m : Exec S A) (f : A → Exec S B) (s : S) (P : A → S → Type 0) (Q : B → S → Type 0)
      → Yields m s P
      → ((a : A) (t : S) → P a t → Yields (f a) t Q)
      → Yields (m >>= f) s Q
  unfolding ◌>>=◌
  Yields-bind m f s P Q h k = record { post = Post-continue (m s).0 f (m s).1 P Q h.post k }
