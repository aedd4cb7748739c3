-- ===== src/Exec.antt =====
-- Go functions that change state and return an error: the state comes back beside the error, since
-- what was written before it stays written until a rollback.
pub mod Yields
use distribuid_system_simula.Prelude.{String}

pub data Error : Type 0 where
  -- `*pgconn.PgError`, by its SQLSTATE and its message
  pg : String → String → Error
  -- any other error, by its text
  plain : String → Error
  -- `fmt.Errorf("prefix: %w", err)`
  wrap : String → Error → Error
  -- a Go panic, here the dereference of a nil pointer
  panic : Error
  -- the fuel of a loop of the model ran out
  out_of_fuel : Error

pub data Result (A : Type 0) : Type 0 where
  ok : A → Result A
  err : Error → Result A

abbrev pub Exec : Type 0 → Type 0 → Type 0
Exec S A = S → Result A × S

wrapped : {A : Type 0} → String → Result A → Result A
wrapped prefix (ok a) = ok a
wrapped prefix (err e) = err (wrap prefix e)

module _ {S A : Type 0} where
  pub pure : A → Exec S A
  pure a s = (ok a, s)

  pub raise : Error → Exec S A
  raise e s = (err e, s)

  pub gets : (S → A) → Exec S A
  gets f s = (ok (f s), s)

pub modify : {S : Type 0} → (S → S) → Exec S Unit
modify f s = (ok tt, f s)

module _ {S A B : Type 0} where
  continue : Result A → (A → Exec S B) → Exec S B
  continue (ok a) f s = f a s
  continue (err e) f s = (err e, s)

module _ {S A : Type 0} where
  -- `if err != nil { return fmt.Errorf("prefix: %w", err) }` around the action
  pub within : String → Exec S A → Exec S A
  unfolding wrapped
  within prefix m s = let (r, s') = m s in (wrapped prefix r, s')

module _ {S A B : Type 0} where
  infixl 10 ◌>>=◌ ◌>>◌
  -- opening this opens the other actions too
  unfoldable pub ◌>>=◌ : Exec S A → (A → Exec S B) → Exec S B
  unfolding continue pure raise gets modify within wrapped
  ◌>>=◌ m f s = let (r, s') = m s in continue r f s'

  abbrev pub ◌>>◌ : Exec S A → Exec S B → Exec S B
  m >> n = m >>= λ _. n
