-- ===== src/Db/Expiry/Sunk.antt =====
-- server/internal/db/postgres.go, ExpirePending: what its calls keep of the sink's state, whatever
-- fails.
use distribuid_system_simula.Prelude.{ℕ, suc, Bool, List, [], ◌∷◌}
use distribuid_system_simula.Prelude.Int.{ℤ}
use distribuid_system_simula.Exec.{Result, ok, err, Exec, pure, ◌>>=◌}
use distribuid_system_simula.Models.{EventEnvelope}
use distribuid_system_simula.Db.Platform.{Platform}
use distribuid_system_simula.Db.Tables.{PendingEvent, Session}
use distribuid_system_simula.Db.Statements.{Tx, request}
use distribuid_system_simula.Db.Expiry.{
  PendingRow, in_tx, in_sink, begin_sinking, expire_rows, expire_body, expire_pending,
}

module _ {P K : Type 0} (J : K → Type 0) where
  record Keeps {A : Type 0} (m : Exec (Session P × K) A) : Type 0 where
    pub run : (s : Session P × K) → J s.1 → J (m s).1.1

  module _ {A : Type 0} where
    Keeps-pure : (a : A) → Keeps (pure a)
    unfolding ◌>>=◌
    Keeps-pure a = record { run = λ s h. h }

    Keeps-in_tx : (m : Tx P A) → Keeps (in_tx m)
    unfolding in_tx
    Keeps-in_tx m = record { run = λ s h. h }

    Keeps-in_sink : (m : Exec K A) → ((k : K) → J k → J (m k).1) → Keeps (in_sink m)
    unfolding in_sink
    Keeps-in_sink m f = record { run = λ s h. f s.1 h }

  module _ {A B : Type 0} where
    continued :
        (r : Result A) (f : A → Exec (Session P × K) B) (s : Session P × K)
        → ((a : A) → Keeps (f a))
        → J s.1
        → J (((λ (t : Session P × K). (r, t)) >>= f) s).1.1
    unfolding ◌>>=◌
    continued (ok a) f s k h = (k a).run s h
    continued (err e) f s k h = h

    Keeps-bind :
        (m : Exec (Session P × K) A) (f : A → Exec (Session P × K) B)
        → Keeps m
        → ((a : A) → Keeps (f a))
        → Keeps (m >>= f)
    unfolding ◌>>=◌
    Keeps-bind m f h k = record { run = λ s j. continued (m s).0 f (m s).1 k (h.run s j) }

  Keeps-begin_sinking :
      {A : Type 0} (body : Exec (Session P × K) A) → Keeps body → Keeps (begin_sinking body)
  unfolding begin_sinking
  Keeps-begin_sinking body h =
      Keeps-bind _ _ (Keeps-in_tx request) λ _. record { run = λ s j. h.run s j }

  module _ (env : Platform P) (sink : EventEnvelope → Exec K Unit)
      (kept : (e : EventEnvelope) (k : K) → J k → J (sink e k).1) where
    Keeps-expire_rows : (rows : List (PendingRow P)) (n : ℕ) → Keeps (expire_rows env sink rows n)
    unfolding expire_rows
    Keeps-expire_rows [] n = Keeps-pure n
    Keeps-expire_rows (p ∷ rows) n = Keeps-bind _ _ (Keeps-in_tx _) λ e.
        Keeps-bind _ _ (Keeps-in_sink (sink e) (kept e))
          λ _. Keeps-bind _ _ (Keeps-in_tx _) λ _. Keeps-expire_rows rows (suc n)

    -- What every call of the sink keeps, `ExpirePending` keeps.
    pub expire_pending-sink :
        (locked : PendingEvent P → Bool) (max_age limit : ℤ) (s : Session P × K)
        → J s.1
        → J (expire_pending env sink locked max_age limit s).1.1
    unfolding expire_pending expire_body
    expire_pending-sink locked max_age limit s h =
        (Keeps-begin_sinking _
            (Keeps-bind _ _ (Keeps-in_tx _) λ rows. Keeps-expire_rows rows 0)).run
          s h
