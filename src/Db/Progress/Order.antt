-- ===== src/Db/Progress/Order.antt =====
-- server/internal/db/postgres.go, ApplyEvent: a plan's events where no request fails.
use distribuid_system_simula.Prelude.{ℕ, suc, String, List, [], ◌∷◌, ◌≡◌, ◌<◌, All}
use distribuid_system_simula.Prelude.Int.{pos, leb_ℤ}
use distribuid_system_simula.Exec.{ok}
use distribuid_system_simula.Models.{EventEnvelope}
use distribuid_system_simula.Db.Platform.{Platform, RoundTrips}
use distribuid_system_simula.Db.Tables.{Tables, Session}
use distribuid_system_simula.Db.Effects.{order_state}
use distribuid_system_simula.Db.Invariant.{one_to, notified, Inv}
use distribuid_system_simula.Db.Reordering.{Accepts, HasSeq, IsOf, apply_all, apply_all_in_order}
use distribuid_system_simula.Db.Progress.{
  true, Succeeds, Succeeds-pure, Succeeds-bind, Succeeds-Ran,
}
use distribuid_system_simula.Db.Progress.Writes.{Storable, Loadable}
use distribuid_system_simula.Db.Progress.Apply.{apply_event-Succeeds}

module _ {P : Type 0} (env : Platform P) (trips : RoundTrips env) where
  apply_all-Succeeds :
      (events : List EventEnvelope) (t : Tables P)
      → All (Storable env) events
      → All (Loadable env) t.pending
      → Succeeds t (apply_all env events) (λ _ u. All (Loadable env) u.pending)
  unfolding apply_all
  apply_all-Succeeds [] t es h = Succeeds-pure _ h
  apply_all-Succeeds (e ∷ es) t each h =
      Succeeds-bind _ _ _ (apply_event-Succeeds env trips e t each.0 h)
        λ _ u k. apply_all-Succeeds es u each.1 k

  -- On tables with the invariant, with an order that the plan may use and a buffer of events that
  -- the columns take, and where no request fails: if valid events of the plan whose values the
  -- columns take, and whose next seq_id an INTEGER can hold, arrive in any order, repeated or not,
  -- with the seq_ids 1, …, n among them, then `ApplyEvent` succeeds for each of them, in the end
  -- the order's last applied seq_id is at least n, and the order has notified of 1, 2, … up to
  -- that one, each once and in order.
  pub apply_all_delivers :
      (id : ℕ) (plan : String) (n : ℕ) (events : List EventEnvelope) (s : Session P)
      → s.faults ≡ []
      → All (IsOf env id plan) events
      → All (Storable env) events
      → All (Loadable env) s.pending
      → Inv env s.tables
      → Accepts (order_state id s.tables) plan
      → ((k : ℕ) → k < n → HasSeq (pos (suc k)) events)
      → (s' : Session P) × (apply_all env events s ≡ (ok tt, s'))
        × (leb_ℤ (pos n) (order_state id s'.tables).last_seq ≡ true)
        × (notified env id s'.outbox ≡ one_to (order_state id s'.tables).last_seq)
  apply_all_delivers id plan n events s quiet o fit loads v a each =
      let r = Succeeds-Ran s quiet (apply_all-Succeeds events s.tables fit loads) in
      let (reached, ledger) =
        apply_all_in_order env trips id plan n events s r.end o v a each r.ran in
      (r.end, r.ran, reached, ledger)
