-- ===== src/Db/Outbox/Kept.antt =====
-- server/internal/db/outbox.go: its methods and the invariant of the tables.
use distribuid_system_simula.Prelude.{
  ℕ, String, Bool, List, [], ◌∷◌, ◌≡◌, refl, ◌∙◌, inl, inr, Bool-cases, Option-cases,
}
use distribuid_system_simula.Prelude.Int.{ℤ, pos, leb_ℤ}
use distribuid_system_simula.Exec.{Result, ok, err, within, ◌>>=◌}
use distribuid_system_simula.Db.Platform.{Platform}
use distribuid_system_simula.Db.Tables.{OutboxRow, Tables, Session, Fault, fine, lost, unacked}
use distribuid_system_simula.Db.Statements.{Tx, check, write, cast_uuid, or_reject}
use distribuid_system_simula.Db.Repository.{finish}
use distribuid_system_simula.Db.Invariant.{Inv, notified}
use distribuid_system_simula.Db.Outbox.{
  autocommit, claim_heads, claim_outbox, update_by_id, mark_outbox_delivered, mark_outbox_failed,
  release_outbox,
}
use distribuid_system_simula.Db.Outbox.Rows.{update_rows, update_outbox}

module _ {P : Type 0} (env : Platform P) where
  -- The change leaves alone what a notification says.
  abbrev SameNotice : (OutboxRow P → OutboxRow P) → Type 0
  SameNotice g =
      (r : OutboxRow P)
      → ((g r).aggregate_id ≡ r.aggregate_id)
        × ((g r).event_type ≡ r.event_type)
        × ((g r).payload ≡ r.payload)

  notified-update_rows :
      (id : ℕ) (f : OutboxRow P → Bool) (g : OutboxRow P → OutboxRow P) (rows : List (OutboxRow P))
      → SameNotice g
      → notified env id (update_rows f g rows) ≡ notified env id rows
  unfolding notified update_rows
  notified-update_rows id f g [] same = refl
  notified-update_rows id f g (r ∷ rest) same = elim (Bool-cases (f r)) [
    | inl hit ↦
        rw (hit, (same r).0, (same r).1, (same r).2, notified-update_rows id f g rest same) refl
    | inr miss ↦ rw (miss, notified-update_rows id f g rest same) refl
  ]

  update_outbox-Inv :
      (f : OutboxRow P → Bool) (g : OutboxRow P → OutboxRow P) (t : Tables P)
      → SameNotice g
      → Inv env t
      → Inv env (update_outbox f g t)
  unfolding update_outbox
  update_outbox-Inv f g t same v = record {
    ledger = λ id. notified-update_rows id f g t.outbox same ∙ v.ledger id;
    counted = v.counted;
    parked = v.parked;
  }

  finish-Inv :
      {A : Type 0} (fs : List Fault) (t : Tables P) (r : Result A) (u : Session P)
      → Inv env t
      → Inv env u.tables
      → Inv env (finish fs t r u).1.tables
  unfolding finish
  finish-Inv fs t (err e) u v w = v
  finish-Inv [] t (ok a) u v w = w
  finish-Inv (fine ∷ fs) t (ok a) u v w = w
  finish-Inv (lost e ∷ fs) t (ok a) u v w = v
  finish-Inv (unacked e ∷ fs) t (ok a) u v w = w

  autocommit-Inv :
      {A : Type 0} (prefix : String) (m : Tx P A) (s : Session P)
      → Inv env s.tables
      → Inv env (m s).1.tables
      → Inv env (within prefix (autocommit m) s).1.tables
  unfolding autocommit ◌>>=◌
  autocommit-Inv prefix m s v w = finish-Inv (m s).1.faults s.tables (m s).0 (m s).1 v w

  claim_heads-Inv :
      (locked : ℕ → Bool) (limit lease : ℤ) (s : Session P)
      → Inv env s.tables
      → Inv env (claim_heads env locked limit lease s).1.tables
  unfolding claim_heads check write ◌>>=◌
  claim_heads-Inv locked limit lease s v = elim (Bool-cases (leb_ℤ (pos 0) limit)) [
    | inl fits ↦ rw fits (update_outbox-Inv _ _ s.tables (λ r. (refl, refl, refl)) v)
    | inr negative ↦ rw negative v
  ]

  update_by_id-Inv :
      (text : String) (g : ℕ → OutboxRow P → OutboxRow P) (s : Session P)
      → ((now : ℕ) → SameNotice (g now))
      → Inv env s.tables
      → Inv env (update_by_id env text g s).1.tables
  unfolding update_by_id cast_uuid or_reject write ◌>>=◌
  update_by_id-Inv text g s same v = elim (Option-cases (env.uuid text)) [
    | inl none_ ↦ rw none_ v
    | inr (id, is) ↦ rw is (update_outbox-Inv _ _ s.tables (same s.now) v)
  ]

  pub claim_outbox-Inv :
      (locked : ℕ → Bool) (limit lease : ℤ) (s : Session P)
      → Inv env s.tables
      → Inv env (claim_outbox env locked limit lease s).1.tables
  unfolding claim_outbox
  claim_outbox-Inv locked limit lease s v =
      autocommit-Inv _ (claim_heads env locked limit lease) s v
        (claim_heads-Inv locked limit lease s v)

  pub mark_outbox_delivered-Inv :
      (text : String) (s : Session P)
      → Inv env s.tables
      → Inv env (mark_outbox_delivered env text s).1.tables
  unfolding mark_outbox_delivered
  mark_outbox_delivered-Inv text s v =
      autocommit-Inv _ (update_by_id env text _) s v
        (update_by_id-Inv text _ s (λ now r. (refl, refl, refl)) v)

  pub mark_outbox_failed-Inv :
      (text : String) (retry_in : ℤ) (e : String) (dead : Bool) (s : Session P)
      → Inv env s.tables
      → Inv env (mark_outbox_failed env text retry_in e dead s).1.tables
  unfolding mark_outbox_failed
  mark_outbox_failed-Inv text retry_in e dead s v =
      autocommit-Inv _ (update_by_id env text _) s v
        (update_by_id-Inv text _ s (λ now r. (refl, refl, refl)) v)

  pub release_outbox-Inv :
      (text : String) (s : Session P)
      → Inv env s.tables
      → Inv env (release_outbox env text s).1.tables
  unfolding release_outbox
  release_outbox-Inv text s v =
      autocommit-Inv _ (update_by_id env text _) s v
        (update_by_id-Inv text _ s (λ now r. (refl, refl, refl)) v)
