-- ===== src/Db/Outbox/Settled.antt =====
-- server/internal/db/outbox.go: claims after MarkOutboxDelivered and MarkOutboxFailed.
use mathlib.Core.List.{Memᴰ}
use distribuid_system_simula.Prelude.{
  Bool-cases, ℕ, String, Bool, true, false, some, List, ◌≡◌, ◌≢◌, ◌⊎◌, inl, inr, refl, sym, ap, ◌∙◌,
  All, All-map, arith, if◌then◌else◌,
}
use distribuid_system_simula.Prelude.Int.{ℤ}
use distribuid_system_simula.Exec.{ok, ◌>>=◌}
use distribuid_system_simula.Db.Platform.{Platform}
use distribuid_system_simula.Db.Tables.{OutboxRow, Tables, Session}
use distribuid_system_simula.Db.Statements.{write, cast_uuid, or_reject}
use distribuid_system_simula.Db.Outbox.{
  OutboxEntry, entry_of, update_by_id, mark_outbox_delivered, mark_outbox_failed, claim_outbox,
}
use distribuid_system_simula.Db.Outbox.Rows.{is_waiting, is_id, update_outbox}
use distribuid_system_simula.Db.Outbox.Selected.{update-Mem}
use distribuid_system_simula.Db.Outbox.Autocommit.{autocommit_ok}
use distribuid_system_simula.Db.Outbox.Heads.{claimable_parts, conflict}
use distribuid_system_simula.Db.Outbox.Claims.{claim_outbox-IsClaimable}

module _ {P : Type 0} (env : Platform P) where
  -- No row of the id waits.
  abbrev IsSettled : ℕ → Tables P → Type 0
  IsSettled id t = (r : OutboxRow P) → Memᴰ r t.outbox → r.id ≡ id → is_waiting r ≡ false

  settled_row :
      (change : OutboxRow P → OutboxRow P) (id : ℕ) (old r : OutboxRow P)
      → ((r : OutboxRow P) → ((change r).id ≡ r.id) × (is_waiting (change r) ≡ false))
      → r ≡ (if is_id id old then change old else old)
      → r.id ≡ id
      → is_waiting r ≡ false
  settled_row change id old r settles e is = elim (Bool-cases (is_id id old)) [
    | inl hit ↦ let f = rw hit at e in rw f (settles old).1
    | inr miss ↦ let f = rw miss at e in absurd (ground (arith, ap (λ x. x.id) f))
  ]

  id_of_text :
      (text : String) (id n : ℕ)
      → env.uuid (env.uuid_text n) ≡ some n
      → env.uuid text ≡ some id
      → env.uuid_text n ≡ text
      → n ≡ id
  id_of_text text id n reads cast same = let f = sym reads ∙ ap env.uuid same ∙ cast in cc

  update_by_id-IsSettled :
      (text : String) (change : ℕ → OutboxRow P → OutboxRow P) (id : ℕ) (s u : Session P)
      → ((now : ℕ) (r : OutboxRow P)
          → ((change now r).id ≡ r.id) × (is_waiting (change now r) ≡ false))
      → env.uuid text ≡ some id
      → update_by_id env text change s ≡ (ok tt, u)
      → IsSettled id u.tables
  unfolding update_by_id cast_uuid or_reject write update_outbox ◌>>=◌
  update_by_id-IsSettled text change id s u settles cast ran r m is =
      let ran' = rw cast at ran in
      let (old, _, e) =
        update-Mem (is_id id) (change s.now) r s.outbox
          (rw (sym (ap (λ p. p.1.outbox) ran')) at m) in
      settled_row (change s.now) id old r (settles s.now) e is

  claim-IsSettled :
      (locked : ℕ → Bool) (limit lease : ℤ) (text : String) (id : ℕ) (u u' : Session P)
      (entries : List (OutboxEntry P))
      → ((n : ℕ) → env.uuid (env.uuid_text n) ≡ some n)
      → env.uuid text ≡ some id
      → IsSettled id u.tables
      → claim_outbox env locked limit lease u ≡ (ok entries, u')
      → All (λ e. e.id ≢ text) entries
  unfolding entry_of
  claim-IsSettled locked limit lease text id u u' entries reads cast settled h =
      All-map entries
        (λ e (r, there, is, claimable, _) same.
          let (waits, _, _) = claimable_parts u.now u.outbox r claimable in
          conflict waits (
            settled r there
              (id_of_text text id r.id (reads r.id) cast (sym (ap (λ x. x.id) is) ∙ same))))
        (claim_outbox-IsClaimable env locked limit lease u u' entries h)

  -- With UUIDs whose text reads back: an entry whose delivery, or whose death, was recorded with
  -- no error is not handed out by a claim on the tables that this has left.
  pub settled_not-claimed :
      (locked : ℕ → Bool) (limit lease retry_in : ℤ) (text last_err : String) (id : ℕ)
      (s s' u u' : Session P) (entries : List (OutboxEntry P))
      → ((n : ℕ) → env.uuid (env.uuid_text n) ≡ some n)
      → env.uuid text ≡ some id
      → (mark_outbox_delivered env text s ≡ (ok tt, s'))
        ⊎ (mark_outbox_failed env text retry_in last_err true s ≡ (ok tt, s'))
      → u.tables ≡ s'.tables
      → claim_outbox env locked limit lease u ≡ (ok entries, u')
      → All (λ e. e.id ≢ text) entries
  unfolding mark_outbox_delivered mark_outbox_failed is_waiting
  settled_not-claimed locked limit lease retry_in text last_err id s s' u u' entries reads cast
        marked same h =
      claim-IsSettled locked limit lease text id u u' entries reads cast (rw same (settles marked))
        h
    where
      settles :
          (mark_outbox_delivered env text s ≡ (ok tt, s'))
            ⊎ (mark_outbox_failed env text retry_in last_err true s ≡ (ok tt, s'))
          → IsSettled id s'.tables
      settles (inl m) =
          let (ran, kept) = autocommit_ok _ (update_by_id env text _) s s' tt m in
          rw kept (update_by_id-IsSettled text _ id s _ (λ now r. (refl, refl)) cast ran)
      settles (inr m) =
          let (ran, kept) = autocommit_ok _ (update_by_id env text _) s s' tt m in
          rw kept (update_by_id-IsSettled text _ id s _ (λ now r. (refl, ground arith)) cast ran)
