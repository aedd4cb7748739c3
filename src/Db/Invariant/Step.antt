-- ===== src/Db/Invariant/Step.antt =====
-- server/internal/db/postgres.go, applyEvent: the invariant's parts around one write.
use mathlib.Core.Path.{subst}
use mathlib.Core.List.{append-nil}
use distribuid_system_simula.Prelude.{
  ℕ, String, true, false, [], ◌∷◌, ◌++◌, ◌==◌, ◌&&◌, ◌≡◌, ◌⊎◌, inl, inr, refl, sym, ap, ◌∙◌, eqb,
  arith, if◌then◌else◌, Bool-cases, All, All-map,
}
use distribuid_system_simula.Prelude.Int.{ℤ, pos, negsuc, suc_ℤ, leb_ℤ, eqb_ℤ}
use distribuid_system_simula.Models.{EventEnvelope, event_type_abort_plan}
use distribuid_system_simula.Models.Validity.{status-ne-aborted}
use distribuid_system_simula.Sequencing.{apply, decide}
use distribuid_system_simula.Db.Platform.{Platform}
use distribuid_system_simula.Db.Tables.{PendingEvent, Tables}
use distribuid_system_simula.Db.Rows.{is_row}
use distribuid_system_simula.Db.Effects.{order_state}
use distribuid_system_simula.Db.Invariant.{one_to, notified, IsBuffered, IsParked}
use distribuid_system_simula.Db.Invariant.Decisions.{
  IsWaiting, decide-next, decide-after_write, decide_unique, decide-suc_ℤ,
}
use distribuid_system_simula.Db.Invariant.Write.{Wrote}

one_to-suc_ℤ : (n : ℤ) → leb_ℤ (pos 0) n ≡ true → one_to (suc_ℤ n) ≡ one_to n ++ suc_ℤ n ∷ []
unfolding one_to
one_to-suc_ℤ (pos n) h = refl
one_to-suc_ℤ (negsuc n) h = absurd (ground arith)

leb_ℤ-suc : (n : ℤ) → leb_ℤ (pos 0) n ≡ true → leb_ℤ (pos 0) (suc_ℤ n) ≡ true
leb_ℤ-suc (pos n) h = ground arith
leb_ℤ-suc (negsuc n) h = absurd (ground arith)

module _ {P : Type 0} (env : Platform P) where
  -- Parked, or the next event of the order `id`.
  abbrev pub Waits : Tables P → ℕ → PendingEvent P → Type 0
  Waits t id r =
      IsParked env t r
      ⊎ ((r.order_id ≡ id) × (decide (order_state r.order_id t) r.plan_id r.seq_id ≡ apply))

  -- `Inv`, save that the event `next` of the order `id` may be in the buffer.
  pub record Draining (t : Tables P) (id : ℕ) (plan : String) (next : ℤ) : Type 0 where
    pub ledger : (j : ℕ) → notified env j t.outbox ≡ one_to (order_state j t).last_seq
    pub counted : (j : ℕ) → leb_ℤ (pos 0) (order_state j t).last_seq ≡ true
    pub there : (order_state id t).exists ≡ true
    pub ready : decide (order_state id t) plan next ≡ apply
    pub waits : All (λ r. IsBuffered env r × Waits t id r) t.pending

  -- What holds of a row before the event `seq` is written.
  abbrev pub Before : Tables P → ℕ → String → ℤ → PendingEvent P → Type 0
  Before t id plan seq r = (is_row id plan seq r ≡ false) × IsBuffered env r × Waits t id r

  Waits-IsWaiting :
      (t : Tables P) (id : ℕ) (r : PendingEvent P)
      → Waits t id r
      → IsWaiting (decide (order_state r.order_id t) r.plan_id r.seq_id)
  Waits-IsWaiting t id r (inl (inl e)) = inl e
  Waits-IsWaiting t id r (inl (inr e)) = inr (inl e)
  Waits-IsWaiting t id r (inr e) = inr (inr e.1)

  IsWaiting-Waits :
      (t : Tables P) (id : ℕ) (r : PendingEvent P)
      → r.order_id ≡ id
      → IsWaiting (decide (order_state r.order_id t) r.plan_id r.seq_id)
      → Waits t id r
  IsWaiting-Waits t id r e (inl h) = inl (inl h)
  IsWaiting-Waits t id r e (inr (inl h)) = inl (inr h)
  IsWaiting-Waits t id r e (inr (inr h)) = inr (e, h)

  pub zero_value :
      (id : ℕ) (t : Tables P)
      → (order_state id t).exists ≡ false
      → (order_state id t).last_seq ≡ pos 0
  zero_value id t h = ground arith

  module _ {event : EventEnvelope} {id : ℕ} {seq : ℤ} {t u : Tables P}
      (w : Wrote env event id seq t u) (live : (event.event_type == event_type_abort_plan) ≡ false)
      (ready : decide (order_state id t) event.plan_id seq ≡ apply) where
    Waits-Wrote_same :
        (r : PendingEvent P) → r.order_id ≡ id → Before t id event.plan_id seq r → Waits u id r
    Waits-Wrote_same r e b =
        let now = ap (λ j. order_state j u) e ∙ w.set in
        let before =
          subst (λ j. IsWaiting (decide (order_state j t) r.plan_id r.seq_id)) e
            (Waits-IsWaiting t id r b.2) in
        let other : (r.plan_id == event.plan_id && eqb_ℤ r.seq_id seq) ≡ false = ground arith in
        IsWaiting-Waits u id r e (
          subst (λ s. IsWaiting (decide s r.plan_id r.seq_id)) (sym now)
            (decide-after_write (order_state id t) event.plan_id _ seq r.plan_id r.seq_id ready
              (status-ne-aborted event.event_type live) b.1.positive other before))

    Waits-Wrote_other :
        (r : PendingEvent P) → eqb id r.order_id ≡ false → Waits t id r → Waits u id r
    Waits-Wrote_other r ne (inl h) = inl (rw (w.others r.order_id ne) h)
    Waits-Wrote_other r ne (inr (e, h)) = absurd (ground arith)

    Waits-Wrote : (r : PendingEvent P) → Before t id event.plan_id seq r → Waits u id r
    Waits-Wrote r b = elim (Bool-cases (eqb id r.order_id)) [
      | inl same ↦ Waits-Wrote_same r (ground arith) b
      | inr other ↦ Waits-Wrote_other r other b.2
    ]

    next_seq : (j : ℕ) → id ≡ j → seq ≡ suc_ℤ (order_state j t).last_seq
    next_seq j e =
        subst (λ k. seq ≡ suc_ℤ (order_state k t).last_seq) e
          (decide-suc_ℤ (order_state id t) event.plan_id seq (zero_value id t) ready)

    -- The order after the write, against the one before.
    last_seq-Wrote :
        (j : ℕ)
        → (order_state j u).last_seq
          ≡ (if eqb id j then suc_ℤ (order_state j t).last_seq else (order_state j t).last_seq)
    last_seq-Wrote j = elim (Bool-cases (eqb id j)) [
      | inl same ↦
          let e : id ≡ j = ground arith in
          rw same (
            subst (λ k. (order_state k u).last_seq ≡ seq) e (ap (λ s. s.last_seq) w.set)
            ∙ next_seq j e)
      | inr other ↦ rw other (ap (λ s. s.last_seq) (w.others j other))
    ]

    ledger-Wrote :
        ((j : ℕ) → notified env j t.outbox ≡ one_to (order_state j t).last_seq)
        → ((j : ℕ) → leb_ℤ (pos 0) (order_state j t).last_seq ≡ true)
        → (j : ℕ) → notified env j u.outbox ≡ one_to (order_state j u).last_seq
    ledger-Wrote ledger counted j = elim (Bool-cases (eqb id j)) [
      | inl same ↦
          w.noticed j
          ∙ rw (
            last_seq-Wrote j,
            same,
            ledger j,
            one_to-suc_ℤ _ (counted j),
            next_seq j (ground arith),
          )
      | inr other ↦ w.noticed j ∙ rw (last_seq-Wrote j, other, ledger j, append-nil)
    ]

    counted-Wrote :
        ((j : ℕ) → leb_ℤ (pos 0) (order_state j t).last_seq ≡ true)
        → (j : ℕ) → leb_ℤ (pos 0) (order_state j u).last_seq ≡ true
    counted-Wrote counted j = elim (Bool-cases (eqb id j)) [
      | inl same ↦ rw (last_seq-Wrote j, same) (leb_ℤ-suc _ (counted j))
      | inr other ↦ rw (last_seq-Wrote j, other) (counted j)
    ]

    pub Draining-Wrote :
        ((j : ℕ) → notified env j t.outbox ≡ one_to (order_state j t).last_seq)
        → ((j : ℕ) → leb_ℤ (pos 0) (order_state j t).last_seq ≡ true)
        → All (Before t id event.plan_id seq) t.pending
        → Draining u id event.plan_id (suc_ℤ seq)
    Draining-Wrote ledger counted rows = record {
      ledger = ledger-Wrote ledger counted;
      counted = counted-Wrote counted;
      there = rw w.set refl;
      ready = rw w.set (decide-next event.plan_id _ seq (status-ne-aborted event.event_type live));
      waits = rw w.pending_kept (All-map t.pending (λ r b. (b.1, Waits-Wrote r b)) rows);
    }

  -- With nothing left to take, nothing is ready.
  pub drained-IsParked :
      (t : Tables P) (id : ℕ) (plan : String) (next : ℤ) (r : PendingEvent P)
      → (order_state id t).exists ≡ true
      → decide (order_state id t) plan next ≡ apply
      → is_row id plan next r ≡ false
      → Waits t id r
      → IsParked env t r
  drained-IsParked t id plan next r there ready missed (inl h) = h
  drained-IsParked t id plan next r there ready missed (inr (e, h)) =
      let same =
        decide_unique (order_state id t) plan next r.plan_id r.seq_id there ready
          (subst (λ j. decide (order_state j t) r.plan_id r.seq_id ≡ apply) e h) in
      absurd (ground arith)
