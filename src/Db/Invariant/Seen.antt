-- ===== src/Db/Invariant/Seen.antt =====
-- Events that have reached their order: applied ones, and those in the buffer.
use distribuid_system_simula.Prelude.{
  ℕ, zero, suc, String, true, false, none, ◌≡◌, ◌≢◌, arith, Bool-cases, inl, inr,
}
use distribuid_system_simula.Prelude.Int.{ℤ, pos, negsuc, suc_ℤ, leb_ℤ}
use distribuid_system_simula.Db.Tables.{PendingEvent, Tables}
use distribuid_system_simula.Db.Rows.{is_row, find_pending, remove_pending}
use distribuid_system_simula.Db.Rows.Laws.{find_pending-delete}
use distribuid_system_simula.Db.Effects.{order_state}

pub leb_ℤ-suc_right : (q n : ℤ) → leb_ℤ q (suc_ℤ n) ≡ false → leb_ℤ q n ≡ false
leb_ℤ-suc_right q (pos n) h = ground arith
leb_ℤ-suc_right q (negsuc zero) h = ground arith
leb_ℤ-suc_right q (negsuc (suc n)) h = ground arith

pub between : (q n : ℤ) → leb_ℤ q n ≡ false → leb_ℤ q (suc_ℤ n) ≡ true → q ≡ suc_ℤ n
between q (pos n) h k = ground arith
between q (negsuc zero) h k = ground arith
between q (negsuc (suc n)) h k = ground arith

module _ {P : Type 0} where
  -- The event `q` of the plan was applied to the order `id`, or waits in the buffer.
  abbrev pub Seen : ℕ → String → ℤ → Tables P → Type 0
  Seen id plan q t =
      leb_ℤ q (order_state id t).last_seq ≡ false → find_pending (is_row id plan q) t.pending ≢ none

  other_row :
      (id : ℕ) (plan : String) (q n : ℤ) (r : PendingEvent P)
      → leb_ℤ q n ≡ false
      → is_row id plan q r ≡ true
      → is_row id plan n r ≡ false
  other_row id plan q n r h hit = ground arith

  -- When the next event is taken from the buffer and applied, nothing is lost.
  pub Seen-take :
      (id : ℕ) (plan : String) (q next : ℤ) (t u : Tables P)
      → next ≡ suc_ℤ (order_state id t).last_seq
      → (order_state id u).last_seq ≡ next
      → u.pending ≡ (remove_pending (is_row id plan next) t).pending
      → Seen id plan q t
      → Seen id plan q u
  unfolding remove_pending
  Seen-take id plan q next t u is_next last rest seen above =
      let beyond : leb_ℤ q next ≡ false = rw last at above in
      rw
        (
          rest,
          find_pending-delete (is_row id plan q) (is_row id plan next) t.pending
              (λ r. other_row id plan q next r beyond),
        )
        (seen (leb_ℤ-suc_right q _ (rw is_next at beyond)))

  -- An event that is applied as it arrives.
  pub Seen-apply :
      (id : ℕ) (plan : String) (q next : ℤ) (t u : Tables P)
      → next ≡ suc_ℤ (order_state id t).last_seq
      → (order_state id u).last_seq ≡ next
      → u.pending ≡ t.pending
      → Seen id plan q t
      → Seen id plan q u
  Seen-apply id plan q next t u is_next last rest seen above =
      rw rest (seen (leb_ℤ-suc_right q _ (rw (last, is_next) at above)))

  -- When the next event is not in the buffer, taking it loses nothing.
  pub Seen-missing :
      (id : ℕ) (plan : String) (q next : ℤ) (t : Tables P)
      → next ≡ suc_ℤ (order_state id t).last_seq
      → find_pending (is_row id plan next) t.pending ≡ none
      → Seen id plan q t
      → Seen id plan q (remove_pending (is_row id plan next) t)
  unfolding remove_pending
  Seen-missing id plan q next t is_next missing seen above = elim (Bool-cases (leb_ℤ q next)) [
    | inr beyond ↦
        rw
          (find_pending-delete (is_row id plan q) (is_row id plan next) t.pending
            (λ r. other_row id plan q next r beyond))
          (seen above)
    | inl within ↦
        let same : q ≡ next = rw is_next (between q _ above (rw is_next at within)) in
        absurd (seen above (rw same missing))
  ]
