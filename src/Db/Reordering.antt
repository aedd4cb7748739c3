-- ===== src/Db/Reordering.antt =====
-- server/internal/db/postgres.go, ApplyEvent: events that arrive in any order and repeatedly.
use mathlib.Core.Path.{subst, subst₂}
use mathlib.Core.Bool.{false≢true}
use distribuid_system_simula.Prelude.{
  ap, ◌∙◌, ℕ, suc, String, true, false, none, some, List, [], ◌∷◌, ◌==◌, eq_iff, ◌≡◌, ◌⊎◌, inl, inr,
  refl, sym, ◌<◌, All, arith, Bool-cases, Option-cases,
}
use distribuid_system_simula.Prelude.Int.{ℤ, pos, negsuc, leb_ℤ}
use distribuid_system_simula.Exec.{ok, pure, ◌>>◌}
use distribuid_system_simula.Models.{EventEnvelope, status_aborted}
use distribuid_system_simula.Models.Validity.{IsSequenced}
use distribuid_system_simula.Sequencing.{OrderState, apply, duplicate, buffer, decide}
use distribuid_system_simula.Db.Platform.{Platform, RoundTrips}
use distribuid_system_simula.Db.Tables.{Tables, Session}
use distribuid_system_simula.Db.Rows.{is_row, find_pending}
use distribuid_system_simula.Db.Rows.Laws.{find_pending-All}
use distribuid_system_simula.Db.Statements.{Tx}
use distribuid_system_simula.Db.Ensures.{
  Ensures, Ensures-ok, Ensures-pure, Ensures-mono, Ensures-bind,
}
use distribuid_system_simula.Db.Transaction.{Ensures-begin_func}
use distribuid_system_simula.Db.Repository.{Applied, apply_event}
use distribuid_system_simula.Db.Effects.{order_state}
use distribuid_system_simula.Db.Invariant.{one_to, notified, Inv}
use distribuid_system_simula.Db.Invariant.Step.{zero_value}
use distribuid_system_simula.Db.Invariant.Seen.{Seen}
use distribuid_system_simula.Db.Invariant.Buffer.{parked-Before}
use distribuid_system_simula.Db.Invariant.Apply.{again, Done, apply_body-Handled}

-- The order takes events of the plan: it does not exist yet, or is open and belongs to the plan.
abbrev pub Accepts : OrderState → String → Type 0
Accepts s plan =
    (s.exists ≡ false)
    ⊎ ((s.exists ≡ true) × (s.plan_id ≡ plan) × ((s.status == status_aborted) ≡ false))

decide-Accepts :
    (s : OrderState) (plan : String) (seq : ℤ)
    → Accepts s plan
    → (decide s plan seq ≡ apply) ⊎ (decide s plan seq ≡ buffer) ⊎ (decide s plan seq ≡ duplicate)
unfolding decide
decide-Accepts s plan seq h = ground (arith, eq_iff s.plan_id plan)

duplicate-Accepts :
    (s : OrderState) (plan : String) (seq : ℤ) → decide s plan seq ≡ duplicate → Accepts s plan
unfolding decide
duplicate-Accepts s plan seq h = ground (arith, eq_iff s.plan_id plan)

duplicate-le :
    (s : OrderState) (plan : String) (seq : ℤ)
    → decide s plan seq ≡ duplicate
    → leb_ℤ seq s.last_seq ≡ true
unfolding decide
duplicate-le s plan seq h = ground arith

-- The event after the last one is next.
Accepts-next :
    (s : OrderState) (plan : String) (n : ℕ)
    → Accepts s plan
    → (s.exists ≡ false → s.last_seq ≡ pos 0)
    → s.last_seq ≡ pos n
    → decide s plan (pos (suc n)) ≡ apply
unfolding decide
Accepts-next s plan n h zero e = ground (arith, eq_iff s.plan_id plan)

short_lt : (l : ℤ) (n m : ℕ) → l ≡ pos m → leb_ℤ (pos n) l ≡ false → m < n
short_lt l n m e h = let k : leb_ℤ (pos n) (pos m) ≡ false = rw e at h in ground arith

next_above : (l : ℤ) (m : ℕ) → l ≡ pos m → leb_ℤ (pos (suc m)) l ≡ false
next_above l m e = rw e (ground arith)

pub counted-pos : (n : ℤ) → leb_ℤ (pos 0) n ≡ true → (m : ℕ) × (n ≡ pos m)
counted-pos (pos m) h = (m, refl)
counted-pos (negsuc m) h = absurd (ground arith)

-- whether one of the events has the seq_id
abbrev pub HasSeq : ℤ → List EventEnvelope → Type 0
HasSeq seq [] = ⊥
HasSeq seq (e ∷ es) = (e.seq_id ≡ some seq) ⊎ HasSeq seq es

module _ {P : Type 0} (env : Platform P) where
  -- One `ApplyEvent` after another, until one fails.
  unfoldable pub apply_all : List EventEnvelope → Tx P Unit
  apply_all [] = pure tt
  apply_all (e ∷ es) = do apply_event env e; apply_all es

  -- The event belongs to the plan and to the order `id`.
  pub record IsOf (id : ℕ) (plan : String) (e : EventEnvelope) : Type 0 where
    pub sequenced : IsSequenced e
    pub order : env.uuid e.order_id ≡ some id
    pub owner : e.plan_id ≡ plan

module _ {P : Type 0} (env : Platform P) (trips : RoundTrips env) where
  pub record Tracks (id : ℕ) (plan : String) (t : Tables P) : Type 0 where
    pub inv : Inv env t
    pub takes : Accepts (order_state id t) plan

  Accepts-Done :
      (id : ℕ) (plan : String) (seq : ℤ) (t u : Tables P) (res : Applied)
      → Done env trips id plan seq t res u
      → Accepts (order_state id t) plan
      → Accepts (order_state id u) plan × Seen id plan seq u
  Accepts-Done id plan seq t u res d h = elim (decide-Accepts (order_state id t) plan seq h) [
    | inl a ↦
        let dup : decide (order_state id u) plan seq ≡ duplicate =
          d.redecided ∙ ap again (d.decided ∙ a) in
        (
          duplicate-Accepts _ plan seq dup,
          λ above. absurd (false≢true (sym above ∙ duplicate-le _ plan seq dup)),
        )
    | inr (inl b) ↦ (
      subst (λ s. Accepts s plan) (sym (d.order_kept (λ p. cc (p, d.decided, b)))) h,
      λ _. d.stored (d.decided ∙ b),
    )
    | inr (inr c) ↦
        let same = d.order_kept (λ p. cc (p, d.decided, c)) in
        (
          subst (λ s. Accepts s plan) (sym same) h,
          λ above. absurd (false≢true (rw same at (sym above) ∙ duplicate-le _ plan seq c)),
        )
  ]

  -- After one more event: it was seen, and so were those seen before.
  pub apply_event-Tracks :
      (id : ℕ) (plan : String) (e : EventEnvelope) (t : Tables P)
      → IsOf env id plan e
      → Tracks id plan t
      → Ensures t (apply_event env e) (λ _ u.
        Tracks id plan u
        × ((q : ℤ) → e.seq_id ≡ some q → Seen id plan q u)
        × ((q : ℤ) → Seen id plan q t → Seen id plan q u))
  unfolding apply_event
  apply_event-Tracks id plan e t o k =
      Ensures-mono _ _ _
        (Ensures-begin_func t _ _ (apply_body-Handled env trips e t o.sequenced k.inv))
        λ res u h.
          let at_id : h.id ≡ id = cc (h.cast, o.order) in
          let d = subst₂ (λ i p. Done env trips i p h.seq t res u) at_id o.owner h.done in
          let (takes, seen) = Accepts-Done id plan h.seq t u res d k.takes in
          (
            record { inv = d.inv; takes = takes },
            λ q numbered.
                let same : h.seq ≡ q = cc (h.numbered, numbered) in
                subst (λ n. Seen id plan n u) same seen,
            d.seen,
          )

  pub apply_all-Tracks :
      (id : ℕ) (plan : String) (events : List EventEnvelope) (t : Tables P)
      → All (IsOf env id plan) events
      → Tracks id plan t
      → Ensures t (apply_all env events) (λ _ u.
        Tracks id plan u × ((q : ℤ) → HasSeq q events ⊎ Seen id plan q t → Seen id plan q u))
  unfolding apply_all
  apply_all-Tracks id plan [] t o k =
      Ensures-pure _ (k, λ q h. elim h [ inl n ↦ absurd n | inr s ↦ s ])
  apply_all-Tracks id plan (e ∷ es) t o k =
      Ensures-bind _ _ _ (apply_event-Tracks id plan e t o.0 k) λ _ u (k', self, kept).
        Ensures-mono _ _ _ (apply_all-Tracks id plan es u o.1 k') λ _ v (k'', all). (
          k'',
          λ q h. elim h [
            | inl (inl now) ↦ all q (inr (self q now))
            | inl (inr later) ↦ all q (inl later)
            | inr before ↦ all q (inr (kept q before))
          ],
        )

  -- A row of the buffer is not next.
  parked_not_next :
      (id : ℕ) (plan : String) (seq : ℤ) (t : Tables P)
      → Inv env t
      → decide (order_state id t) plan seq ≡ apply
      → find_pending (is_row id plan seq) t.pending ≡ none
  parked_not_next id plan seq t v ready =
      elim (Option-cases (find_pending (is_row id plan seq) t.pending)) [
        | inl missing ↦ missing
        | inr (p, found) ↦
            let (r, _, hit, bp) = find_pending-All _ _ t.pending v.parked found in
            let before = parked-Before env t id plan seq r ready bp in
            absurd (false≢true (sym before.0 ∙ hit))
      ]

  pub reaches :
      (id : ℕ) (plan : String) (n : ℕ) (t : Tables P)
      → Tracks id plan t
      → ((k : ℕ) → k < n → Seen id plan (pos (suc k)) t)
      → leb_ℤ (pos n) (order_state id t).last_seq ≡ true
  reaches id plan n t k seen = elim (Bool-cases (leb_ℤ (pos n) (order_state id t).last_seq)) [
    | inl there ↦ there
    | inr short ↦
        let (m, is_m) = counted-pos _ (k.inv.counted id) in
        let next = Accepts-next (order_state id t) plan m k.takes (zero_value env id t) is_m in
        let below : m < n = short_lt _ n m is_m short in
        absurd
          (seen m below (next_above _ m is_m) (parked_not_next id plan (pos (suc m)) t k.inv next))
  ]

  -- On tables with the invariant, and an order that the plan may use: whatever the order in which
  -- valid events of the plan arrive, and however often, if the seq_ids 1, …, n are among them and
  -- `ApplyEvent` has succeeded for each, then the order's last applied seq_id is at least n, and
  -- it has notified of 1, 2, … up to that one, each once and in order.
  pub apply_all_in_order :
      (id : ℕ) (plan : String) (n : ℕ) (events : List EventEnvelope) (s s' : Session P)
      → All (IsOf env id plan) events
      → Inv env s.tables
      → Accepts (order_state id s.tables) plan
      → ((k : ℕ) → k < n → HasSeq (pos (suc k)) events)
      → apply_all env events s ≡ (ok tt, s')
      → (leb_ℤ (pos n) (order_state id s'.tables).last_seq ≡ true)
        × (notified env id s'.outbox ≡ one_to (order_state id s'.tables).last_seq)
  apply_all_in_order id plan n events s s' o v a each e =
      let (k, all) =
        Ensures-ok (apply_all-Tracks id plan events s.tables o (record { inv = v; takes = a })) s
          refl e in
      (reaches id plan n s'.tables k (λ i h. all (pos (suc i)) (inl (each i h))), k.inv.ledger id)
