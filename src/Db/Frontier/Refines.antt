-- ===== src/Db/Frontier/Refines.antt =====
-- server/internal/db/postgres.go, ApplyEvent: it implements the abstract order.
use mathlib.Core.Path.{subst}
use distribuid_system_simula.Prelude.{
  ℕ, suc, String, true, some, List, [], ◌∷◌, ◌≡◌, inl, inr, refl, sym, ap, ◌∙◌, ◌<◌, ltb, arith,
  All, All-map, Bool-cases,
}
use distribuid_system_simula.Prelude.Int.{ℤ, pos, leb_ℤ, ltb_ℤ}
use distribuid_system_simula.Exec.{ok}
use distribuid_system_simula.Models.{EventEnvelope}
use distribuid_system_simula.Db.Platform.{Platform, RoundTrips}
use distribuid_system_simula.Db.Tables.{Tables, Session}
use distribuid_system_simula.Db.Ensures.{
  Ensures, Ensures-ok, Ensures-pure, Ensures-bind, Ensures-read, Ensures-mono, Ensures-and,
}
use distribuid_system_simula.Db.Transaction.{Ensures-begin_func}
use distribuid_system_simula.Db.Repository.{apply_body, apply_event}
use distribuid_system_simula.Db.Effects.{order_state}
use distribuid_system_simula.Db.Invariant.{one_to, notified, Inv}
use distribuid_system_simula.Db.Invariant.Write.{deref-some}
use distribuid_system_simula.Db.Invariant.Step.{zero_value}
use distribuid_system_simula.Db.Invariant.Buffer.{lock_order-reads}
use distribuid_system_simula.Db.Reordering.{
  HasSeq, IsOf, Tracks, apply_all, apply_all_in_order, apply_event-Tracks, apply_all-Tracks,
  counted-pos,
}
use distribuid_system_simula.Db.Frontier.{IsFrontier, IsFresh, SameSeqs}
use distribuid_system_simula.Db.Frontier.Received.{Within, carry_out-Within}

module _ {P : Type 0} (env : Platform P) (trips : RoundTrips env) (R : ℤ → Type 0) (id : ℕ)
    (plan : String) where
  -- the event's seq_id is in `R`
  abbrev InR : EventEnvelope → Type 0
  InR e = (q : ℤ) → e.seq_id ≡ some q → R q

  apply_event-Within :
      (e : EventEnvelope) (t : Tables P)
      → IsOf env id plan e
      → InR e
      → Inv env t
      → Within R id plan t
      → Ensures t (apply_event env e) (λ _ u. Within R id plan u)
  unfolding apply_event apply_body
  apply_event-Within e t o r v w = Ensures-begin_func t _ _ (
      Ensures-read _ _ _ (lock_order-reads env e.order_id t) λ s (id', cast, is_s).
        Ensures-read _ _ _ (deref-some env e.seq_id t) λ seq numbered.
          let same : id' ≡ id = cc (cast, o.order) in
          Ensures-mono _ _ _
            (rw (is_s, same)
              (carry_out-Within env trips R id _ e seq t o.order numbered o.sequenced.not_abort v
                refl (r seq numbered) (subst (λ p. Within R id p t) (sym o.owner) w)))
            λ _ u h. subst (λ p. Within R id p u) o.owner h)

  apply_all-Within :
      (events : List EventEnvelope) (t : Tables P)
      → All (IsOf env id plan) events
      → All InR events
      → Tracks env trips id plan t
      → Within R id plan t
      → Ensures t (apply_all env events) (λ _ u. Within R id plan u)
  unfolding apply_all
  apply_all-Within [] t o r k w = Ensures-pure _ w
  apply_all-Within (e ∷ es) t o r k w =
      Ensures-bind _ _ _
        (Ensures-and (apply_event-Within e t o.0 r.0 k.inv w)
          (apply_event-Tracks env trips id plan e t o.0 k))
        λ _ u (w', tracks). apply_all-Within es u o.1 r.1 tracks.0 w'

not_positive : (q : ℤ) → ltb_ℤ (pos 0) q ≡ true → leb_ℤ q (pos 0) ≡ true → ⊥
not_positive q h k = ground arith

-- Each event's seq_id is among those of all.
seqs_among : (es : List EventEnvelope) → All (λ e. (q : ℤ) → e.seq_id ≡ some q → HasSeq q es) es
seqs_among [] = tt
seqs_among (e ∷ es) = (λ q h. inl h, All-map es (λ x k q h. inr (k q h)) (seqs_among es))

-- A set of seq_ids has one frontier.
frontier_unique :
    (es es' : List EventEnvelope) (n m : ℕ)
    → SameSeqs es es'
    → IsFrontier es n
    → IsFrontier es' m
    → n ≡ m
frontier_unique es es' n m same f g = elim (Bool-cases (ltb n m)) [
  | inl less ↦ absurd (f.not_next ((same (pos (suc n))).1 (g.all_before n (ground arith))))
  | inr other ↦ elim (Bool-cases (ltb m n)) [
    | inl more ↦ absurd (g.not_next ((same (pos (suc m))).0 (f.all_before m (ground arith))))
    | inr equal ↦ ground arith
  ]
]

module _ {P : Type 0} (env : Platform P) (trips : RoundTrips env) where
  fresh-Within :
      (R : ℤ → Type 0) (id : ℕ) (plan : String) (t : Tables P)
      → IsFresh id plan t
      → Within R id plan t
  fresh-Within R id plan t f = record {
    applied = λ q positive le.
        let none_yet : (order_state id t).last_seq ≡ pos 0 = zero_value env id t f.absent in
        absurd (not_positive q positive (rw none_yet at le));
    waiting = All-map t.pending (λ r miss hit. absurd cc) f.no_rows;
  }

  -- On tables with the invariant, from an order that does not exist yet and with no event of the
  -- plan for it in the buffer, and when `ApplyEvent` has returned no error for each of the valid
  -- events of the plan, whatever their order and however often they came: the order's last applied
  -- seq_id is the n for which 1, …, n are among the seq_ids of the events and n + 1 is not, and the
  -- order has notified of 1, …, n, each once and in order.
  pub apply_all_refines :
      (id : ℕ) (plan : String) (events : List EventEnvelope) (s s' : Session P)
      → All (IsOf env id plan) events
      → Inv env s.tables
      → IsFresh id plan s.tables
      → apply_all env events s ≡ (ok tt, s')
      → (n : ℕ) × ((order_state id s'.tables).last_seq ≡ pos n)
        × IsFrontier events n
        × (notified env id s'.outbox ≡ one_to (pos n))
  apply_all_refines id plan events s s' o v f ran =
      let start : Tracks env trips id plan s.tables = record { inv = v; takes = inl f.absent } in
      let (k, _) =
        Ensures-ok (apply_all-Tracks env trips id plan events s.tables o start) s refl ran in
      let w =
        Ensures-ok
          (apply_all-Within env trips (λ q. HasSeq q events) id plan events s.tables o
            (seqs_among events) start (fresh-Within (λ q. HasSeq q events) id plan s.tables f))
          s refl ran in
      let (n, is_n) = counted-pos _ (k.inv.counted id) in
      let before = received id plan events s'.tables n w is_n in
      (
        n,
        is_n,
        record {
          all_before = before;
          not_next = λ next.
              let (reached, _) =
                apply_all_in_order env trips id plan (suc n) events s s' o v (inl f.absent)
                  (upto n events before next) ran in
              absurd (beyond _ n is_n reached);
        },
        k.inv.ledger id ∙ ap one_to is_n,
      )
    where
      received :
          (id : ℕ) (plan : String) (events : List EventEnvelope) (t : Tables P) (n : ℕ)
          → Within (λ q. HasSeq q events) id plan t
          → (order_state id t).last_seq ≡ pos n
          → (k : ℕ) → k < n
          → HasSeq (pos (suc k)) events
      received id plan events t n w is_n k h =
          w.applied (pos (suc k)) (ground arith) (rw is_n (ground arith))

      upto :
          (n : ℕ) (events : List EventEnvelope)
          → ((k : ℕ) → k < n → HasSeq (pos (suc k)) events)
          → HasSeq (pos (suc n)) events
          → (k : ℕ) → k < suc n
          → HasSeq (pos (suc k)) events
      upto n events before next k h = elim (Bool-cases (ltb k n)) [
        | inl less ↦ before k (ground arith)
        | inr equal ↦
            let same : n ≡ k = ground arith in subst (λ x. HasSeq (pos (suc x)) events) same next
      ]

      beyond : (l : ℤ) (n : ℕ) → l ≡ pos n → leb_ℤ (pos (suc n)) l ≡ true → ⊥
      beyond l n e h = let k : leb_ℤ (pos (suc n)) (pos n) ≡ true = rw e at h in ground arith

  -- Two arrivals of valid events of the plan, of the same seq_ids in any order and number, each on
  -- tables with the invariant, from an order that does not exist yet and with no event of the plan
  -- for it in the buffer, leave the order with the same last applied seq_id, and with the same
  -- notifications, where no `ApplyEvent` returned an error.
  pub apply_all_order_free :
      (id : ℕ) (plan : String) (es es' : List EventEnvelope) (s s' t t' : Session P)
      → All (IsOf env id plan) es
      → All (IsOf env id plan) es'
      → SameSeqs es es'
      → Inv env s.tables
      → Inv env t.tables
      → IsFresh id plan s.tables
      → IsFresh id plan t.tables
      → apply_all env es s ≡ (ok tt, s')
      → apply_all env es' t ≡ (ok tt, t')
      → ((order_state id s'.tables).last_seq ≡ (order_state id t'.tables).last_seq)
        × (notified env id s'.outbox ≡ notified env id t'.outbox)
  apply_all_order_free id plan es es' s s' t t' o o' same v w f g ran ran' =
      let (n, last, front, told) = apply_all_refines id plan es s s' o v f ran in
      let (m, last', front', told') = apply_all_refines id plan es' t t' o' w g ran' in
      let e = frontier_unique es es' n m same front front' in
      (last ∙ ap pos e ∙ sym last', told ∙ ap (λ x. one_to (pos x)) e ∙ sym told')
