-- ===== src/Db/Expiry/Handed.antt =====
-- server/internal/db/postgres.go, ExpirePending: what becomes of a buffered event.
use mathlib.Core.Path.{subst}
use distribuid_system_simula.Prelude.{
  ℕ, suc, String, Bool, true, false, some, List, [], ◌∷◌, ◌==◌, ◌&&◌, eqb, ◌≡◌, ◌⊎◌, inl, inr, refl,
  sym, ap, ◌∙◌, All, All-map, arith, Bool-cases, eq_iff,
}
use distribuid_system_simula.Prelude.Int.{ℤ, eqb_ℤ, eqb_ℤ_iff}
use distribuid_system_simula.Exec.Yields.{Yields, Yields-pure, Yields-bind, Yields-mono}
use distribuid_system_simula.Models.{EventEnvelope}
use distribuid_system_simula.Db.Platform.{Platform}
use distribuid_system_simula.Db.Tables.{PendingEvent, Tables, Session}
use distribuid_system_simula.Db.Rows.{is_row, find_pending, delete_pending, remove_pending}
use distribuid_system_simula.Db.Rows.Laws.{All-delete, find_pending-delete}
use distribuid_system_simula.Db.Ensures.{Ensures-or_reject}
use distribuid_system_simula.Db.Invariant.{Inv, IsBuffered}
use distribuid_system_simula.Db.Expiry.{
  in_tx, in_sink, PendingRow, row_of, delete_row, expire_rows, expire_body, expire_pending,
}
use distribuid_system_simula.Db.Expiry.Sinking.{
  Sink, Yields-in_tx, Yields-in_sink, begin_sinking-keeps,
}
use distribuid_system_simula.Db.Expiry.Selected.{
  IsEntry, row_of-IsEntry, select_overdue-All, delete_row-Ensures,
}

module _ {P K : Type 0} (env : Platform P) (sink : Sink K) where
  -- The sink has accepted an event with the key.
  abbrev pub HandedOver : ℕ → String → ℤ → K → Type 0
  HandedOver id plan seq k =
      (e : EventEnvelope) × (env.uuid e.order_id ≡ some id)
      × (e.plan_id ≡ plan)
      × (e.seq_id ≡ some seq)
      × sink.accepted k e

  -- Of the key, what was in the buffer of the tables `t` still is, or was handed over.
  abbrev pub Accounted : ℕ → String → ℤ → Tables P → Tables P → K → Type 0
  Accounted id plan seq t u k =
      (find_pending (is_row id plan seq) u.pending ≡ find_pending (is_row id plan seq) t.pending)
      ⊎ HandedOver id plan seq k

  Accounted-sink :
      (id : ℕ) (plan : String) (seq : ℤ) (t u : Tables P) (k : K) (e : EventEnvelope)
      → Accounted id plan seq t u k
      → Accounted id plan seq t u (sink.accept e k).1
  Accounted-sink id plan seq t u k e (inl same) = inl same
  Accounted-sink id plan seq t u k e (inr (f, o, p, q, a)) = inr (f, o, p, q, sink.kept e f k a)

  Accounted-delete :
      (id : ℕ) (plan : String) (seq : ℤ) (t u : Tables P) (k : K) (p : PendingRow P)
      (b : IsEntry env p)
      → sink.accepted k b.event
      → Accounted id plan seq t u k
      → Accounted id plan seq t (remove_pending (is_row b.id p.plan_id p.seq_id) u) k
  unfolding remove_pending
  Accounted-delete id plan seq t u k p b a (inr h) = inr h
  Accounted-delete id plan seq t u k p b a (inl same) =
      elim (Bool-cases (eqb b.id id && (p.plan_id == plan && eqb_ℤ p.seq_id seq))) [
        | inl hit ↦
            let is_id : b.id ≡ id = ground arith in
            let is_plan : p.plan_id ≡ plan = ground (arith, eq_iff p.plan_id plan) in
            let is_seq : p.seq_id ≡ seq = ground (arith, eqb_ℤ_iff p.seq_id seq) in
            inr (b.event, b.order ∙ ap some is_id, b.plan ∙ is_plan, b.seq ∙ ap some is_seq, a)
        | inr miss ↦ inl (
            find_pending-delete (is_row id plan seq) (is_row b.id p.plan_id p.seq_id) u.pending
              (apart miss)
            ∙ same)
      ]
    where
      apart :
          (eqb b.id id && (p.plan_id == plan && eqb_ℤ p.seq_id seq)) ≡ false
          → (r : PendingEvent P) → is_row id plan seq r ≡ true
          → is_row b.id p.plan_id p.seq_id r ≡ false
      apart miss r h = ground (
        arith,
        eq_iff r.plan_id plan,
        eq_iff r.plan_id p.plan_id,
        eq_iff p.plan_id plan,
        eqb_ℤ_iff r.seq_id seq,
        eqb_ℤ_iff r.seq_id p.seq_id,
        eqb_ℤ_iff p.seq_id seq,
      )

  -- What every call of the sink keeps, and every delete of a row whose event it has accepted.
  pub record IsKept (R : Tables P → K → Type 0) : Type 0 where
    pub sinks : (t : Tables P) (k : K) (e : EventEnvelope) → R t k → R t (sink.accept e k).1
    pub deletes :
        (t : Tables P) (k : K) (p : PendingRow P) (b : IsEntry env p)
        → sink.accepted k b.event
        → R t k
        → R (remove_pending (is_row b.id p.plan_id p.seq_id) t) k

  Yields-sent :
      (R : Tables P → K → Type 0) (kept : IsKept R) (e : EventEnvelope) (s : Session P × K)
      → R s.0.tables s.1
      → Yields (in_sink (sink.accept e)) s (λ _ u. R u.0.tables u.1 × sink.accepted u.1 e)
  Yields-sent R kept e s h =
      Yields-mono _ s _ _ (Yields-in_sink (sink.accept e) s) λ _ u (same, ran). (
        subst (λ t. R t.tables u.1) (sym same)
            (subst (R s.0.tables) (ap (λ x. x.1) ran) (kept.sinks s.0.tables s.1 e h)),
        sink.acknowledged e s.1 u.1 ran,
      )

  Yields-deleted :
      (R : Tables P → K → Type 0) (kept : IsKept R) (p : PendingRow P) (b : IsEntry env p)
      (s : Session P × K)
      → sink.accepted s.1 b.event
      → R s.0.tables s.1
      → Yields (in_tx (delete_row env p)) s (λ _ u. R u.0.tables u.1)
  Yields-deleted R kept p b s a h =
      Yields-mono _ s _ _
        (Yields-in_tx (delete_row env p) s _ (delete_row-Ensures env p s.0.tables))
        λ _ u ((id, cast, is), same).
          let at_id : b.id ≡ id = cc (b.cast, cast) in
          rw (is, same, sym at_id) (kept.deletes s.0.tables s.1 p b a h)

  expire_rows-keeps :
      (R : Tables P → K → Type 0) (kept : IsKept R) (rows : List (PendingRow P)) (n : ℕ)
      (s : Session P × K)
      → All (IsEntry env) rows
      → R s.0.tables s.1
      → Yields (expire_rows env sink.accept rows n) s (λ _ u. R u.0.tables u.1)
  unfolding expire_rows
  expire_rows-keeps R kept [] n s es h = Yields-pure n s _ h
  expire_rows-keeps R kept (p ∷ rows) n s (b, bs) h =
      Yields-bind _ _ s _ _
        (Yields-in_tx _ s (λ e u. (u ≡ s.0.tables) × (env.unmarshal p.payload ≡ some e))
          (Ensures-or_reject _ _ λ e is. (refl, is)))
        λ e u ((tables, decoded), sunk).
          let same : b.event ≡ e = cc (b.reads, decoded) in
          Yields-bind _ _ u _ _ (Yields-sent R kept e u (rw (tables, sunk) h)) λ _ v (h', a).
            Yields-bind _ _ v _ _ (Yields-deleted R kept p b v (rw same a) h')
              λ _ w h''. expire_rows-keeps R kept rows (suc n) w bs h''

  pub expire_pending-keeps :
      (R : Tables P → K → Type 0) (kept : IsKept R) (locked : PendingEvent P → Bool)
      (max_age limit : ℤ) (s : Session P × K)
      → ((n : ℕ) → env.uuid (env.uuid_text n) ≡ some n)
      → All (IsBuffered env) s.0.pending
      → ((k : K) → R s.0.tables k)
      → R
          (expire_pending env sink.accept locked max_age limit s).1.0.tables
          (expire_pending env sink.accept locked max_age limit s).1.1
  unfolding expire_pending expire_body
  expire_pending-keeps R kept locked max_age limit s reads bs h =
      begin_sinking-keeps R _ s h λ u same.
        Yields-bind _ _ (u, s.1) _ _
          (Yields-in_tx _ (u, s.1) _
            (select_overdue-All env (IsEntry env) locked max_age limit u.tables (
              subst (λ t. All (λ r. IsEntry env (row_of env r)) t.pending) (sym same)
                (All-map s.0.pending (λ r. row_of-IsEntry env r reads) bs))))
          λ rows v ((tables, es), sunk).
            expire_rows-keeps R kept rows 0 v es (rw (tables, same) (h v.1))

  -- Whatever requests and calls of the sink fail: on tables with the invariant, an event of the
  -- buffer is still there after `ExpirePending`, or the sink has accepted an event of its order,
  -- its plan and its seq_id. `accepted` are the events of the calls of the sink that returned no
  -- error; a UUID that was written as a text reads back.
  pub expire_pending-Accounted :
      (id : ℕ) (plan : String) (seq : ℤ) (locked : PendingEvent P → Bool) (max_age limit : ℤ)
      (s : Session P × K)
      → ((n : ℕ) → env.uuid (env.uuid_text n) ≡ some n)
      → Inv env s.0.tables
      → Accounted id plan seq s.0.tables
          (expire_pending env sink.accept locked max_age limit s).1.0.tables
          (expire_pending env sink.accept locked max_age limit s).1.1
  expire_pending-Accounted id plan seq locked max_age limit s reads v =
      expire_pending-keeps (Accounted id plan seq s.0.tables)
        (record {
          sinks = λ t k e. Accounted-sink id plan seq s.0.tables t k e;
          deletes = λ t k p b. Accounted-delete id plan seq s.0.tables t k p b;
        })
        locked max_age limit s reads (All-map s.0.pending (λ r h. h.0) v.parked) λ k. inl refl

  Inv-remove : (f : PendingEvent P → Bool) (t : Tables P) → Inv env t → Inv env (remove_pending f t)
  unfolding remove_pending
  Inv-remove f t v = record {
    ledger = v.ledger;
    counted = v.counted;
    parked = All-map (delete_pending f t.pending) (λ r h. h.1) (All-delete _ f t.pending v.parked);
  }

  -- `ExpirePending` keeps the invariant of the tables, whatever requests and calls of the sink fail.
  -- A UUID that was written as a text reads back.
  pub expire_pending-Inv :
      (locked : PendingEvent P → Bool) (max_age limit : ℤ) (s : Session P × K)
      → ((n : ℕ) → env.uuid (env.uuid_text n) ≡ some n)
      → Inv env s.0.tables
      → Inv env (expire_pending env sink.accept locked max_age limit s).1.0.tables
  expire_pending-Inv locked max_age limit s reads v =
      expire_pending-keeps (λ t k. Inv env t)
        (record { sinks = λ t k e h. h; deletes = λ t k p b a h. Inv-remove _ t h }) locked max_age
        limit s reads (All-map s.0.pending (λ r h. h.0) v.parked) λ k. v
