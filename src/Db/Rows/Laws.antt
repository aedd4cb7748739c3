-- ===== src/Db/Rows/Laws.antt =====
-- Laws of the rows: what a lookup sees after a change.
use distribuid_system_simula.Prelude.{
  ℕ, Bool, true, false, Option, none, some, List, [], ◌∷◌, ◌++◌, ◌≡◌, ◌≢◌, refl, arith, eqb, All,
  if◌then◌else◌, ◌<◌, length, ◌≤◌, Bool-cases, inl, inr,
}
use distribuid_system_simula.Db.Tables.{Order, PendingEvent}
use distribuid_system_simula.Db.Rows.{find_order, set_order, find_pending, delete_pending}

pub find_order-append :
    (j : ℕ) (o : Order) (os : List Order)
    → find_order o.id os ≡ none
    → find_order j (os ++ o ∷ []) ≡ (if eqb o.id j then some o else find_order j os)
unfolding find_order
find_order-append j o [] h = refl
find_order-append j o (x ∷ os) h = ground (arith, find_order-append j o os)

pub find_order-id : (j : ℕ) (os : List Order) {o : Order} → find_order j os ≡ some o → o.id ≡ j
unfolding find_order
find_order-id j [] h = absurd (ground arith)
find_order-id j (x ∷ os) {o} h = ground (arith, find_order-id j os {o = o})

-- `f` keeps the id
abbrev pub map_found : (Order → Order) → Option Order → Option Order
map_found f none = none
map_found f (some o) = some (f o)

pub find_order-set_order :
    (id j : ℕ) (f : Order → Order) (os : List Order)
    → ((o : Order) → (f o).id ≡ o.id)
    → find_order j (set_order id f os)
      ≡ (if eqb id j then map_found f (find_order j os) else find_order j os)
unfolding find_order set_order
find_order-set_order id j f [] keeps = ground arith
find_order-set_order id j f (x ∷ os) keeps =
    ground (arith, find_order-set_order id j f os keeps, keeps x)

module _ {P : Type 0} where
  -- What a delete leaves fails its test, and was there.
  pub All-delete {κ} :
      (Q : PendingEvent P → Type κ) (f : PendingEvent P → Bool) (rs : List (PendingEvent P))
      → All Q rs
      → All (λ r. (f r ≡ false) × Q r) (delete_pending f rs)
  unfolding delete_pending
  All-delete Q f [] h = tt
  All-delete Q f (r ∷ rs) h = elim (Bool-cases (f r)) [
    | inl e ↦ rw e (All-delete Q f rs h.1)
    | inr e ↦ rw e ((e, h.0), All-delete Q f rs h.1)
  ]

  -- Where a lookup finds nothing, every row fails the test.
  pub All-find_pending-none :
      (f : PendingEvent P → Bool) (rs : List (PendingEvent P))
      → find_pending f rs ≡ none
      → All (λ r. f r ≡ false) rs
  unfolding find_pending
  All-find_pending-none f [] h = tt
  All-find_pending-none f (r ∷ rs) h = elim (Bool-cases (f r)) [
    | inl e ↦ absurd (ground arith)
    | inr e ↦ (e, All-find_pending-none f rs (rw e at h))
  ]

  -- What a lookup finds is the payload of a row that passes the test.
  pub find_pending-All {κ} :
      (Q : PendingEvent P → Type κ) (f : PendingEvent P → Bool) (rs : List (PendingEvent P)) {p : P}
      → All Q rs
      → find_pending f rs ≡ some p
      → (r : PendingEvent P) × (r.payload ≡ p) × (f r ≡ true) × Q r
  unfolding find_pending
  find_pending-All Q f [] h e = absurd (ground arith)
  find_pending-All Q f (r ∷ rs) h e = elim (Bool-cases (f r)) [
    | inl found ↦ (r, ground arith, found, h.0)
    | inr missed ↦ find_pending-All Q f rs h.1 (rw missed at e)
  ]

  pub length-delete-le :
      (f : PendingEvent P → Bool) (rs : List (PendingEvent P))
      → length (delete_pending f rs) ≤ length rs
  unfolding delete_pending
  length-delete-le f [] = omega arith
  length-delete-le f (r ∷ rs) = ground (arith, length-delete-le f rs)

  -- A delete after a successful lookup removes a row.
  pub length-delete-lt :
      (f : PendingEvent P → Bool) (rs : List (PendingEvent P)) {p : P}
      → find_pending f rs ≡ some p
      → length (delete_pending f rs) < length rs
  unfolding delete_pending find_pending
  length-delete-lt f [] e = absurd (ground arith)
  length-delete-lt f (r ∷ rs) {p} e =
      ground (arith, length-delete-le f rs, length-delete-lt f rs {p = p})

  -- A delete keeps what another lookup finds.
  pub find_pending-delete :
      (f g : PendingEvent P → Bool) (rs : List (PendingEvent P))
      → ((r : PendingEvent P) → f r ≡ true → g r ≡ false)
      → find_pending f (delete_pending g rs) ≡ find_pending f rs
  unfolding find_pending delete_pending
  find_pending-delete f g [] h = refl
  find_pending-delete f g (r ∷ rs) h = ground (arith, find_pending-delete f g rs h, h r)

  pub find_pending-append_self :
      (f : PendingEvent P → Bool) (rs : List (PendingEvent P)) (r : PendingEvent P)
      → f r ≡ true
      → find_pending f (rs ++ r ∷ []) ≢ none
  unfolding find_pending
  find_pending-append_self f [] r h e = absurd (ground arith)
  find_pending-append_self f (x ∷ rs) r h e = ground (arith, find_pending-append_self f rs r h)

  pub find_pending-append :
      (f : PendingEvent P → Bool) (rs : List (PendingEvent P)) (r : PendingEvent P)
      → find_pending f rs ≢ none
      → find_pending f (rs ++ r ∷ []) ≢ none
  unfolding find_pending
  find_pending-append f [] r h e = h refl
  find_pending-append f (x ∷ rs) r h e = ground (arith, find_pending-append f rs r)
