-- ===== src/Prelude/Select.antt =====
-- `WHERE`, `ORDER BY` and `LIMIT` over lists, and which members they leave.
use mathlib.Core.List.{Memᴰ}
use distribuid_system_simula.Prelude.Tests.{leb, Bool-cases, if◌then◌else◌}
use distribuid_system_simula.Prelude.Lists.{length, All}
use Prim.Native.Nat.{ℕ, zero, suc, ◌≤◌, ◌<◌}
use mathlib.Core.Path.{◌≡◌, refl, sym, subst}
use mathlib.Core.Bool.{Bool, true}
use mathlib.Core.Logic.{◌⊎◌, inl, inr}
use mathlib.Core.List.{List, [], ◌∷◌}
use native.Mathlib.Omega.{arith}

module _ {ℓ} {A : Type ℓ} where
  unfoldable pub keep : (A → Bool) → List A → List A
  keep f [] = []
  keep f (x ∷ rest) = let kept = keep f rest in if f x then x ∷ kept else kept

  unfoldable pub take : ℕ → List A → List A
  take zero xs = []
  take (suc n) [] = []
  take (suc n) (x ∷ rest) = x ∷ take n rest

  module _ (key : A → ℕ) where
    unfoldable pub insert_by : A → List A → List A
    insert_by x [] = x ∷ []
    insert_by x (y ∷ rest) =
        let later = insert_by x rest in if leb (key x) (key y) then x ∷ y ∷ rest else y ∷ later

    -- A stable sort.
    unfoldable pub sort_by : List A → List A
    sort_by [] = []
    sort_by (x ∷ rest) = insert_by x (sort_by rest)

  -- How a member of a list with a head is in it.
  pub split : {x y : A} {ys : List A} → Memᴰ x (y ∷ ys) → (x ≡ y) ⊎ Memᴰ x ys
  split (Memᴰ.head e) = inl e
  split (Memᴰ.tail m) = inr m

  pub All-Mem {κ} : (P : A → Type κ) (x : A) (xs : List A) → Memᴰ x xs → All P xs → P x
  All-Mem P x [] m h = elim m [ ]
  All-Mem P x (y ∷ rest) (Memᴰ.head e) h = subst P (sym e) h.0
  All-Mem P x (y ∷ rest) (Memᴰ.tail m) h = All-Mem P x rest m h.1

  pub All-intro {κ} : (P : A → Type κ) (xs : List A) → ((x : A) → Memᴰ x xs → P x) → All P xs
  All-intro P [] h = tt
  All-intro P (y ∷ rest) h = (h y (Memᴰ.head refl), All-intro P rest (λ x m. h x (Memᴰ.tail m)))

  pub Mem-keep :
      (f : A → Bool) (x : A) (xs : List A) → Memᴰ x (keep f xs) → Memᴰ x xs × (f x ≡ true)
  unfolding keep
  Mem-keep f x [] m = elim m [ ]
  Mem-keep f x (y ∷ rest) m = elim (Bool-cases (f y)) [
    | inl hit ↦ elim (split (rw hit at m)) [
      | inl e ↦ (Memᴰ.head e, rw e hit)
      | inr there ↦ let h = Mem-keep f x rest there in (Memᴰ.tail h.0, h.1)
    ]
    | inr miss ↦ let h = Mem-keep f x rest (rw miss at m) in (Memᴰ.tail h.0, h.1)
  ]

  pub keep-Mem : (f : A → Bool) (x : A) (xs : List A) → Memᴰ x xs → f x ≡ true → Memᴰ x (keep f xs)
  unfolding keep
  keep-Mem f x [] m h = elim m [ ]
  keep-Mem f x (y ∷ rest) (Memᴰ.head e) h = let hit : f y ≡ true = rw e at h in rw hit (Memᴰ.head e)
  keep-Mem f x (y ∷ rest) (Memᴰ.tail m) h = elim (Bool-cases (f y)) [
    | inl hit ↦ rw hit (Memᴰ.tail (keep-Mem f x rest m h))
    | inr miss ↦ rw miss (keep-Mem f x rest m h)
  ]

  pub Mem-take : (n : ℕ) (x : A) (xs : List A) → Memᴰ x (take n xs) → Memᴰ x xs
  unfolding take
  Mem-take zero x xs m = elim m [ ]
  Mem-take (suc n) x [] m = m
  Mem-take (suc n) x (y ∷ rest) (Memᴰ.head e) = Memᴰ.head e
  Mem-take (suc n) x (y ∷ rest) (Memᴰ.tail m) = Memᴰ.tail (Mem-take n x rest m)

  pub length-take : (n : ℕ) (xs : List A) → length (take n xs) ≤ n
  unfolding take
  length-take zero xs = omega arith
  length-take (suc n) [] = omega arith
  length-take (suc n) (x ∷ rest) = omega (arith, length-take n rest)

  -- A limit that is not reached has cut nothing off.
  pub take-all : (n : ℕ) (xs : List A) → length (take n xs) < n → take n xs ≡ xs
  unfolding take
  take-all zero xs h = absurd (omega arith)
  take-all (suc n) [] h = refl
  take-all (suc n) (x ∷ rest) h = λ i. x ∷ take-all n rest (omega arith) i

  module _ (key : A → ℕ) where
    Mem-insert_by : (x y : A) (xs : List A) → Memᴰ x (insert_by key y xs) → Memᴰ x (y ∷ xs)
    unfolding insert_by
    Mem-insert_by x y [] m = m
    Mem-insert_by x y (z ∷ rest) m = elim (Bool-cases (leb (key y) (key z))) [
      | inl hit ↦ rw hit at m
      | inr miss ↦ elim (split (rw miss at m)) [
        | inl e ↦ Memᴰ.tail (Memᴰ.head e)
        | inr there ↦ elim (split (Mem-insert_by x y rest there)) [
          | inl e ↦ Memᴰ.head e
          | inr later ↦ Memᴰ.tail (Memᴰ.tail later)
        ]
      ]
    ]

    insert_by-Mem : (x y : A) (xs : List A) → Memᴰ x (y ∷ xs) → Memᴰ x (insert_by key y xs)
    unfolding insert_by
    insert_by-Mem x y [] m = m
    insert_by-Mem x y (z ∷ rest) m = elim (Bool-cases (leb (key y) (key z))) [
      | inl hit ↦ rw hit m
      | inr miss ↦ rw miss (elim (split m) [
        | inl e ↦ Memᴰ.tail (insert_by-Mem x y rest (Memᴰ.head e))
        | inr there ↦ elim (split there) [
          | inl e ↦ Memᴰ.head e
          | inr later ↦ Memᴰ.tail (insert_by-Mem x y rest (Memᴰ.tail later))
        ]
      ])
    ]

    pub Mem-sort_by : (x : A) (xs : List A) → Memᴰ x (sort_by key xs) → Memᴰ x xs
    unfolding sort_by
    Mem-sort_by x [] m = m
    Mem-sort_by x (y ∷ rest) m = elim (split (Mem-insert_by x y (sort_by key rest) m)) [
      | inl e ↦ Memᴰ.head e
      | inr later ↦ Memᴰ.tail (Mem-sort_by x rest later)
    ]

    pub sort_by-Mem : (x : A) (xs : List A) → Memᴰ x xs → Memᴰ x (sort_by key xs)
    unfolding sort_by
    sort_by-Mem x [] m = m
    sort_by-Mem x (y ∷ rest) m = elim (split m) [
      | inl e ↦ insert_by-Mem x y (sort_by key rest) (Memᴰ.head e)
      | inr later ↦ insert_by-Mem x y (sort_by key rest) (Memᴰ.tail (sort_by-Mem x rest later))
    ]
