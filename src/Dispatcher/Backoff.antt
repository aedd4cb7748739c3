-- ===== src/Dispatcher/Backoff.antt =====
-- server/internal/dispatcher/dispatcher.go: the wait before a retry, in Go's 64-bit integers.
use native.Mathlib.Numerals.{unary_clauses}
use native.Mathlib.Nat.{mul_comm, mul_assoc}
use distribuid_system_simula.Prelude.{
  Bool-cases, inl, inr, ap, sym, ◌∙◌, ℕ, zero, suc, ◌-◌, ◌*◌, ◌^◌, ◌%◌, ◌≤◌, ◌<◌, ◌≡◌, refl, arith,
  ltb, leb, if◌then◌else◌,
}
use distribuid_system_simula.Prelude.Int.{ℤ, pos, negsuc, ltb_ℤ, twice}

-- An int64 from the integer that has its low 64 bits.
unfoldable pub wrap64 : ℤ → ℤ
wrap64 (pos n) = let m = n % 2 ^ 64 in if ltb m (2 ^ 63) then pos m else negsuc (2 ^ 64 - 1 - m)
wrap64 (negsuc n) = let m = n % 2 ^ 64 in if ltb m (2 ^ 63) then negsuc m else pos (2 ^ 64 - 1 - m)

-- The loop of `backoff`, for that many more values of `i`.
unfoldable pub doubled : ℕ → ℤ → ℤ → ℤ
doubled zero d max_delay = d
doubled (suc n) d max_delay =
    let next = doubled n (wrap64 (twice d)) max_delay in if ltb_ℤ d max_delay then next else d

unfoldable pub backoff : ℕ → ℤ → ℤ → ℤ
backoff attempt base max_delay =
    let d = doubled (attempt - 1) base max_delay in if ltb_ℤ max_delay d then max_delay else d

abbrev pub min : ℕ → ℕ → ℕ
min a b = if leb a b then a else b

pub wrap64-small : (n : ℕ) → n < 2 ^ 63 → wrap64 (pos n) ≡ pos n
unfolding wrap64
wrap64-small n h = ground arith

pow_suc : (n : ℕ) → 2 ^ suc n ≡ 2 ^ n * 2
pow_suc n = simp unary_clauses refl

pub pow_pos : (n : ℕ) → 1 ≤ 2 ^ n
pow_pos zero = omega arith
pow_pos (suc n) = rw (pow_suc n) (omega (arith, pow_pos n))

pub le-mul : (d x : ℕ) → 1 ≤ x → d ≤ d * x
le-mul d zero h = absurd (omega arith)
le-mul d (suc x) h = simp unary_clauses (omega arith)

ltb-pos : (d m : ℕ) → ltb_ℤ (pos d) (pos m) ≡ ltb d m
ltb-pos d m = ground arith

pub both_capped : (a b m : ℕ) → m ≤ a → a ≤ b → min a m ≡ min b m
both_capped a b m h k = ground arith

pub doubled_power : (d n : ℕ) → 2 * d * 2 ^ n ≡ d * 2 ^ suc n
doubled_power d n =
    ap (λ x. x * 2 ^ n) (mul_comm 2 d)
    ∙ mul_assoc d 2 (2 ^ n)
    ∙ ap (λ x. d * x) (mul_comm 2 (2 ^ n) ∙ sym (pow_suc n))

-- The loop stops on the sequence base, 2 * base, 4 * base, ..., none of it wrapped around.
record Doubling (n d m : ℕ) : Type 0 where
  pub reached : ℕ
  pub is : doubled n (pos d) (pos m) ≡ pos reached
  pub capped : min reached m ≡ min (d * 2 ^ n) m

doubled-Doubling : (n d m : ℕ) → m ≤ 2 ^ 62 → Doubling n d m
unfolding doubled
doubled-Doubling zero d m h = record {
  reached = d;
  is = refl;
  capped = ap (λ x. min x m) (omega arith);
}
doubled-Doubling (suc n) d m h = elim (Bool-cases (ltb d m)) [
  | inl less ↦
      let k = doubled-Doubling n (2 * d) m h in
      record {
        reached = k.reached;
        is = rw (wrap64-small (2 * d) (ground arith)) (rw (ltb-pos d m, less) k.is);
        capped = k.capped ∙ ap (λ x. min x m) (doubled_power d n);
      }
  | inr enough ↦ record {
    reached = d;
    is = rw (ltb-pos d m, enough) refl;
    capped =
        both_capped d (d * 2 ^ suc n) m (ground arith) (le-mul d (2 ^ suc n) (pow_pos (suc n)));
  }
]

capped_pos :
    (d : ℤ) (r x m : ℕ)
    → d ≡ pos r
    → min r m ≡ min x m
    → (if ltb_ℤ (pos m) d then pos m else d) ≡ pos (min x m)
capped_pos d r x m e h = rw (e, ltb-pos m r, sym h) (ground arith)

-- `backoff` waits base * 2 ^ (attempt - 1), capped at `max_delay`, for a cap of at most 2 ^ 62.
pub backoff_lem :
    (attempt base m : ℕ)
    → m ≤ 2 ^ 62
    → backoff attempt (pos base) (pos m) ≡ pos (min (base * 2 ^ (attempt - 1)) m)
unfolding backoff
backoff_lem attempt base m h =
    let k = doubled-Doubling (attempt - 1) base m h in
    capped_pos (doubled (attempt - 1) (pos base) (pos m)) k.reached (base * 2 ^ (attempt - 1)) m
      k.is k.capped
