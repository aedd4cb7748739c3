-- ===== src/Prelude/Int.antt =====
-- Go's signed integers, over the native numbers.
use Prim.Native.Nat.{ℕ, zero, suc, ◌+◌, ◌-◌, ◌*◌}
use mathlib.Core.Path.{◌≡◌}
use mathlib.Core.Bool.{Bool, true, false}
use mathlib.Core.Logic.{◌↔◌}
use native.Mathlib.Omega.{arith}
use distribuid_system_simula.Prelude.Tests.{ltb, leb, eqb}

-- `negsuc n` is -(n + 1)
pub data ℤ : Type 0 where
  pos : ℕ → ℤ
  negsuc : ℕ → ℤ

abbrev pub pos_part : ℤ → ℕ
pos_part (pos n) = n
pos_part (negsuc n) = 0

abbrev pub neg_part : ℤ → ℕ
neg_part (pos n) = 0
neg_part (negsuc n) = suc n

abbrev pub leb_ℤ : ℤ → ℤ → Bool
leb_ℤ a b = leb (pos_part a + neg_part b) (pos_part b + neg_part a)

abbrev pub ltb_ℤ : ℤ → ℤ → Bool
ltb_ℤ a b = ltb (pos_part a + neg_part b) (pos_part b + neg_part a)

abbrev pub eqb_ℤ : ℤ → ℤ → Bool
eqb_ℤ a b = eqb (pos_part a + neg_part b) (pos_part b + neg_part a)

-- a + 1
abbrev pub suc_ℤ : ℤ → ℤ
suc_ℤ (pos n) = pos (suc n)
suc_ℤ (negsuc zero) = pos 0
suc_ℤ (negsuc (suc n)) = negsuc n

abbrev pub twice : ℤ → ℤ
twice (pos n) = pos (2 * n)
twice (negsuc n) = negsuc (2 * n + 1)

-- a time after a signed duration, no earlier than the time 0
abbrev pub add_duration : ℕ → ℤ → ℕ
add_duration t d = (t + pos_part d) - neg_part d

pub eqb_ℤ_iff : (a b : ℤ) → (eqb_ℤ a b ≡ true) ↔ (a ≡ b)
eqb_ℤ_iff a b = ground arith

pub leb_ℤ-suc_ℤ : (a : ℤ) → leb_ℤ (suc_ℤ a) a ≡ false
leb_ℤ-suc_ℤ (pos n) = ground arith
leb_ℤ-suc_ℤ (negsuc zero) = ground arith
leb_ℤ-suc_ℤ (negsuc (suc n)) = ground arith

pub leb_ℤ-refl : (a : ℤ) → leb_ℤ a a ≡ true
leb_ℤ-refl a = ground arith

pub leb_ℤ-suc_right : (a b : ℤ) → leb_ℤ a b ≡ true → leb_ℤ a (suc_ℤ b) ≡ true
leb_ℤ-suc_right a (pos n) h = ground arith
leb_ℤ-suc_right a (negsuc zero) h = ground arith
leb_ℤ-suc_right a (negsuc (suc n)) h = ground arith
