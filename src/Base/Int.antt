-- ===== src/Base/Int.antt =====
-- Python's `int` where it may be negative.
use Prim.Native.Nat.{ℕ, zero, suc, ◌+◌}
use mathlib.Core.Path.{◌≡◌, refl}
use mathlib.Core.Logic.{◌↔◌}
use mathlib.Core.Bool.{Bool, true, false}
use native.Mathlib.Omega.{arith}
use ha_vacuum_planner.Base.Tests.{ltb, leb, nat_beq, Eq}

-- `negsuc n` is -(n + 1).
pub data ℤ : Type 0 where
  pos : ℕ → ℤ
  negsuc : ℕ → ℤ

abbrev pub int_beq : ℤ → ℤ → Bool
int_beq (pos a) (pos b) = nat_beq a b
int_beq (negsuc a) (negsuc b) = nat_beq a b
int_beq _ _ = false

pub int_beq_iff : (a b : ℤ) → (int_beq a b ≡ true) ↔ (a ≡ b)
int_beq_iff (pos a) (pos b) = ground arith
int_beq_iff (negsuc a) (negsuc b) = ground arith
int_beq_iff (pos a) (negsuc b) = ground arith
int_beq_iff (negsuc a) (pos b) = ground arith

instance abbrev pub int_eq : Eq ℤ
int_eq = record { beq = int_beq; beq_iff = int_beq_iff }

-- a < b
abbrev pub ltℤ : ℤ → ℤ → Bool
ltℤ (pos a) (pos b) = ltb a b
ltℤ (negsuc a) (negsuc b) = ltb b a
ltℤ (negsuc a) (pos b) = true
ltℤ (pos a) (negsuc b) = false

-- a ≤ b
abbrev pub leℤ : ℤ → ℤ → Bool
leℤ (pos a) (pos b) = leb a b
leℤ (negsuc a) (negsuc b) = leb b a
leℤ (negsuc a) (pos b) = true
leℤ (pos a) (negsuc b) = false

-- a + 1
abbrev pub incℤ : ℤ → ℤ
incℤ (pos a) = pos (a + 1)
incℤ (negsuc zero) = pos 0
incℤ (negsuc (suc a)) = negsuc a

pub ltℤ-asym : (a b : ℤ) → ltℤ a b ≡ true → ltℤ b a ≡ false
ltℤ-asym (pos a) (pos b) h = ground arith
ltℤ-asym (negsuc a) (negsuc b) h = ground arith
ltℤ-asym (negsuc a) (pos b) h = refl
ltℤ-asym (pos a) (negsuc b) h = cc
