-- ===== src/Prelude/Integers.antt =====
-- Integers over the native natural numbers, for Python's `int`.
use Prim.Native.Nat.{ℕ}
use mathlib.Core.Path.{◌≡◌}
use mathlib.Core.Bool.{Bool, true, false, ◌||◌}
use mathlib.Core.List.{List, [], ◌∷◌}
use native.Mathlib.Omega.{arith}
use blindspot_remediation.Prelude.Tests.{nat_beq}

-- `negsuc n` is `-(n + 1)`.
pub data ℤ : Type 0 where
  pos negsuc : ℕ → ℤ

abbrev pub is_negative : ℤ → Bool
is_negative (pos n) = false
is_negative (negsuc n) = true

abbrev pub int_beq : ℤ → ℤ → Bool
int_beq (pos m) (pos n) = nat_beq m n
int_beq (negsuc m) (negsuc n) = nat_beq m n
int_beq _ _ = false

-- `i in xs`
abbrev pub has : ℤ → List ℤ → Bool
has i [] = false
has i (j ∷ js) = int_beq i j || has i js

pub int_beq-eq : (i j : ℤ) → int_beq i j ≡ true → i ≡ j
int_beq-eq (pos m) (pos n) h = ground arith
int_beq-eq (negsuc m) (negsuc n) h = ground arith
int_beq-eq (pos m) (negsuc n) h = ground arith
int_beq-eq (negsuc m) (pos n) h = ground arith
