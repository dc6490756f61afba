-- ===== src/Prelude/TextOrder.antt =====
-- The order by which `sorted` places texts: by code points, from the left.
use Prim.Native.Nat.{ℕ, Ordering, compare as compare_ℕ}
use Prim.Native.Char.{code}
use Prim.Native.String.compare
use Prim.Native.String.{String, [], ◌∷◌, compare, then}
use mathlib.Core.Path.{◌≡◌, refl, sym, ◌∙◌, ap, ap₂}
use mathlib.Core.Bool.{Bool, true, false}
use native.Mathlib.Omega.{arith}
use text.Mathlib.Text.{◌==◌}

-- Whether the first text comes before the second.
abbrev pub before : String → String → Bool
before x y = elim (compare x y) [ Ordering.lt ↦ true | _ ↦ false ]

abbrev opposite : Ordering → Ordering
opposite Ordering.lt = Ordering.gt
opposite Ordering.eq = Ordering.eq
opposite Ordering.gt = Ordering.lt

opposite-then : (o r : Ordering) → opposite (then o r) ≡ then (opposite o) (opposite r)
opposite-then Ordering.lt r = refl
opposite-then Ordering.eq r = refl
opposite-then Ordering.gt r = refl

opposite_numbers : (m n : ℕ) → compare_ℕ n m ≡ opposite (compare_ℕ m n)
opposite_numbers m n = ground arith

-- Swapping the texts swaps the answer of the comparison.
opposite_texts : (s t : String) → compare t s ≡ opposite (compare s t)
opposite_texts [] [] = refl
opposite_texts [] (d ∷ t) = compare.cons-nil d t ∙ sym (ap opposite (compare.nil-cons d t))
opposite_texts (c ∷ s) [] = compare.nil-cons c s ∙ sym (ap opposite (compare.cons-nil c s))
opposite_texts (c ∷ s) (d ∷ t) =
    compare.cons-cons d c t s
    ∙ ap₂ then (opposite_numbers (code c) (code d)) (opposite_texts s t)
    ∙ sym (opposite-then (compare_ℕ (code c) (code d)) (compare s t))
    ∙ sym (ap opposite (compare.cons-cons c d s t))

-- Of two different texts one comes before the other.
pub before_total : (x y : String) → (x == y) ≡ false → before x y ≡ false → before y x ≡ true
before_total x y h k = ground (arith, opposite_texts x y)
