-- ===== src/Prelude/Codes.antt =====
-- Sets of texts: `in`, `set`, `dict.fromkeys` and `sorted(set(...))`.
-- `sorted` compares texts by code points, as Python does.
use Prim.Native.String.{String}
use mathlib.Core.Path.{◌≡◌, refl, sym, ◌∙◌}
use mathlib.Core.Bool.{Bool, true, false, ◌||◌, ◌&&◌, not}
use mathlib.Core.Logic.{inl, inr}
use mathlib.Core.List.{List, [], ◌∷◌, ◌++◌}
use native.Mathlib.Omega.{arith}
use text.Mathlib.Text.{◌==◌}
use text.Mathlib.TextEquality.{eq_iff}
use blindspot_remediation.Prelude.Tests.{if◌then◌else◌, Bool-cases}
use blindspot_remediation.Prelude.TextOrder.{before, before_total}
use blindspot_remediation.Prelude.Lists.{any, all, keep, any-append}

-- `x in xs`
abbrev pub mem : String → List String → Bool
mem x [] = false
mem x (y ∷ ys) = x == y || mem x ys

pub mem-append : (x : String) (xs ys : List String) → mem x (xs ++ ys) ≡ (mem x xs || mem x ys)
mem-append x [] ys = refl
mem-append x (y ∷ xs) ys = ground (arith, mem-append x xs ys)

-- `dict.fromkeys`: the first occurrence of each key, in order.
pub add_keys : List String → List String → List String
add_keys seen [] = seen
add_keys seen (x ∷ xs) = add_keys (if mem x seen then seen else seen ++ x ∷ []) xs

unfoldable pub from_keys : List String → List String
unfolding add_keys
from_keys xs = add_keys [] xs

-- One element into a sorted tuple without repetitions.
unfoldable pub place : String → List String → List String
place x [] = x ∷ []
place x (y ∷ ys) = if x == y then y ∷ ys else if before x y then x ∷ y ∷ ys else y ∷ place x ys

-- `tuple(sorted(set(xs)))`
unfoldable pub sorted_set : List String → List String
unfolding place
sorted_set [] = []
sorted_set (x ∷ xs) = place x (sorted_set xs)

pub mem-place : (r x : String) (xs : List String) → mem r (place x xs) ≡ (r == x || mem r xs)
unfolding place
mem-place r x [] = refl
mem-place r x (y ∷ ys) = ground (arith, mem-place r x ys, eq_iff x y, eq_iff r x, eq_iff r y)

pub mem-sorted_set : (r : String) (xs : List String) → mem r (sorted_set xs) ≡ mem r xs
unfolding sorted_set
mem-sorted_set r [] = refl
mem-sorted_set r (x ∷ xs) = ground (arith, mem-place r x (sorted_set xs), mem-sorted_set r xs)

-- Any property that respects equality of texts: here, one that a predicate decides.
pub any-place :
    (p : String → Bool) (x : String) (xs : List String) → any p (place x xs) ≡ (p x || any p xs)
unfolding place
any-place p x [] = refl
any-place p x (y ∷ ys) = ground (arith, any-place p x ys, eq_iff x y)

pub any-sorted_set : (p : String → Bool) (xs : List String) → any p (sorted_set xs) ≡ any p xs
unfolding sorted_set
any-sorted_set p [] = refl
any-sorted_set p (x ∷ xs) = ground (arith, any-place p x (sorted_set xs), any-sorted_set p xs)

pub all-place :
    (p : String → Bool) (x : String) (xs : List String) → all p (place x xs) ≡ (p x && all p xs)
unfolding place
all-place p x [] = refl
all-place p x (y ∷ ys) = ground (arith, all-place p x ys, eq_iff x y)

pub all-sorted_set : (p : String → Bool) (xs : List String) → all p (sorted_set xs) ≡ all p xs
unfolding sorted_set
all-sorted_set p [] = refl
all-sorted_set p (x ∷ xs) = ground (arith, all-place p x (sorted_set xs), all-sorted_set p xs)

any-or_false : (p : String → Bool) (xs : List String) → (any p xs || false) ≡ any p xs
any-or_false p xs = ground arith

pub any_of_mem :
    (p : String → Bool) (x : String) (xs : List String)
    → mem x xs ≡ true
    → p x ≡ true
    → any p xs ≡ true
any_of_mem p x [] m h = cc
any_of_mem p x (y ∷ ys) m h = ground (arith, eq_iff x y, any_of_mem p x ys)

pub any-add_keys :
    (p : String → Bool) (seen xs : List String)
    → any p (add_keys seen xs) ≡ (any p seen || any p xs)
unfolding add_keys
any-add_keys p seen [] = ground (arith, any-or_false p seen)
any-add_keys p seen (x ∷ xs) = elim (Bool-cases (mem x seen)) [
  | inl old ↦ rw old (ground (arith, any-add_keys p seen xs, any_of_mem p x seen))
  | inr new ↦
      rw new (ground (arith, any-add_keys p (seen ++ x ∷ []) xs, any-append p seen (x ∷ [])))
]

pub any-from_keys : (p : String → Bool) (xs : List String) → any p (from_keys xs) ≡ any p xs
unfolding from_keys
any-from_keys p xs = any-add_keys p [] xs

mem-any : (r : String) (xs : List String) → mem r xs ≡ any (λ x. r == x) xs
mem-any r [] = refl
mem-any r (x ∷ xs) = ground (arith, mem-any r xs)

pub mem-from_keys : (r : String) (xs : List String) → mem r (from_keys xs) ≡ mem r xs
mem-from_keys r xs = mem-any r (from_keys xs) ∙ any-from_keys (λ x. r == x) xs ∙ sym (mem-any r xs)

pub mem-keep :
    (r : String) (p : String → Bool) (xs : List String) → mem r (keep p xs) ≡ (p r && mem r xs)
mem-keep r p [] = ground arith
mem-keep r p (x ∷ xs) = ground (arith, mem-keep r p xs, eq_iff r x)

-- No text stands twice.
abbrev pub distinct : List String → Bool
distinct [] = true
distinct (x ∷ xs) = not (mem x xs) && distinct xs

-- Each text comes before the next one.
abbrev pub ascending : List String → Bool
ascending [] = true
ascending (x ∷ []) = true
ascending (x ∷ y ∷ ys) = before x y && ascending (y ∷ ys)

-- The head of a sorted tuple after an insertion is the new text or the old head.
place-ascending :
    (x : String) (xs : List String) → ascending xs ≡ true → ascending (place x xs) ≡ true
unfolding place
place-ascending x [] h = refl
place-ascending x (y ∷ []) h = ground (arith, before_total x y)
place-ascending x (y ∷ z ∷ zs) h =
    ground (arith, before_total x y, before_total x z, place-ascending x (z ∷ zs))

pub sorted_set-ascending : (xs : List String) → ascending (sorted_set xs) ≡ true
unfolding sorted_set
sorted_set-ascending [] = refl
sorted_set-ascending (x ∷ xs) = place-ascending x (sorted_set xs) (sorted_set-ascending xs)
