-- ===== src/Prelude/Texts.antt =====
-- Texts read character by character: `in`, `startswith`, `replace`, `strip` and `join`.
use Prim.Native.Char.{code}
use Prim.Native.String.append
use Prim.Native.String.{String, [], ◌∷◌, ◌++◌}
use mathlib.Core.Path.{◌≡◌, refl}
use mathlib.Core.Bool.{Bool, true, false, ◌&&◌, ◌||◌}
use mathlib.Core.List
use native.Mathlib.Omega.{arith}
use blindspot_remediation.Prelude.Tests.{if◌then◌else◌, nat_beq}

-- `s.startswith(t)`
unfoldable pub has_prefix : String → String → Bool
has_prefix s [] = true
has_prefix [] (d ∷ t) = false
has_prefix (c ∷ s) (d ∷ t) = nat_beq (code c) (code d) && has_prefix s t

has_prefix-nil : (s : String) → has_prefix s [] ≡ true
unfolding has_prefix
has_prefix-nil [] = refl
has_prefix-nil (c ∷ s) = refl

-- `t in s`
unfoldable pub contains : String → String → Bool
unfolding has_prefix
contains t [] = has_prefix [] t
contains t (c ∷ s) = has_prefix (c ∷ s) t || contains t s

-- `s.replace("\\", "/")`
unfoldable pub forward_slashes : String → String
forward_slashes [] = []
forward_slashes (c ∷ s) = (if nat_beq (code c) b'\\' then "/" else c) ∷ forward_slashes s

is_blank : String → Bool
is_blank [] = true
is_blank (c ∷ s) = false

-- `s.lstrip("/")`
unfoldable pub strip_left : String → String
strip_left [] = []
strip_left (c ∷ s) = if nat_beq (code c) b'/' then strip_left s else c ∷ s

-- `s.rstrip("/")`
unfoldable pub strip_right : String → String
unfolding is_blank
strip_right [] = []
strip_right (c ∷ s) =
    if nat_beq (code c) b'/' && is_blank (strip_right s) then [] else c ∷ strip_right s

-- `", ".join(texts)`
unfoldable pub join : String → List.List String → String
join separator List.[] = ""
join separator (List.◌∷◌ x xs) = elim xs [
  | List.[] ↦ x
  | List.◌∷◌ y ys ↦ x ++ (separator ++ join separator xs)
]

has_prefix-append : (s t r : String) → has_prefix s t ≡ true → has_prefix (s ++ r) t ≡ true
unfolding has_prefix
has_prefix-append [] [] r h = has_prefix-nil ([] ++ r)
has_prefix-append (c ∷ s) [] r h = has_prefix-nil ((c ∷ s) ++ r)
has_prefix-append [] (d ∷ t) r h = cc
has_prefix-append (c ∷ s) (d ∷ t) r h =
    rw (append.cons c s r) (ground (arith, has_prefix-append s t r))

contains_of_prefix : (t s : String) → has_prefix s t ≡ true → contains t s ≡ true
unfolding contains
contains_of_prefix t [] h = h
contains_of_prefix t (c ∷ s) h = ground arith

-- What a text contains, a longer text contains too.
pub contains-append_left : (t s r : String) → contains t s ≡ true → contains t (s ++ r) ≡ true
unfolding contains
contains-append_left t [] r h = contains_of_prefix t ([] ++ r) (has_prefix-append [] t r h)
contains-append_left t (c ∷ s) r h =
    let prefix = rw (append.cons c s r) at (has_prefix-append (c ∷ s) t r) in
    rw (append.cons c s r) (ground (arith, prefix, contains-append_left t s r))

pub contains-append_right : (t s r : String) → contains t s ≡ true → contains t (r ++ s) ≡ true
unfolding contains
contains-append_right t s [] h = rw (append.nil s) h
contains-append_right t s (c ∷ r) h =
    rw (append.cons c r s) (ground (arith, contains-append_right t s r))

-- A text that is joined stands in the result.
pub contains-join :
    (t separator x : String) (xs : List.List String)
    → contains t x ≡ true
    → contains t (join separator (List.◌∷◌ x xs)) ≡ true
unfolding join
contains-join t separator x List.[] h = h
contains-join t separator x (List.◌∷◌ y ys) h = contains-append_left t x _ h
