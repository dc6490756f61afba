-- ===== src/Assertions/Escapes.antt =====
-- release-gate/src/release_gate/assertions.py: `resolve_pointer` against the escapes of RFC 6901.
use Prim.Native.Char.{Char, code}
use Prim.Native.String.{String, [], ◌∷◌}
use Prim.Native.String.compare
use mathlib.Core.List
use text.Mathlib.TextEquality.{Char-path}
use blindspot_remediation.Prelude.{
  true, false, nat_beq, has_prefix, if◌then◌else◌, ◌≡◌, refl, arith, ap, ◌∙◌, Bool-cases, inl, inr,
  ℕ, Option, none, some,
}
use blindspot_remediation.Assertions.Pointers.{
  unescape, token_of, has_bad_escape, split, in_first, Digits, Json, Members, dict, find_member,
  descend, traverse, resolve_pointer,
}

-- The reference token of a name, by RFC 6901: "~" is "~0" and "/" is "~1".
unfoldable pub escape : String → String
escape [] = []
escape (c ∷ s) =
    let rest = escape s in
    if nat_beq (code c) b'~'
    then "~" ∷ ("0" ∷ rest)
    else if nat_beq (code c) b'/'
    then "~" ∷ ("1" ∷ rest)
    else c ∷ rest

-- The name with "~" escaped only.
escape_tilde : String → String
escape_tilde [] = []
escape_tilde (c ∷ s) =
    let rest = escape_tilde s in if nat_beq (code c) b'~' then "~" ∷ ("0" ∷ rest) else c ∷ rest

unescape-plain :
    (digit : ℕ) (by c : Char) (s : String)
    → nat_beq (code c) b'~' ≡ false
    → unescape digit by (c ∷ s) ≡ c ∷ unescape digit by s
unfolding unescape
unescape-plain digit by c [] h = refl
unescape-plain digit by c (d ∷ s) h = rw (unescape, h) refl

is_char : (c d : Char) → nat_beq (code c) (code d) ≡ true → c ≡ d
is_char c d h = Char-path c d (ground arith)

unescape-escape_tilde : (s : String) → unescape b'0' "~" (escape_tilde s) ≡ s
unfolding unescape escape_tilde
unescape-escape_tilde [] = refl
unescape-escape_tilde (c ∷ s) = elim (Bool-cases (nat_beq (code c) b'~')) [
  | inl e ↦ rw (e, is_char c "~" e) (ap (λ r. "~" ∷ r) (unescape-escape_tilde s))
  | inr e ↦
      rw e
        (unescape-plain b'0' "~" c (escape_tilde s) e ∙ ap (λ r. c ∷ r) (unescape-escape_tilde s))
]

unescape-escape : (s : String) → unescape b'1' "/" (escape s) ≡ escape_tilde s
unfolding unescape escape escape_tilde
unescape-escape [] = refl
unescape-escape (c ∷ s) = elim (Bool-cases (nat_beq (code c) b'~')) [
  | inl e ↦ rw e (
      ap (λ r. "~" ∷ r)
        (unescape-plain b'1' "/" "0" (escape s) refl ∙ ap (λ r. "0" ∷ r) (unescape-escape s)))
  | inr e ↦ elim (Bool-cases (nat_beq (code c) b'/')) [
    | inl e' ↦ rw (e, e', is_char c "/" e') (ap (λ r. "/" ∷ r) (unescape-escape s))
    | inr e' ↦
        rw (e, e') (unescape-plain b'1' "/" c (escape s) e ∙ ap (λ r. c ∷ r) (unescape-escape s))
  ]
]

escape-has_bad_escape : (s : String) → has_bad_escape (escape s) ≡ false
unfolding escape has_bad_escape has_prefix
escape-has_bad_escape [] = refl
escape-has_bad_escape (c ∷ s) = elim (Bool-cases (nat_beq (code c) b'~')) [
  | inl e ↦ rw e (escape-has_bad_escape s)
  | inr e ↦ elim (Bool-cases (nat_beq (code c) b'/')) [
    | inl e' ↦ rw (e, e') (escape-has_bad_escape s)
    | inr e' ↦ rw (e, e') (rw e (escape-has_bad_escape s))
  ]
]

split-escape : (s : String) → split (escape s) ≡ List.◌∷◌ (escape s) List.[]
unfolding split escape
split-escape [] = refl
split-escape (c ∷ s) = elim (Bool-cases (nat_beq (code c) b'~')) [
  | inl e ↦ rw e (ap (λ r. in_first "~" (in_first "0" r)) (split-escape s))
  | inr e ↦ elim (Bool-cases (nat_beq (code c) b'/')) [
    | inl e' ↦ rw (e, e') (ap (λ r. in_first "~" (in_first "1" r)) (split-escape s))
    | inr e' ↦ rw (e, e') (rw e' (ap (in_first c) (split-escape s)))
  ]
]

token_of-escape : (s : String) → token_of (escape s) ≡ s
unfolding token_of
token_of-escape s = ap (unescape b'0' "~") (unescape-escape s) ∙ unescape-escape_tilde s

module _ {N : Type 0} (digits : Digits) where
  traverse-member :
      (name : String) (members : Members N)
      → traverse digits (split (escape name)) (dict members) ≡ find_member name members
  unfolding traverse descend
  traverse-member name members = rw (split-escape name) (
      rw (escape-has_bad_escape name) (
        ap (λ k. elim (find_member k members) [ none ↦ none | some next ↦ some next ])
          (token_of-escape name)
        ∙ last_part (find_member name members)))
    where
      last_part : (o : Option (Json N)) → elim o [ none ↦ none | some next ↦ some next ] ≡ o
      last_part none = refl
      last_part (some next) = refl

  -- The pointer of one escaped name finds the member of that name in a dict, and fails where there
  -- is none.
  pub resolve_pointer-escape :
      (name : String) (members : Members N)
      → resolve_pointer digits (dict members) ("/" ∷ escape name) ≡ find_member name members
  unfolding resolve_pointer has_prefix
  resolve_pointer-escape name members =
      rw (compare.cons-nil "/" (escape name)) (traverse-member name members)
