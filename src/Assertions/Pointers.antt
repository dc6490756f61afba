-- ===== src/Assertions/Pointers.antt =====
-- release-gate/src/release_gate/assertions.py: `resolve_pointer`, the strict RFC 6901 lookup. `none`
-- stands for the `ValueError`; `N` is the type of Python's numbers.
use Prim.Native.Char.{Char, code}
use Prim.Native.String.{String}
use blindspot_remediation.Prelude.{
  ℕ, Bool, true, false, not, ◌&&◌, ◌||◌, Option, none, some, List, suc, zero, nat_beq, has_prefix,
  if◌then◌else◌, ◌==◌,
}
use blindspot_remediation.Config.{Scalar}

-- A JSON value: a dict, a list, or a scalar.
mutual
  pub data Json (N : Type 0) : Type 0 where
    dict : Members N → Json N
    sequence : Elements N → Json N
    scalar : Scalar N → Json N

  pub data Members (N : Type 0) : Type 0 where
    no_member : Members N
    member : String → Json N → Members N → Members N

  pub data Elements (N : Type 0) : Type 0 where
    no_element : Elements N
    element : Json N → Elements N → Elements N

-- `str.isdigit` and `int` of Python, on texts; `int` is `none` where it raises.
pub record Digits : Type 0 where
  pub isdigit : String → Bool
  pub int : String → Option ℕ

-- A character in front of the first part.
abbrev pub in_first : Char → List String → List String
in_first c List.[] = List.◌∷◌ (String.◌∷◌ c String.[]) List.[]
in_first c (List.◌∷◌ t ts) = List.◌∷◌ (String.◌∷◌ c t) ts

-- `s.split("/")`
unfoldable pub split : String → List String
split String.[] = List.◌∷◌ "" List.[]
split (String.◌∷◌ c s) =
    let rest = split s in if nat_beq (code c) b'/' then List.◌∷◌ "" rest else in_first c rest

-- The text begins with "0" or "1".
abbrev begins_escape : String → Bool
begins_escape s = has_prefix s "0" || has_prefix s "1"

-- `re.search(r"~(?:[^01]|$)", encoded)`
unfoldable pub has_bad_escape : String → Bool
has_bad_escape String.[] = false
has_bad_escape (String.◌∷◌ c s) = nat_beq (code c) b'~' && not (begins_escape s) || has_bad_escape s

-- `s.replace("~" + d, by)`, for the code of the digit d.
unfoldable pub unescape : ℕ → Char → String → String
unescape digit by String.[] = String.[]
unescape digit by (String.◌∷◌ c String.[]) = String.◌∷◌ c String.[]
unescape digit by (String.◌∷◌ c (String.◌∷◌ d s)) =
    elim (nat_beq (code c) b'~' && nat_beq (code d) digit) [
      | true ↦ String.◌∷◌ by (unescape digit by s)
      | false ↦ String.◌∷◌ c (unescape digit by (String.◌∷◌ d s))
    ]

-- `encoded.replace("~1", "/").replace("~0", "~")`
unfoldable pub token_of : String → String
unfolding unescape
token_of encoded = unescape b'0' "~" (unescape b'1' "/" encoded)

-- `len(s) > 1`
abbrev is_longer : String → Bool
is_longer String.[] = false
is_longer (String.◌∷◌ c String.[]) = false
is_longer (String.◌∷◌ c (String.◌∷◌ d s)) = true

abbrev pub rest_of : String → String
rest_of String.[] = String.[]
rest_of (String.◌∷◌ c s) = s

module _ {N : Type 0} where
  abbrev pub find_member : String → Members N → Option (Json N)
  find_member token no_member = none
  find_member token (member key value members) =
      if token == key then some value else find_member token members

  abbrev pub find_element : ℕ → Elements N → Option (Json N)
  find_element i no_element = none
  find_element zero (element value elements) = some value
  find_element (suc i) (element value elements) = find_element i elements

  abbrev pub find_index : Option ℕ → Elements N → Option (Json N)
  find_index none elements = none
  find_index (some i) elements = find_element i elements

  -- One turn of the loop after the token has been decoded.
  unfoldable pub descend : Digits → String → Json N → Option (Json N)
  descend digits token (dict members) = find_member token members
  descend digits token (sequence elements) =
      if not (digits.isdigit token) || is_longer token && has_prefix token "0"
      then none
      else find_index (digits.int token) elements
  descend digits token (scalar value) = none

  -- The loop over the parts of the pointer.
  unfoldable pub traverse : Digits → List String → Json N → Option (Json N)
  unfolding descend has_bad_escape token_of
  traverse digits List.[] current = some current
  traverse digits (List.◌∷◌ encoded parts) current =
      if has_bad_escape encoded then none else elim (descend digits (token_of encoded) current) [
        | none ↦ none
        | some next ↦ traverse digits parts next
      ]

  unfoldable pub resolve_pointer : Digits → Json N → String → Option (Json N)
  unfolding traverse split
  resolve_pointer digits document pointer =
      if pointer == ""
      then some document
      else if not (has_prefix pointer "/")
      then none
      else traverse digits (split (rest_of pointer)) document
