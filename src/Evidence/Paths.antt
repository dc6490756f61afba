-- ===== src/Evidence/Paths.antt =====
-- release-gate/src/release_gate/evidence.py: the names that a run and its artifacts may have.
use Prim.Native.Char.{code}
use Prim.Native.String.{String, [], ◌∷◌}
use mathlib.Core.List
use blindspot_remediation.Prelude.{
  ℕ, suc, ◌+◌, Bool, true, false, not, ◌&&◌, ◌||◌, any, mem, length, ltb, leb, nat_beq, contains,
  has_prefix, if◌then◌else◌, ◌==◌,
}
use blindspot_remediation.Assertions.Pointers.{split}

-- `len(s)`
abbrev pub text_length : String → ℕ
text_length [] = 0
text_length (c ∷ s) = suc (text_length s)

abbrev is_between : ℕ → ℕ → ℕ → Bool
is_between low high n = leb low n && leb n high

-- `[A-Za-z0-9]`
abbrev is_alphanumeric : ℕ → Bool
is_alphanumeric n = is_between b'A' b'Z' n || (is_between b'a' b'z' n || is_between b'0' b'9' n)

-- A character of `_ILLEGAL_COMPONENT`.
abbrev is_illegal : ℕ → Bool
is_illegal n =
    leb n 31
    || (nat_beq n 127
        || (nat_beq n b'<'
            || (nat_beq n b'>'
                || (nat_beq n b':'
                    || (nat_beq n b'"'
                        || (nat_beq n b'/'
                            || (nat_beq n b'\\'
                                || (nat_beq n b'|' || (nat_beq n b'?' || nat_beq n b'*')))))))))

-- Some character has the property.
abbrev any_code : (ℕ → Bool) → String → Bool
any_code p [] = false
any_code p (c ∷ s) = p (code c) || any_code p s

abbrev first_code : String → ℕ → ℕ
first_code [] n = n
first_code (c ∷ s) n = code c

abbrev last_code : String → ℕ → ℕ
last_code [] n = n
last_code (c ∷ s) n = last_code s (code c)

abbrev lower : ℕ → ℕ
lower n = if is_between b'A' b'Z' n then n + 32 else n

-- The text is the given one, up to the case of its letters, and ends there or at a ".".
abbrev is_stem : String → String → Bool
is_stem [] [] = true
is_stem [] (c ∷ s) = nat_beq (code c) b'.'
is_stem (d ∷ t) [] = false
is_stem (d ∷ t) (c ∷ s) = nat_beq (lower (code c)) (code d) && is_stem t s

-- `com[1-9]` or `lpt[1-9]`, for the three letters given.
abbrev is_port : String → String → Bool
is_port [] [] = false
is_port [] (c ∷ []) = is_between b'1' b'9' (code c)
is_port [] (c ∷ (d ∷ s)) = is_between b'1' b'9' (code c) && nat_beq (code d) b'.'
is_port (d ∷ t) [] = false
is_port (d ∷ t) (c ∷ s) = nat_beq (lower (code c)) (code d) && is_port t s

-- `_DOS_DEVICE.match(part)`, of a text without a newline.
abbrev pub is_device : String → Bool
is_device part =
    any (λ stem. is_stem stem part)
      (List.◌∷◌ "con" (List.◌∷◌ "prn" (List.◌∷◌ "aux" (List.◌∷◌ "nul" List.[]))))
    || (is_port "com" part || is_port "lpt" part)

-- `_RUN_ID.fullmatch(value)`
abbrev is_run_id : String → Bool
is_run_id value =
    ltb 0 (text_length value)
    && (leb (text_length value) 128
        && (is_alphanumeric (first_code value 0)
            && (not (
                  any_code
                    (λ n.
                      not (
                        is_alphanumeric n
                        || (nat_beq n b'.' || (nat_beq n b'_' || nat_beq n b'-'))))
                    value)
                && not (nat_beq (last_code value 0) b'.'))))

-- `_validate_run_id`: whether it returns.
unfoldable pub validate_run_id : String → Bool
validate_run_id value = is_run_id value && not (is_device value)

-- What the package takes from `unicodedata` and `str`.
pub record Unicode : Type 0 where
  pub nfc : String → String
  pub casefold : String → String

module _ (unicode : Unicode) where
  abbrev pub is_bad_component : String → Bool
  is_bad_component part =
      ltb 128 (text_length part)
      || (not (part == unicode.nfc part)
          || (any_code is_illegal part
              || (nat_beq (last_code part 0) b' '
                  || nat_beq (last_code part 0) b'.'
                  || is_device part)))

  -- The key under which a path is compared with others.
  abbrev pub key_of : String → String
  key_of path = unicode.casefold (unicode.nfc path)

  -- `_validate_artifact_path`: whether it returns.
  unfoldable pub validate_artifact_path : String → Bool
  unfolding split contains has_prefix
  validate_artifact_path value =
      let parts = split value in
      not (value == "" || (ltb 1024 (text_length value) || contains "\\" value))
      && (not (
            has_prefix value "/"
            || (ltb 32 (length parts)
                || any (λ part. mem part (List.◌∷◌ "" (List.◌∷◌ "." (List.◌∷◌ ".." List.[]))))
                    parts))
          && (not (any is_bad_component parts) && not (key_of value == "manifest.json")))
