-- ===== src/Storage/KeyShapes.antt =====
-- That the key of a digest is accepted, and that only such keys are.
use Prim.Native.Char.{Char, code}
use Prim.Native.String.append
use text.Mathlib.TextEquality.{Char-path}
use Prim.Native.String.{String, [], ◌∷◌, ◌++◌}
use mathlib.Core.List
use blindspot_remediation.Prelude.{
  Bool, true, not, ◌&&◌, ◌||◌, some, nat_beq, if◌then◌else◌, ◌≡◌, refl, ap, ◌∙◌, sym, arith,
  Bool-cases, inl, inr, eq_iff, forward_slashes, join,
}
use blindspot_remediation.Assertions.Pointers.{split, in_first}
use blindspot_remediation.Evidence.Paths.{text_length}
use blindspot_remediation.Storage.Keys.{
  all_hex, is_digest, first_two, object_key, resolve_parts, resolve_object_key, has_key_parts,
}

-- Without a slash of either kind.
abbrev plain : String → Bool
plain [] = true
plain (c ∷ s) = not (nat_beq (code c) b'/' || nat_beq (code c) b'\\') && plain s

plain_of_hex : (s : String) → all_hex s ≡ true → plain s ≡ true
plain_of_hex [] h = refl
plain_of_hex (c ∷ s) h = ground (arith, plain_of_hex s)

hex-first_two : (s : String) → all_hex s ≡ true → all_hex (first_two s) ≡ true
hex-first_two [] h = refl
hex-first_two (c ∷ []) h = h
hex-first_two (c ∷ (d ∷ s)) h = ground arith

split-plain : (s : String) → plain s ≡ true → split s ≡ List.◌∷◌ s List.[]
unfolding split
split-plain [] h = refl
split-plain (c ∷ s) h = elim (Bool-cases (nat_beq (code c) b'/')) [
  | inl e ↦ ground arith
  | inr e ↦ rw e (ap (in_first c) (split-plain s (ground arith)))
]

split-slash : (r : String) → split ("/" ++ r) ≡ List.◌∷◌ "" (split r)
unfolding split
split-slash r = rw (append.cons "/" "" r, append.nil r) refl

split-append : (s r : String) → plain s ≡ true → split (s ++ ("/" ++ r)) ≡ List.◌∷◌ s (split r)
unfolding split
split-append [] r h = rw (append.nil ("/" ++ r)) (split-slash r)
split-append (c ∷ s) r h = elim (Bool-cases (nat_beq (code c) b'/')) [
  | inl e ↦ ground arith
  | inr e ↦
      rw (append.cons c s ("/" ++ r)) (rw e (ap (in_first c) (split-append s r (ground arith))))
]

forward_slashes-plain : (s : String) → plain s ≡ true → forward_slashes s ≡ s
unfolding forward_slashes
forward_slashes-plain [] h = refl
forward_slashes-plain (c ∷ s) h = elim (Bool-cases (nat_beq (code c) b'\\')) [
  | inl e ↦ ground arith
  | inr e ↦ rw e (ap (λ t. c ∷ t) (forward_slashes-plain s (ground arith)))
]

forward_slashes-append :
    (s r : String) → forward_slashes (s ++ r) ≡ forward_slashes s ++ forward_slashes r
unfolding forward_slashes
forward_slashes-append [] r = rw (append.nil r, append.nil (forward_slashes r)) refl
forward_slashes-append (c ∷ s) r = rw (append.cons c s r) (
    ap (λ t. (if nat_beq (code c) b'\\' then "/" else c) ∷ t) (forward_slashes-append s r)
    ∙ sym (append.cons _ (forward_slashes s) (forward_slashes r)))

slash : forward_slashes "/" ≡ "/"
unfolding forward_slashes
slash = refl

-- The parts of a key, up to the digest.
forward_slashes-part :
    (s r : String)
    → plain s ≡ true
    → forward_slashes r ≡ r
    → forward_slashes (s ++ ("/" ++ r)) ≡ s ++ ("/" ++ r)
forward_slashes-part s r h k =
    forward_slashes-append s ("/" ++ r)
    ∙ rw (forward_slashes-plain s h, forward_slashes-append "/" r, k)
        (ap (λ t. s ++ (t ++ r)) slash)

module _ (digest : String) (valid : is_digest digest ≡ true) where
  hex : all_hex digest ≡ true
  hex = ground arith

  first_two-plain : plain (first_two digest) ≡ true
  first_two-plain = plain_of_hex (first_two digest) (hex-first_two digest hex)

  forward_slashes-object_key : forward_slashes (object_key digest) ≡ object_key digest
  unfolding object_key
  forward_slashes-object_key = forward_slashes-part "objects" _ refl (
      forward_slashes-part "sha256" _ refl (
        forward_slashes-part (first_two digest) digest first_two-plain
          (forward_slashes-plain digest (plain_of_hex digest hex))))

  split-object_key :
      split (object_key digest)
      ≡ List.◌∷◌ "objects"
          (List.◌∷◌ "sha256" (List.◌∷◌ (first_two digest) (List.◌∷◌ digest List.[])))
  unfolding object_key
  split-object_key =
      split-append "objects" _ refl
      ∙ ap (List.◌∷◌ "objects") (
          split-append "sha256" _ refl
          ∙ ap (List.◌∷◌ "sha256") (
              split-append (first_two digest) digest first_two-plain
              ∙ ap (List.◌∷◌ (first_two digest)) (split-plain digest (plain_of_hex digest hex))))

  prefix_length :
      (s : String)
      → nat_beq (text_length s) 64 ≡ true
      → nat_beq (text_length (first_two s)) 2 ≡ true
  prefix_length [] h = ground arith
  prefix_length (c ∷ []) h = ground arith
  prefix_length (c ∷ (d ∷ s)) h = refl

  -- The key of a digest is accepted, as its own path.
  pub resolve_object_key-object_key :
      resolve_object_key (object_key digest) ≡ some (object_key digest)
  unfolding resolve_object_key
  resolve_object_key-object_key =
      rw (forward_slashes-object_key, split-object_key)
        (rw
          (
            prefix_length digest (ground arith),
            valid,
            (eq_iff (first_two digest) (first_two digest)).1 refl,
          )
          refl)

join-in_first : (c : Char) (ts : List.List String) → join "/" (in_first c ts) ≡ c ∷ join "/" ts
unfolding join
join-in_first c List.[] = refl
join-in_first c (List.◌∷◌ t List.[]) = refl
join-in_first c (List.◌∷◌ t (List.◌∷◌ y ys)) = append.cons c t _

split-cons : (s : String) → (t : String) × (ts : List.List String) × (split s ≡ List.◌∷◌ t ts)
unfolding split
split-cons [] = ("", List.[], refl)
split-cons (c ∷ s) = elim (Bool-cases (nat_beq (code c) b'/')) [
  | inl e ↦ ("", split s, rw e refl)
  | inr e ↦ let (t, ts, h) = split-cons s in (c ∷ t, ts, rw (e, h) refl)
]

join-blank :
    (t : String) (ts : List.List String)
    → join "/" (List.◌∷◌ "" (List.◌∷◌ t ts)) ≡ "/" ∷ join "/" (List.◌∷◌ t ts)
unfolding join
join-blank t ts = append.nil _ ∙ append.cons "/" "" _ ∙ ap (λ r. "/" ∷ r) (append.nil _)

blank-split : (s : String) → join "/" (List.◌∷◌ "" (split s)) ≡ "/" ∷ join "/" (split s)
blank-split s = let (t, ts, h) = split-cons s in rw h (join-blank t ts)

is_slash : (c : Char) → nat_beq (code c) b'/' ≡ true → c ≡ "/"
is_slash c e = Char-path c "/" (ground arith)

join-split : (s : String) → join "/" (split s) ≡ s
unfolding split join
join-split [] = refl
join-split (c ∷ s) = elim (Bool-cases (nat_beq (code c) b'/')) [
  | inl e ↦ rw e (blank-split s ∙ rw (is_slash c e) (ap (λ r. "/" ∷ r) (join-split s)))
  | inr e ↦ rw e (join-in_first c (split s) ∙ ap (λ t. c ∷ t) (join-split s))
]

-- A key of four parts is the key of its last part.
parts-object_key :
    (a b c d normalized : String)
    → has_key_parts a b c d ≡ true
    → join "/" (List.◌∷◌ a (List.◌∷◌ b (List.◌∷◌ c (List.◌∷◌ d List.[])))) ≡ normalized
    → normalized ≡ object_key d
unfolding object_key join
parts-object_key a b c d normalized h e =
    let parts : (a ≡ "objects") × (b ≡ "sha256") × (c ≡ first_two d) =
      ground (arith, eq_iff a "objects", eq_iff b "sha256", eq_iff c (first_two d)) in
    sym e ∙ rw (parts.0, parts.1, parts.2) refl

-- The path is the key of a digest.
abbrev pub IsKey : String → Type 0
IsKey path = (digest : String) × (is_digest digest ≡ true) × (path ≡ object_key digest)

resolve_parts-IsKey :
    (ts : List.List String) (normalized path : String)
    → join "/" ts ≡ normalized
    → resolve_parts normalized ts ≡ some path
    → IsKey path
unfolding resolve_parts
resolve_parts-IsKey (List.◌∷◌ a (List.◌∷◌ b (List.◌∷◌ c (List.◌∷◌ d List.[])))) normalized path e
      h =
    let known : (has_key_parts a b c d ≡ true) × (normalized ≡ path) = ground arith in
    (d, ground arith, sym known.1 ∙ parts-object_key a b c d normalized known.0 e)
resolve_parts-IsKey List.[] normalized path e h = cc
resolve_parts-IsKey (List.◌∷◌ a List.[]) normalized path e h = cc
resolve_parts-IsKey (List.◌∷◌ a (List.◌∷◌ b List.[])) normalized path e h = cc
resolve_parts-IsKey (List.◌∷◌ a (List.◌∷◌ b (List.◌∷◌ c List.[]))) normalized path e h = cc
resolve_parts-IsKey (List.◌∷◌ a (List.◌∷◌ b (List.◌∷◌ c (List.◌∷◌ d (List.◌∷◌ x xs))))) normalized
      path e h =
    cc

-- A key is accepted only with a path that is the key of a digest of 64 hexadecimal digits.
pub resolve_object_key-IsKey : (key path : String) → resolve_object_key key ≡ some path → IsKey path
unfolding resolve_object_key
resolve_object_key-IsKey key path h =
    resolve_parts-IsKey (split (forward_slashes key)) (forward_slashes key) path
      (join-split (forward_slashes key)) h
