-- ===== src/Storage/Keys.antt =====
-- A4-evidence-storage/src/ai_engineering_evidence/store.py: the keys of objects and the run
-- identifiers that the store accepts. The root is a directory without symbolic links.
use Prim.Native.Char.{code}
use Prim.Native.String.{String, ◌++◌}
use blindspot_remediation.Prelude.{
  ℕ, Bool, true, false, not, ◌&&◌, ◌||◌, Option, none, some, List, leb, nat_beq, if◌then◌else◌,
  ◌==◌, forward_slashes, contains, mem,
}
use blindspot_remediation.Assertions.Pointers.{split}
use blindspot_remediation.Evidence.Paths.{text_length}

-- `character in "0123456789abcdef"`
abbrev pub is_hex : ℕ → Bool
is_hex n = leb b'0' n && leb n b'9' || leb b'a' n && leb n b'f'

abbrev pub all_hex : String → Bool
all_hex String.[] = true
all_hex (String.◌∷◌ c s) = is_hex (code c) && all_hex s

-- The last part of a key.
abbrev pub is_digest : String → Bool
is_digest digest = nat_beq (text_length digest) 64 && all_hex digest

-- `digest[:2]`
abbrev pub first_two : String → String
first_two String.[] = ""
first_two (String.◌∷◌ c String.[]) = String.◌∷◌ c String.[]
first_two (String.◌∷◌ c (String.◌∷◌ d s)) = String.◌∷◌ c (String.◌∷◌ d String.[])

-- `_object_key`
unfoldable pub object_key : String → String
object_key digest =
    "objects" ++ ("/" ++ ("sha256" ++ ("/" ++ (first_two digest ++ ("/" ++ digest)))))

abbrev pub has_key_parts : String → String → String → String → Bool
has_key_parts objects sha256 prefix digest =
    objects == "objects"
    && (sha256 == "sha256"
        && (nat_beq (text_length prefix) 2 && (is_digest digest && prefix == first_two digest)))

unfoldable pub resolve_parts : String → List String → Option String
resolve_parts normalized (List.◌∷◌ a (List.◌∷◌ b (List.◌∷◌ c (List.◌∷◌ d List.[])))) =
    if has_key_parts a b c d then some normalized else none
resolve_parts normalized _ = none

-- `_resolve_object_key`: the path below the root, or `none` for `EvidenceIntegrityError`.
unfoldable pub resolve_object_key : String → Option String
unfolding resolve_parts forward_slashes split
resolve_object_key key =
    let normalized = forward_slashes key in resolve_parts normalized (split normalized)

abbrev has_nul : String → Bool
has_nul String.[] = false
has_nul (String.◌∷◌ c s) = nat_beq (code c) 0 || has_nul s

-- `_safe_run_id`: whether it returns.
unfoldable pub safe_run_id : String → Bool
unfolding contains
safe_run_id run_id = not (
    mem run_id (List.◌∷◌ "" (List.◌∷◌ "." (List.◌∷◌ ".." List.[])))
    || (contains "/" run_id || (contains "\\" run_id || has_nul run_id)))
