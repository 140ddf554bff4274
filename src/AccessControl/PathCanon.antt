-- ===== src/AccessControl/PathCanon.antt =====
-- access_control/path_canon.py: the one canonical form of a request path. `MalformedPathError` is
-- `none`; a text is a list of code points.
pub mod Splitting
pub mod Canonical
pub mod Prefix
use mathlib.Core.List.{reverse}
use tai_skeleton.Base.{
  ℕ, Bool, false, ◌&&◌, ◌||◌, Option, none, some, List, [], ◌∷◌, ◌++◌, Text, codes, ◌==◌, nat_eq,
  list_eq, eqb, any, starts_with, leb, ltb, if◌then◌else◌,
}

unfoldable pub is_hex : ℕ → Bool
is_hex c = (leb b'0' c && leb c b'9') || (leb b'A' c && leb c b'F') || (leb b'a' c && leb c b'f')

-- `_RESIDUAL_ESCAPE.search(path)`: a percent sign and two hex digits, anywhere
unfoldable pub has_residual_escape : Text → Bool
has_residual_escape (a ∷ b ∷ c ∷ s) =
    (eqb a b'%' && (is_hex b && is_hex c)) || has_residual_escape (b ∷ c ∷ s)
has_residual_escape s = false

-- a backslash, NUL or control character
unfoldable pub is_bad_byte : ℕ → Bool
is_bad_byte c = eqb c 0x5C || (ltb c 0x20 || eqb c 0x7F)

-- `c` goes in front of the first part
abbrev pub onto_first : ℕ → List Text → List Text
onto_first c [] = (c ∷ []) ∷ []
onto_first c (p ∷ ps) = (c ∷ p) ∷ ps

-- path.split("/")
unfoldable pub split_slash : Text → List Text
split_slash [] = [] ∷ []
split_slash (c ∷ s) = if eqb c b'/' then [] ∷ split_slash s else onto_first c (split_slash s)

-- "/".join(segments)
unfoldable pub join_slash : List Text → Text
join_slash [] = []
join_slash (p ∷ []) = p
join_slash (p ∷ ps) = p ++ b'/' ∷ join_slash ps

-- segments.pop(), if there is one
abbrev pub pop : List Text → List Text
pop [] = []
pop (p ∷ ps) = ps

-- One round of the loop over the segments; the list `segments` is kept with its end first.
unfoldable pub resolve_segment : List Text → Text → List Text
resolve_segment segments segment =
    if segment == [] || segment == codes "."
    then segments
    else if segment == codes ".."
    then pop segments
    else segment ∷ segments

unfoldable pub resolve_segments : List Text → List Text → List Text
resolve_segments segments [] = reverse segments
resolve_segments segments (s ∷ rest) = resolve_segments (resolve_segment segments s) rest

unfoldable pub canonicalize_path : Text → Option Text
canonicalize_path path =
    if has_residual_escape path
    then none
    else if any is_bad_byte path
    then none
    else some (b'/' ∷ join_slash (resolve_segments [] (split_slash path)))

unfoldable pub under_prefix : Text → Text → Bool
under_prefix path prefix = path == prefix || starts_with path (prefix ++ codes "/")
