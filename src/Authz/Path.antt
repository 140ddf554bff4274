-- ===== src/Authz/Path.antt =====
-- authz/check.py: the path that an operation's call stands for, and the route that it must resolve
-- back to. A call's arguments are given by their `str()`.
pub mod Segments
use tai_skeleton.Base.{
  ℕ, zero, suc, ◌+◌, Bool, true, false, ◌&&◌, ◌||◌, not, Option, none, some, List, [], ◌∷◌, ◌++◌,
  Text, codes, ◌==◌, nat_eq, list_eq, option_eq, eqb, elem, any, lookup, is_empty, if◌then◌else◌,
  Exc, Result, ok, raise, permission_denied, malformed_path_error, value_error, missing_argument,
  several_segments, not_a_segment, malformed_path, not_own_route, ◌>>=◌, ◌>>◌, raise_if, require,
}
use tai_skeleton.App.RouteRegistry.{RouteMetadata}
use tai_skeleton.AccessControl.PathCanon.{canonicalize_path, split_slash}
use tai_skeleton.AccessControl.RoleGate.{RouteIndex, resolve_route_meta, name_length, drop}

pub record OperationMetadata : Type 0 where
  pub route_template : Option Text
  pub http_method : Option Text

abbrev pub Arguments : Type 0
Arguments = List (Text × Text)

abbrev pub take : ℕ → Text → Text
take zero s = []
take (suc n) [] = []
take (suc n) (c ∷ s) = c ∷ take n s

-- the length of the longest run without a closing brace
unfoldable pub converter_length : Text → ℕ
converter_length [] = 0
converter_length (c ∷ s) = let more = converter_length s in if eqb c b'}' then 0 else suc more

pub record PathParam : Type 0 where
  pub name : Text
  pub converter : Option Text
  pub taken : ℕ

-- `_PATH_PARAM` at a colon behind a name of `n` characters
unfoldable pub converter_param : ℕ → Text → Text → Option PathParam
converter_param n name s =
    let m = converter_length s in
    if eqb m 0 then none else elim (drop m s) [
      | [] ↦ none
      | _ ∷ _ ↦ some (record { name = name; converter = some (take m s); taken = n + 2 + m })
    ]

-- `_PATH_PARAM` behind an opening brace: the parameter, and how many characters it takes
unfoldable pub path_param : Text → Option PathParam
unfolding converter_param
path_param s =
    let n = name_length s in
    if eqb n 0 then none else elim (drop n s) [
      | [] ↦ none
      | c ∷ r ↦
          if eqb c b'}'
          then some (record { name = take n s; converter = none; taken = n + 1 })
          else converter_param n (take n s) r
    ]

unfoldable pub is_unsafe_segment : Text → Bool
is_unsafe_segment s = s == [] || (s == codes "." || s == codes "..")

-- `_sub`: the text that a parameter contributes
unfoldable pub argument : Arguments → PathParam → Result Text
argument arguments p = do
  value ← require (lookup p.name arguments) (permission_denied missing_argument)
  raise_if (not (p.converter == some (codes "path")) && elem b'/' value)
      (permission_denied several_segments)
  raise_if (any is_unsafe_segment (split_slash value)) (permission_denied not_a_segment)
  ok value

-- `_PATH_PARAM.sub(_sub, template)`; the number counts the characters that the last match covers
unfoldable pub substitute : Arguments → ℕ → Text → Result Text
substitute arguments skip [] = ok []
substitute arguments (suc skip) (c ∷ s) = substitute arguments skip s
substitute arguments zero (c ∷ s) =
    let kept = (do r ← substitute arguments zero s; ok (c ∷ r)) in
    if eqb c b'{'
    then elim (path_param s) [
      | none ↦ kept
      | some p ↦ do
        value ← argument arguments p
        r ← substitute arguments p.taken s
        ok (value ++ r)
    ]
    else kept

unfoldable pub synthesize_path : OperationMetadata → Arguments → Result Text
synthesize_path op arguments = do
  template ← require op.route_template value_error
  substitute arguments 0 template

-- the route found, if its canonical path is that of the operation's template
unfoldable pub same_route : Text → Option RouteMetadata → Result RouteMetadata
same_route template none = raise (permission_denied not_own_route)
same_route template (some meta) = do
  registered ← require (canonicalize_path meta.path) malformed_path_error
  own ← require (canonicalize_path template) malformed_path_error
  raise_if (not (registered == own)) (permission_denied not_own_route)
  ok meta

unfoldable pub own_route : RouteIndex → OperationMetadata → Text → Text → Result RouteMetadata
own_route index op path method = do
  template ← require op.route_template value_error
  canonical ← require (canonicalize_path path) (permission_denied malformed_path)
  same_route template (resolve_route_meta index canonical (some method))
