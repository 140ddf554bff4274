-- ===== src/AccessControl/RoleGate.antt =====
-- access_control/role_gate.py: the per-tag access levels, and which registered route a request is.
pub mod Levels
pub mod Matching
pub mod Index
use tai_skeleton.Base.{
  ℕ, zero, suc, ◌+◌, ◌≤◌, Bool, true, false, ◌&&◌, ◌||◌, not, Option, none, some, List, [], ◌∷◌,
  ◌++◌, map, String, Text, codes, ◌==◌, nat_eq, string_eq, list_eq, pair_eq, elem, any, insert,
  lookup, leb, eqb, starts_with, if◌then◌else◌, Result, ok, raise, malformed_path_error, ◌>>=◌,
  require,
}
use tai_skeleton.App.RouteRegistry.{
  RouteAction, read, write, is_fenced, RouteMetadata, method_to_action,
}
use tai_skeleton.AccessControl.PathCanon.{canonicalize_path}

-- A role's grant map: feature tag, access level.
abbrev pub RoleGrants : Type 0
RoleGrants = List (String × String)

pub data DenialCause : Type 0 where
  hard_fence level_miss scope_miss : DenialCause

-- _LEVEL_RANK.get(level, 0)
unfoldable pub level_rank : String → ℕ
level_rank level = if level == "write" then 2 else if level == "read" then 1 else 0

-- _ACTION_RANK[action], at the derived actions read and write
unfoldable pub action_rank : RouteAction → ℕ
action_rank read = 1
action_rank _ = 2

unfoldable pub level_satisfies : String → RouteAction → Bool
level_satisfies level action = leb (action_rank action) (level_rank level)

-- grants.get(tag, "none")
abbrev pub level_of : RoleGrants → String → String
level_of grants tag = elim (lookup tag grants) [ none ↦ "none" | some level ↦ level ]

-- An allow carries no cause.
abbrev pub Decision : Type 0
Decision = Bool × Option DenialCause

unfoldable pub admits_tag : List String → RouteAction → RoleGrants → Bool
admits_tag [] derived grants = false
admits_tag (tag ∷ tags) derived grants =
    if level_satisfies (level_of grants tag) derived then true else admits_tag tags derived grants

unfoldable pub grant_map_admits : RouteMetadata → Text → RoleGrants → Result Decision
unfolding admits_tag
grant_map_admits meta method grants =
    if is_fenced meta.action then ok (false, some hard_fence) else (do
      derived ← method_to_action method
      ok (if admits_tag meta.tags derived grants then (true, none) else (false, some level_miss)))

-- The compiled route template: characters that stand for themselves, `[^/]+` and `.+`.
pub data Token : Type 0 where
  lit : ℕ → Token
  segment rest : Token

-- the length of the longest run of characters other than "}" and ":"
unfoldable pub name_length : Text → ℕ
name_length [] = 0
name_length (c ∷ s) = if eqb c b'}' || eqb c b':' then 0 else suc (name_length s)

abbrev pub drop : ℕ → Text → Text
drop zero s = s
drop (suc n) [] = []
drop (suc n) (c ∷ s) = drop n s

-- `_TEMPLATE_SEGMENT` behind an opening brace: the token, and how many characters it takes
unfoldable pub template_segment : Text → Option (Token × ℕ)
template_segment s =
    let n = name_length s in
    if n == 0
    then none
    else if starts_with (drop n s) (codes "}")
    then some (segment, n + 1)
    else if starts_with (drop n s) (codes ":path}")
    then some (rest, n + 6)
    else none

-- `_TEMPLATE_SEGMENT.sub` and the escaping of all else; the first argument counts the characters
-- that the last match still covers.
unfoldable pub tokens : ℕ → Text → List Token
tokens (suc skip) (c ∷ s) = tokens skip s
tokens zero (c ∷ s) =
    if eqb c b'{'
    then elim (template_segment s) [
      | some (t, taken) ↦ t ∷ tokens taken s
      | none ↦ lit c ∷ tokens zero s
    ]
    else lit c ∷ tokens zero s
tokens skip [] = []

unfoldable pub template_to_regex : Text → List Token
template_to_regex template = tokens 0 template

-- pattern.fullmatch(text); "." takes any character but a line feed
unfoldable pub fullmatch : List Token → Text → Bool
fullmatch [] [] = true
fullmatch [] (c ∷ s) = false
fullmatch (lit a ∷ ts) (c ∷ s) = eqb a c && fullmatch ts s
fullmatch (segment ∷ ts) (c ∷ s) =
    not (eqb c b'/') && (fullmatch ts s || fullmatch (segment ∷ ts) s)
fullmatch (rest ∷ ts) (c ∷ s) = not (eqb c 0x0A) && (fullmatch ts s || fullmatch (rest ∷ ts) s)
fullmatch (t ∷ ts) [] = false

unfoldable pub served_methods : RouteMetadata → List Text
served_methods meta =
    if not (elem (codes "GET") meta.methods)
    then meta.methods
    else if elem (codes "HEAD") meta.methods
    then meta.methods
    else codes "HEAD" ∷ meta.methods

pub record Matcher : Type 0 where
  pub pattern : List Token
  pub methods : List Text
  pub meta : RouteMetadata

-- `_concrete_index` and `_templated_matchers`, once built
pub record RouteIndex : Type 0 where
  pub concrete : List ((Text × Text) × RouteMetadata)
  pub templated : List Matcher

abbrev pub empty_index : RouteIndex
empty_index = record { concrete = []; templated = [] }

-- for method in methods: concrete[canonical, method] = meta
unfoldable pub insert_methods :
    Text
    → List Text
    → RouteMetadata
    → List ((Text × Text) × RouteMetadata)
    → List ((Text × Text) × RouteMetadata)
insert_methods canonical [] meta table = table
insert_methods canonical (m ∷ ms) meta table =
    insert_methods canonical ms meta (insert (canonical, m) meta table)

-- one round of the loop over the registered routes
unfoldable pub add_route : RouteIndex → Text → RouteMetadata → RouteIndex
add_route index canonical meta =
    if elem b'{' canonical
    then record index {
      templated =
          index.templated
          ++ record {
            pattern = template_to_regex canonical;
            methods = served_methods meta;
            meta = meta;
          }
            ∷ [];
    }
    else record index {
      concrete = insert_methods canonical (served_methods meta) meta index.concrete;
    }

unfoldable pub build_from : RouteIndex → List RouteMetadata → Result RouteIndex
build_from index [] = ok index
build_from index (meta ∷ metas) = do
  canonical ← require (canonicalize_path meta.path) malformed_path_error
  build_from (add_route index canonical meta) metas

-- _build_index over what `load_all_routes` answers
unfoldable pub build_index : List RouteMetadata → Result RouteIndex
build_index routes = build_from empty_index routes

unfoldable pub first_match : List Matcher → Text → Text → Option RouteMetadata
first_match [] canonical method = none
first_match (m ∷ ms) canonical method =
    if elem method m.methods && fullmatch m.pattern canonical
    then some m.meta
    else first_match ms canonical method

-- the lookup in a built index, on a canonical path
unfoldable pub find_route : RouteIndex → Text → Text → Option RouteMetadata
find_route index canonical method = elim (lookup (canonical, method) index.concrete) [
  | some meta ↦ some meta
  | none ↦ first_match index.templated canonical method
]

unfoldable pub resolve_route_meta : RouteIndex → Text → Option Text → Option RouteMetadata
resolve_route_meta index path none = none
resolve_route_meta index path (some method) = elim (canonicalize_path path) [
  | none ↦ none
  | some canonical ↦ find_route index canonical method
]

abbrev pub unmatched_route : Text
unmatched_route = codes "<unmatched>"

unfoldable pub refusal_route : RouteIndex → Text → Option Text → Text
refusal_route index path method = elim (resolve_route_meta index path method) [
  | some meta ↦ meta.path
  | none ↦ unmatched_route
]
