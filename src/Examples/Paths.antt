-- ===== src/Examples/Paths.antt =====
-- Paths, templates, the route index and the registry.
use mathlib.Core.List.{Memᴰ}
use tai_skeleton.Base.{
  true, false, ◌≡◌, ◌≢◌, ◌⊎◌, ◌↔◌, refl, none, some, List, [], ◌∷◌, Text, codes, arith, nat_eq,
  string_eq, list_eq, pair_eq, option_eq, list_beq, pair_beq, option_beq, any, All, elem, lookup,
  insert, sort, starts_with, upper, ok,
}
use tai_skeleton.App.RouteRegistry.{
  read, is_action, method_to_action, any_write, derive_route_action, check_methods,
  resolve_route_action, record_route,
}
use tai_skeleton.App.RouteRegistry.Actions.{
  AllClassified, record_route-IsClassified, record_route-undeclared,
}
use tai_skeleton.AccessControl.PathCanon.{
  is_hex, has_residual_escape, is_bad_byte, split_slash, join_slash, resolve_segment,
  resolve_segments, canonicalize_path, under_prefix,
}
use tai_skeleton.AccessControl.PathCanon.Canonical.{
  IsSegment, path_of, canonicalize_path-IsCanonical, canonicalize_path_idempotent,
}
use tai_skeleton.AccessControl.PathCanon.Prefix.{Extends, under_prefix-path_of_iff}
use tai_skeleton.AccessControl.RoleGate.{
  name_length, template_segment, tokens, template_to_regex, fullmatch, served_methods,
  insert_methods, add_route, build_from, build_index, first_match, find_route, resolve_route_meta,
}
use tai_skeleton.AccessControl.RoleGate.Matching.{Matches, fullmatch_iff}
use tai_skeleton.AccessControl.RoleGate.Index.{
  Covers, resolve_route_meta_sound, resolve_route_meta_complete,
}
use tai_skeleton.Authz.Path.{PathParam, is_unsafe_segment, argument, same_route, own_route}
use tai_skeleton.Authz.Path.Segments.{IsChild, own_route_sound, argument_safe}
use tai_skeleton.Examples.Data.{index, routes, docs_route, docs_operation, docs_arguments}

dotted_canon : canonicalize_path (codes "//api/x/../docs/./7/") ≡ some (codes "/api/docs/7")
unfolding canonicalize_path has_residual_escape is_hex is_bad_byte any split_slash resolve_segments
    resolve_segment list_beq join_slash
dotted_canon = refl

canonicalize_path-IsCanonical_example :
    (segments : List Text) × (codes "/api/docs/7" ≡ path_of segments) × All IsSegment segments
canonicalize_path-IsCanonical_example =
    canonicalize_path-IsCanonical (codes "//api/x/../docs/./7/") (codes "/api/docs/7") dotted_canon

canonicalize_path_idempotent_example :
    canonicalize_path (codes "/api/docs/7") ≡ some (codes "/api/docs/7")
canonicalize_path_idempotent_example =
    canonicalize_path_idempotent (codes "//api/x/../docs/./7/") (codes "/api/docs/7") dotted_canon

api-IsSegment : IsSegment (codes "api")
unfolding has_residual_escape is_bad_byte is_hex any elem
api-IsSegment = (
  (λ e. cc),
  (λ e. cc),
  (λ e. cc),
  ((λ e. ground arith), ((λ e. ground arith), ((λ e. ground arith), tt))),
  refl,
  refl,
)

docs-IsSegment : IsSegment (codes "docs")
unfolding has_residual_escape is_bad_byte is_hex any elem
docs-IsSegment = (
  (λ e. cc),
  (λ e. cc),
  (λ e. cc),
  ((λ e. ground arith), ((λ e. ground arith), ((λ e. ground arith), ((λ e. ground arith), tt)))),
  refl,
  refl,
)

under_prefix-path_of_iff_example :
    (under_prefix (path_of (codes "api" ∷ codes "docs" ∷ [])) (path_of (codes "api" ∷ [])) ≡ true)
    ↔ Extends (codes "api" ∷ codes "docs" ∷ []) (codes "api" ∷ [])
under_prefix-path_of_iff_example =
    under_prefix-path_of_iff (codes "api" ∷ codes "docs" ∷ []) (codes "api" ∷ [])
      (api-IsSegment, (docs-IsSegment, tt)) (api-IsSegment, tt) (λ e. cc)

fullmatch_iff_example :
    (fullmatch (template_to_regex (codes "/api/docs/{id}")) (codes "/api/docs/7") ≡ true)
    ↔ Matches (template_to_regex (codes "/api/docs/{id}")) (codes "/api/docs/7")
fullmatch_iff_example =
    fullmatch_iff (template_to_regex (codes "/api/docs/{id}")) (codes "/api/docs/7")

pub routes_indexed : build_index routes ≡ ok index
unfolding build_index build_from canonicalize_path has_residual_escape is_hex is_bad_byte any
    split_slash resolve_segments resolve_segment list_beq join_slash add_route elem insert_methods
    insert pair_beq served_methods
routes_indexed = refl

docs_found : resolve_route_meta index (codes "/api/docs/7") (some (codes "GET")) ≡ some docs_route
unfolding resolve_route_meta canonicalize_path has_residual_escape is_hex is_bad_byte any
    split_slash resolve_segments resolve_segment list_beq join_slash find_route lookup pair_beq
    first_match elem fullmatch template_to_regex tokens template_segment name_length starts_with
docs_found = refl

resolve_route_meta_sound_example :
    Memᴰ docs_route routes
    × ((c : Text) × (canonicalize_path (codes "/api/docs/7") ≡ some c)
        × Covers docs_route c (codes "GET"))
resolve_route_meta_sound_example =
    resolve_route_meta_sound routes index (codes "/api/docs/7") (codes "GET") docs_route
      routes_indexed docs_found

post_missing : resolve_route_meta index (codes "/api/docs/7") (some (codes "POST")) ≡ none
unfolding resolve_route_meta canonicalize_path has_residual_escape is_hex is_bad_byte any
    split_slash resolve_segments resolve_segment list_beq join_slash find_route lookup pair_beq
    first_match elem fullmatch template_to_regex tokens
post_missing = refl

docs_canon : canonicalize_path (codes "/api/docs/7") ≡ some (codes "/api/docs/7")
unfolding canonicalize_path has_residual_escape is_hex is_bad_byte any split_slash resolve_segments
    resolve_segment list_beq join_slash
docs_canon = refl

resolve_route_meta_complete_example : ¬ Covers docs_route (codes "/api/docs/7") (codes "POST")
resolve_route_meta_complete_example =
    resolve_route_meta_complete routes index (codes "/api/docs/7") (codes "POST")
      (codes "/api/docs/7") routes_indexed docs_canon post_missing docs_route (Memᴰ.head refl)

docs_owned : own_route index docs_operation (codes "/api/docs/7") (codes "GET") ≡ ok docs_route
unfolding own_route same_route resolve_route_meta canonicalize_path has_residual_escape is_hex
    is_bad_byte any split_slash resolve_segments resolve_segment list_beq join_slash find_route
    lookup pair_beq first_match elem fullmatch template_to_regex tokens template_segment name_length
    starts_with
docs_owned = refl

own_route_sound_example :
    Memᴰ docs_route routes
    × ((c : Text) × (canonicalize_path (codes "/api/docs/7") ≡ some c)
        × Covers docs_route c (codes "GET"))
    × ((t : Text) × (docs_operation.route_template ≡ some t)
        × (canonicalize_path docs_route.path ≡ canonicalize_path t))
own_route_sound_example =
    own_route_sound routes index docs_operation (codes "/api/docs/7") (codes "GET") docs_route
      routes_indexed docs_owned

abbrev id_param : PathParam
id_param = record { name = codes "id"; converter = none; taken = 3 }

id_given : argument docs_arguments id_param ≡ ok (codes "7")
unfolding argument lookup list_beq option_beq elem any split_slash is_unsafe_segment
id_given = refl

argument_safe_example :
    (lookup (codes "id") docs_arguments ≡ some (codes "7"))
    × All IsChild (split_slash (codes "7"))
    × ((id_param.converter ≡ some (codes "path")) ⊎ (elem b'/' (codes "7") ≡ false))
argument_safe_example = argument_safe docs_arguments id_param (codes "7") id_given

docs_recorded :
    record_route []
      (codes "/api/docs/{id}")
      (codes "get" ∷ [])
      (codes "A page.")
      ("docs" ∷ [])
      true
      (some read)
    ≡ ok (((codes "/api/docs/{id}", codes "GET" ∷ []), docs_route) ∷ [])
unfolding record_route sort upper resolve_route_action derive_route_action any_write
    method_to_action elem list_beq is_action check_methods insert
docs_recorded = refl

record_route-IsClassified_example :
    AllClassified (((codes "/api/docs/{id}", codes "GET" ∷ []), docs_route) ∷ [])
record_route-IsClassified_example =
    record_route-IsClassified [] (((codes "/api/docs/{id}", codes "GET" ∷ []), docs_route) ∷ [])
      (codes "/api/docs/{id}") (codes "get" ∷ []) (codes "A page.") ("docs" ∷ []) true (some read)
      tt docs_recorded

record_route-undeclared_example : some read ≢ none
record_route-undeclared_example =
    record_route-undeclared [] (((codes "/api/docs/{id}", codes "GET" ∷ []), docs_route) ∷ [])
      (codes "/api/docs/{id}") (codes "get" ∷ []) (codes "A page.") ("docs" ∷ []) (some read)
      docs_recorded
