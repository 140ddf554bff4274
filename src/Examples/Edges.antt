-- ===== src/Examples/Edges.antt =====
-- Requests, dispatches and fires at the two edges.
use tai_skeleton.Base.{
  true, false, ◌≡◌, ◌≢◌, ◌⊎◌, ◌↔◌, refl, Option, none, some, List, [], ◌∷◌, String, Text, codes,
  nat_eq, string_eq, list_eq, pair_eq, option_eq, list_beq, pair_beq, option_beq, any, all, elem,
  keep, set_add, lookup, starts_with, lower, ok,
}
use tai_skeleton.AccessControl.PathCanon.{
  is_hex, has_residual_escape, is_bad_byte, split_slash, join_slash, resolve_segment,
  resolve_segments, canonicalize_path, under_prefix,
}
use tai_skeleton.AccessControl.RoleGate.{
  name_length, template_segment, tokens, template_to_regex, fullmatch, first_match, find_route,
  resolve_route_meta,
}
use tai_skeleton.AccessControl.Policy.{
  is_null, get, policy_is_empty, is_admin_policy, current_policy_version, get_policy_at, get_policy,
  enforce, effective_scopes,
}
use tai_skeleton.AccessControl.Policy.Scopes.{permits}
use tai_skeleton.AccessControl.RoleGrants.{role_level_decision_for_route, role_level_decision}
use tai_skeleton.AccessControl.Verifier.{
  is_always_public_prefix, matches_always_public_route_pattern, is_reserved_prefix, uuid_at,
  sub_uuid, sub_digits, normalize_auto, exact_tier, normalized_tier, pattern_tier, table_ids,
  drop_reserved, add_public_pattern, add_acknowledged, add_spa_shell, public_tiers,
  resolve_canonical, resolve_resource_ids,
}
use tai_skeleton.AccessControl.Verifier.Tiers.{resolve_resource_ids-reserved}
use tai_skeleton.AccessControl.Backend.{
  strip_left, strip_right, partition_space, bearer_candidates, extract_credential_candidates,
  strip_owner, verify_token, first_valid, get_access_token, is_always_public_path, owner_standing,
  standing, TaiUser, enforce_owner, enforce_conditions, level_pass, admit_level, admit_standing,
  authenticate,
}
use tai_skeleton.AccessControl.Backend.Admission.{Admitted}
use tai_skeleton.AccessControl.Backend.Credentials.{FirstToKnow, caller_is_vouched_for}
use tai_skeleton.AccessControl.Guard.{run_app, is_only, protected_ids, guard_ids, guard, http_edge}
use tai_skeleton.AccessControl.Guard.Doors.{
  anonymous_iff_public, anonymous_not_on_reserved, MayReach, http_edge-Admitted,
  fenced_route_admin_only,
}
use tai_skeleton.Authz.Path.{
  path_param, is_unsafe_segment, argument, substitute, synthesize_path, same_route, own_route,
}
use tai_skeleton.Authz.Check.{
  assert_policy_matches_fingerprint, assert_bound_key, live_owner, read_owner, scopes_for,
  scope_test, fence, owner_fence, fences, level_test, authorize_caller, authorize_pinned_route,
  check_external, check,
}
use tai_skeleton.Authz.Check.Inversion.{Dispatched}
use tai_skeleton.AccessControl.Validation.{
  validate, refuse_provider_gap, disjoint_prefixes, each, prefix_overlaps, authenticated_entry,
  shell_entry, each_pattern, pattern_entry,
}
use tai_skeleton.AccessControl.Validation.Disjoint.{reserved_not_always_public}
use tai_skeleton.AccessControl.Validation.Entries.{IsApart, validate-IsApart}
use tai_skeleton.Authz.Check.Request.{bound_caller}
use tai_skeleton.Authz.Check.Edges.{tool_edge_not_easier}
use tai_skeleton.Authz.Check.Fires.{Backed, check-Backed}
use tai_skeleton.Examples.Data.{
  svc, site, settings, admin_route, providers, key_request, admin_request, anonymous_request,
  key_token, key_standing, key_user, admin_user, docs_operation, docs_arguments, fire_caller,
}

key_is_verified : get_access_token svc providers key_request ≡ ok (some key_token)
unfolding get_access_token extract_credential_candidates bearer_candidates partition_space
    strip_left strip_right lower list_beq first_valid verify_token strip_owner
key_is_verified = refl

key_stands : standing svc key_token ≡ ok key_standing
unfolding standing get_policy get_policy_at current_policy_version policy_is_empty owner_standing
    get lookup effective_scopes elem
key_stands = refl

key_is_pinned : synthesize_path docs_operation docs_arguments ≡ ok key_request.path
unfolding synthesize_path substitute path_param name_length argument lookup list_beq option_beq elem
    any split_slash is_unsafe_segment
key_is_pinned = refl

key_dispatch_allowed :
    check svc site (bound_caller key_token key_standing) docs_operation docs_arguments false ≡ ok tt
unfolding check check_external authorize_pinned_route authorize_caller assert_bound_key read_owner
    live_owner scopes_for scope_test fence owner_fence fences level_test own_route same_route
    synthesize_path substitute path_param name_length argument lookup list_beq pair_beq option_beq
    elem any all keep split_slash is_unsafe_segment canonicalize_path has_residual_escape is_hex
    is_bad_byte resolve_segments resolve_segment join_slash under_prefix starts_with
    resolve_route_meta find_route first_match fullmatch template_to_regex tokens template_segment
    resolve_resource_ids resolve_canonical is_always_public_prefix table_ids exact_tier
    normalized_tier pattern_tier normalize_auto sub_digits sub_uuid uuid_at set_add public_tiers
    drop_reserved add_public_pattern add_acknowledged add_spa_shell is_reserved_prefix
    matches_always_public_route_pattern current_policy_version get_policy_at get policy_is_empty
    is_only protected_ids permits enforce role_level_decision_for_route is_admin_policy
key_dispatch_allowed = refl

fire_allowed : check svc site fire_caller docs_operation docs_arguments true ≡ ok tt
unfolding check check_external authorize_pinned_route authorize_caller assert_bound_key read_owner
    live_owner assert_policy_matches_fingerprint effective_scopes scopes_for scope_test fence
    owner_fence fences level_test own_route same_route synthesize_path substitute path_param
    name_length argument lookup list_beq pair_beq option_beq elem any all keep split_slash
    is_unsafe_segment canonicalize_path has_residual_escape is_hex is_bad_byte resolve_segments
    resolve_segment join_slash under_prefix starts_with resolve_route_meta find_route first_match
    fullmatch template_to_regex tokens template_segment resolve_resource_ids resolve_canonical
    is_always_public_prefix table_ids exact_tier normalized_tier pattern_tier normalize_auto
    sub_digits sub_uuid uuid_at set_add public_tiers drop_reserved add_public_pattern
    add_acknowledged add_spa_shell is_reserved_prefix matches_always_public_route_pattern
    current_policy_version get_policy_at get policy_is_empty is_only protected_ids permits enforce
    role_level_decision_for_route is_admin_policy
fire_allowed = refl

settings_valid : validate ("redis" ∷ []) settings ≡ ok tt
unfolding validate refuse_provider_gap disjoint_prefixes each prefix_overlaps list_beq starts_with
    authenticated_entry each_pattern pattern_entry shell_entry canonicalize_path has_residual_escape
    is_hex is_bad_byte any split_slash resolve_segments resolve_segment join_slash under_prefix
settings_valid = refl

me_canonical : canonicalize_path (codes "/me") ≡ some (codes "/me")
unfolding canonicalize_path has_residual_escape is_hex is_bad_byte any split_slash resolve_segments
    resolve_segment list_beq join_slash
me_canonical = refl

validate-IsApart_example : IsApart settings
validate-IsApart_example =
    validate-IsApart ("redis" ∷ []) settings settings_valid (me_canonical, tt)

settings-IsApart : IsApart settings
settings-IsApart = validate-IsApart ("redis" ∷ []) settings settings_valid (me_canonical, tt)

tool_edge_not_easier_example :
    (caller : Option TaiUser) × (http_edge svc site providers key_request ≡ run_app caller)
tool_edge_not_easier_example =
    tool_edge_not_easier svc site providers key_request key_token key_standing docs_operation
      docs_arguments settings-IsApart refl key_is_verified key_stands key_is_pinned refl
      key_dispatch_allowed

check-Backed_example :
    (d : Dispatched svc site fire_caller docs_operation docs_arguments true) × (c : Text)
    × (canonicalize_path d.path ≡ some c)
    × ((is_always_public_prefix c site.settings ≡ true)
        ⊎ Backed svc site fire_caller d.user_id d.path)
check-Backed_example =
    check-Backed svc site fire_caller docs_operation docs_arguments refl refl fire_allowed

key_request_runs : http_edge svc site providers key_request ≡ run_app (some key_user)
unfolding http_edge authenticate is_always_public_path get_access_token
    extract_credential_candidates bearer_candidates partition_space strip_left strip_right lower
    list_beq first_valid verify_token strip_owner standing get_policy get_policy_at
    current_policy_version policy_is_empty owner_standing get lookup effective_scopes elem
    admit_standing enforce_conditions enforce enforce_owner level_pass admit_level
    role_level_decision role_level_decision_for_route is_admin_policy guard guard_ids is_only
    protected_ids permits all any keep canonicalize_path has_residual_escape is_hex is_bad_byte
    split_slash resolve_segments resolve_segment join_slash under_prefix starts_with
    resolve_route_meta find_route first_match fullmatch template_to_regex tokens template_segment
    name_length pair_beq resolve_resource_ids resolve_canonical is_always_public_prefix table_ids
    exact_tier normalized_tier pattern_tier normalize_auto sub_digits sub_uuid uuid_at set_add
    public_tiers drop_reserved add_public_pattern add_acknowledged add_spa_shell is_reserved_prefix
    matches_always_public_route_pattern
key_request_runs = refl

pub admin_request_runs : http_edge svc site providers admin_request ≡ run_app (some admin_user)
unfolding http_edge authenticate is_always_public_path get_access_token
    extract_credential_candidates bearer_candidates partition_space strip_left strip_right lower
    list_beq first_valid verify_token strip_owner standing get_policy get_policy_at
    current_policy_version policy_is_empty owner_standing get lookup effective_scopes elem
    admit_standing enforce_conditions enforce enforce_owner level_pass admit_level
    role_level_decision role_level_decision_for_route is_admin_policy guard guard_ids is_only
    protected_ids permits all any keep canonicalize_path has_residual_escape is_hex is_bad_byte
    split_slash resolve_segments resolve_segment join_slash under_prefix starts_with
    resolve_route_meta find_route first_match fullmatch template_to_regex tokens template_segment
    name_length pair_beq resolve_resource_ids resolve_canonical is_always_public_prefix table_ids
    exact_tier normalized_tier pattern_tier normalize_auto sub_digits sub_uuid uuid_at set_add
    public_tiers drop_reserved add_public_pattern add_acknowledged add_spa_shell is_reserved_prefix
    matches_always_public_route_pattern
admin_request_runs = refl

admin_is_canonical : canonicalize_path (codes "/api/admin/users") ≡ some (codes "/api/admin/users")
unfolding canonicalize_path has_residual_escape is_hex is_bad_byte any split_slash resolve_segments
    resolve_segment list_beq join_slash
admin_is_canonical = refl

admin_is_reserved : is_reserved_prefix (codes "/api/admin/users") site.settings ≡ true
unfolding is_reserved_prefix any under_prefix list_beq starts_with
admin_is_reserved = refl

admin_is_not_open : is_always_public_prefix (codes "/api/admin/users") site.settings ≡ false
unfolding is_always_public_prefix any under_prefix list_beq starts_with
admin_is_not_open = refl

anonymous_not_on_reserved_example : http_edge svc site providers anonymous_request ≢ run_app none
anonymous_not_on_reserved_example =
    anonymous_not_on_reserved svc site providers anonymous_request (codes "/api/admin/users")
      ("redis" ∷ []) settings_valid admin_is_canonical admin_is_reserved

http_edge-Admitted_example :
    Admitted svc site providers key_request key_user × MayReach svc site key_request key_user
http_edge-Admitted_example =
    http_edge-Admitted svc site providers key_request key_user key_request_runs

admin_route_found :
    resolve_route_meta site.index admin_request.path (some (codes "POST")) ≡ some admin_route
unfolding resolve_route_meta find_route lookup pair_beq list_beq canonicalize_path
    has_residual_escape is_hex is_bad_byte any split_slash resolve_segments resolve_segment
    join_slash
admin_route_found = refl

fenced_route_admin_only_example : admin_user.is_admin ≡ true
fenced_route_admin_only_example =
    fenced_route_admin_only svc site providers admin_request admin_user (codes "POST") admin_route
      refl admin_route_found refl admin_request_runs

anonymous_iff_public_example :
    (guard svc site (codes "/api/docs/7") (some (codes "GET")) none ≡ run_app none) ↔ (
      (elem (codes "/api/docs/7") site.settings.authenticated_always_allowed_paths ≡ false)
      × ((ids : List String) × (resolve_resource_ids svc site
              (codes "/api/docs/7")
              (some (codes "GET"))
              none
            ≡ ok ids)
          × (is_only site.settings.public_resource_id ids ≡ true)))
anonymous_iff_public_example =
    anonymous_iff_public svc site (codes "/api/docs/7") (some (codes "GET"))

caller_is_vouched_for_example :
    (token : Text) × (elem token (extract_credential_candidates key_request) ≡ true)
    × (known : FirstToKnow svc providers token key_token) × ((is_null
            (get key_token.claims svc.owner_claim)
          ≡ true)
        ⊎ (known.provider.mints_keys ≡ true))
caller_is_vouched_for_example =
    caller_is_vouched_for svc providers key_request key_token key_is_verified

admin_ids :
    resolve_resource_ids svc site (codes "/api/admin/users") (some (codes "GET")) none ≡ ok []
unfolding resolve_resource_ids resolve_canonical canonicalize_path has_residual_escape is_hex
    is_bad_byte any split_slash resolve_segments resolve_segment join_slash list_beq
    is_always_public_prefix under_prefix starts_with current_policy_version table_ids exact_tier
    normalized_tier pattern_tier normalize_auto sub_digits sub_uuid uuid_at set_add public_tiers
    drop_reserved add_public_pattern add_acknowledged add_spa_shell is_reserved_prefix
    matches_always_public_route_pattern elem keep
admin_ids = refl

resolve_resource_ids-reserved_example : elem {A = String} "public" [] ≡ false
resolve_resource_ids-reserved_example =
    resolve_resource_ids-reserved svc site (codes "/api/admin/users") (codes "/api/admin/users")
      (some (codes "GET")) none [] admin_is_canonical admin_is_reserved admin_is_not_open admin_ids

docs_ids : resolve_resource_ids svc site (codes "/api/docs/7") none none ≡ ok ("docs" ∷ [])
unfolding resolve_resource_ids resolve_canonical canonicalize_path has_residual_escape is_hex
    is_bad_byte any split_slash resolve_segments resolve_segment join_slash list_beq
    is_always_public_prefix under_prefix starts_with current_policy_version table_ids exact_tier
    normalized_tier pattern_tier normalize_auto sub_digits sub_uuid uuid_at set_add public_tiers
    drop_reserved add_public_pattern add_acknowledged add_spa_shell is_reserved_prefix
    matches_always_public_route_pattern elem keep
docs_ids = refl

reserved_not_always_public_example :
    is_always_public_prefix (codes "/api/admin/users") settings ≡ false
reserved_not_always_public_example =
    reserved_not_always_public ("redis" ∷ []) settings (codes "/api/admin/users") settings_valid
      admin_is_reserved
