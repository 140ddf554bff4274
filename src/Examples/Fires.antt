-- ===== src/Examples/Fires.antt =====
-- A fire: its identity, its tool calls and agent runs, the scan of keys, and the chase of presets.
use tai_skeleton.Base.{
  List, true, ◌≡◌, refl, none, some, [], ◌∷◌, String, Text, codes, nat_eq, string_eq, list_eq,
  pair_eq, option_eq, list_beq, pair_beq, any, all, elem, keep, set_add, lookup, insert,
  starts_with, ok, raise, permission_denied, fingerprint_mismatch,
}
use tai_skeleton.AccessControl.PathCanon.{
  is_hex, has_residual_escape, is_bad_byte, split_slash, join_slash, resolve_segment,
  resolve_segments, canonicalize_path, under_prefix,
}
use tai_skeleton.AccessControl.RoleGate.{
  name_length, template_segment, tokens, template_to_regex, fullmatch, first_match, find_route,
  resolve_route_meta,
}
use tai_skeleton.AccessControl.Policy.{
  get, policy_is_empty, is_admin_policy, current_policy_version, get_policy_at, enforce,
  effective_scopes,
}
use tai_skeleton.AccessControl.Policy.Scopes.{permits}
use tai_skeleton.AccessControl.RoleGrants.{role_level_decision_for_route}
use tai_skeleton.AccessControl.Verifier.{
  is_always_public_prefix, matches_always_public_route_pattern, is_reserved_prefix, uuid_at,
  sub_uuid, sub_digits, normalize_auto, exact_tier, normalized_tier, pattern_tier, table_ids,
  drop_reserved, add_public_pattern, add_acknowledged, add_spa_shell, public_tiers,
  resolve_canonical, resolve_resource_ids,
}
use tai_skeleton.AccessControl.Guard.{is_only, protected_ids}
use tai_skeleton.Authz.Path.{Arguments}
use tai_skeleton.Authz.Check.{
  assert_policy_matches_fingerprint, assert_bound_key, live_owner, read_owner, scopes_for,
  scope_test, fence, owner_fence, fences, level_test, authorize_caller, authorize_pinned_route,
}
use tai_skeleton.Authz.Resolver.{
  base_of, update, chase, keys, links, rounds, resolve_chain, settled, dispatch_of,
  resolve_dispatch,
}
use tai_skeleton.Authz.Resolver.Links.{first_of}
use tai_skeleton.Authz.Resolver.Chain.{Chain, baked, resolve_chain-Settles}
use tai_skeleton.Authz.Execution.{
  owner_authority, assert_key_carries_authority, build_execution_identity, authorize_capability,
  authorize_execution_tool_call, authorize_external_run, authorize_execution_agent_run, read_usable,
  assert_usable,
}
use tai_skeleton.Authz.Execution.Bound.{BuiltFor, build_execution_identity-BuiltFor}
use tai_skeleton.Authz.Execution.Doors.{BackedRun, authorize_execution_agent_run-BackedRun}
use tai_skeleton.Authz.Execution.Scan.{
  Asked, scan, is_verdict, assert_usable_again, assert_usable_others,
}
use tai_skeleton.Examples.Data.{svc, site, fire_caller, docs_operation, op_surface}

identity_built : build_execution_identity svc site "key" "f1" ≡ ok fire_caller
unfolding build_execution_identity assert_key_carries_authority current_policy_version get_policy_at
    policy_is_empty get lookup assert_policy_matches_fingerprint owner_authority
identity_built = refl

build_execution_identity-BuiltFor_example : BuiltFor svc site "key" "f1" fire_caller
build_execution_identity-BuiltFor_example =
    build_execution_identity-BuiltFor svc site "key" "f1" fire_caller refl identity_built

capability_allowed : authorize_execution_tool_call svc site fire_caller true (ok none) ≡ ok tt
unfolding authorize_execution_tool_call authorize_capability assert_key_carries_authority
    current_policy_version get_policy_at policy_is_empty get lookup
    assert_policy_matches_fingerprint owner_authority
capability_allowed = refl

run_allowed : authorize_execution_agent_run svc site fire_caller (codes "bob") ≡ ok tt
unfolding authorize_execution_agent_run authorize_external_run authorize_pinned_route
    authorize_caller assert_bound_key read_owner live_owner assert_policy_matches_fingerprint
    effective_scopes scopes_for scope_test fence owner_fence fences level_test name_length lookup
    list_beq pair_beq elem any all keep split_slash canonicalize_path has_residual_escape is_hex
    is_bad_byte resolve_segments resolve_segment join_slash under_prefix starts_with
    resolve_route_meta find_route first_match fullmatch template_to_regex tokens template_segment
    resolve_resource_ids resolve_canonical is_always_public_prefix table_ids exact_tier
    normalized_tier pattern_tier normalize_auto sub_digits sub_uuid uuid_at set_add public_tiers
    drop_reserved add_public_pattern add_acknowledged add_spa_shell is_reserved_prefix
    matches_always_public_route_pattern current_policy_version get_policy_at get policy_is_empty
    is_only protected_ids permits enforce role_level_decision_for_route is_admin_policy
run_allowed = refl

authorize_execution_agent_run-BackedRun_example : BackedRun svc site fire_caller (codes "bob")
authorize_execution_agent_run-BackedRun_example =
    authorize_execution_agent_run-BackedRun svc site fire_caller (codes "bob") refl refl run_allowed

-- the second mint of a key has another fingerprint
scan_refuses : assert_usable svc site [] "key" "f0" ≡ (
  raise (permission_denied fingerprint_mismatch),
  (("key", "f0"), some (permission_denied fingerprint_mismatch)) ∷ [],
)
unfolding assert_usable read_usable assert_key_carries_authority current_policy_version
    get_policy_at policy_is_empty get lookup assert_policy_matches_fingerprint insert
scan_refuses = refl

scan_reaches : is_verdict (assert_usable svc site [] "key" "f0").0 ≡ true
scan_reaches = rw scan_refuses refl

-- the records of a batch that come between
abbrev other_records : List Asked
other_records =
    record { services = svc; key = "key"; bound = "f1" }
    ∷ record { services = svc; key = "nobody"; bound = "f0" }
    ∷ []

assert_usable_again_example :
    (assert_usable svc site
      (scan site other_records (assert_usable svc site [] "key" "f0").1)
      "key"
      "f0").0
    ≡ (assert_usable svc site [] "key" "f0").0
assert_usable_again_example =
    assert_usable_again svc svc site [] "key" "f0" other_records refl scan_reaches

verdict_of_other_kept :
    lookup ("key", "f1") (assert_usable svc site [] "key" "f0").1
    ≡ lookup {A = String × String} ("key", "f1") []
unfolding pair_beq
verdict_of_other_kept = assert_usable_others svc site [] "key" "f0" ("key", "f1") refl

resolve_chain-Settles_example :
    (base : String) × (fixed : List Arguments) × Chain op_surface [] "page_seven" base fixed
    × ((arguments : Arguments)
        → (final : Arguments) × (resolve_chain op_surface "page_seven" arguments
            ≡ some (base, final))
          × ((k : Text) → lookup k final ≡ first_of (baked fixed k) (lookup k arguments)))
resolve_chain-Settles_example = resolve_chain-Settles op_surface "page_seven"

page_seven_dispatch :
    resolve_dispatch op_surface "page_seven" ((codes "id", codes "8") ∷ [])
    ≡ ok (some (docs_operation, (codes "id", codes "7") ∷ []))
unfolding resolve_dispatch resolve_chain chase rounds links keys base_of update dispatch_of settled
    lookup insert list_beq elem
page_seven_dispatch = refl
