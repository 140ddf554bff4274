-- ===== src/Examples/Conditioned.antt =====
-- A fire whose key has a condition on its owner, under the small interpreter.
use tai_skeleton.Base.{
  false, ℕ, if◌then◌else◌, Result, raise, fault, loop, take, ap, true, ◌≡◌, refl, Option, none,
  some, [], ◌∷◌, String, Text, codes, nat_eq, string_eq, list_eq, pair_eq, option_eq, list_beq,
  pair_beq, option_beq, any, all, elem, keep, set_add, lookup, starts_with, ok,
}
use tai_skeleton.AccessControl.PathCanon.{
  is_hex, has_residual_escape, is_bad_byte, split_slash, join_slash, resolve_segment,
  resolve_segments, canonicalize_path, under_prefix,
}
use tai_skeleton.AccessControl.RoleGate.{
  name_length, template_segment, tokens, template_to_regex, fullmatch, first_match, find_route,
  resolve_route_meta,
}
use tai_skeleton.AccessControl.Policy.{
  get, policy_is_empty, is_admin_policy, current_policy_version, get_policy_at, enforce,
  effective_scopes,
}
use tai_skeleton.AccessControl.Policy.Scopes.{permits}
use tai_skeleton.AccessControl.RoleGrants.{role_level_decision_for_route}
use tai_skeleton.AccessControl.Verifier.{
  is_always_public_prefix, matches_always_public_route_pattern, is_reserved_prefix, uuid_at,
  sub_uuid, sub_digits, normalize_auto, exact_tier, normalized_tier, pattern_tier, table_ids,
  drop_reserved, add_public_pattern, add_acknowledged, add_spa_shell, public_tiers,
  resolve_canonical, resolve_resource_ids,
}
use tai_skeleton.AccessControl.Guard.{is_only, protected_ids}
use tai_skeleton.Authz.Path.{
  path_param, is_unsafe_segment, argument, substitute, synthesize_path, same_route, own_route,
}
use tai_skeleton.Authz.Check.{
  assert_policy_matches_fingerprint, assert_bound_key, live_owner, read_owner, scopes_for,
  scope_test, fence, owner_fence, fences, level_test, authorize_caller, authorize_pinned_route,
  check_external, check,
}
use tai_skeleton.AccessControl.Policy.{
  Value, null, bool, str, equals, Dict, AccessPolicy, JqContext, Services,
}
use tai_skeleton.Authz.TokenFree.Syntax.{Node, static_name}
use tai_skeleton.Authz.TokenFree.Lexer.{lex_string}
use tai_skeleton.Authz.TokenFree.Taint.{taint, is_owner_only}
use tai_skeleton.Authz.TokenFree.Parser.{count_nodes, add_node, add_suffix}
use tai_skeleton.Authz.TokenFree.Grammar.{assert_token_free_evaluable, program}
use tai_skeleton.Authz.TokenFree.Jq.{Stream, output}
use tai_skeleton.Authz.Check.{CallerIdentity}
use tai_skeleton.Authz.Check.Conditions.{RunsJq}
use tai_skeleton.Authz.Check.Conditions.Dispatch.{check-other_claims}
use tai_skeleton.Examples.Interpreter.{Json, flag, auth, at, literal_at, eval}
use tai_skeleton.Examples.Interpreter.Callers.{small_jq, auth-SameButIdentity}
use tai_skeleton.Examples.Data.{
  svc, site, key_policy, admin_policy, fire_caller, docs_operation, docs_arguments,
}

abbrev text_of : Value → Text
text_of (str s) = codes s
text_of _ = []

abbrev method_text : Option Text → Text
method_text none = []
method_text (some m) = m

unfoldable value_of : JqContext → Json
value_of c =
    auth (method_text c.method) (text_of (get c.identity "owner_user_id"))
      (text_of (get c.identity "groups"))

abbrev result_of : Stream Json → Result Value
result_of (output (flag b) s) = ok (bool b)
result_of (output _ s) = ok null
result_of _ = raise fault

abbrev ran : Text → Result Node → Json → Result Value
ran source (raise e) v = raise e
ran source (ok n) v = result_of ((small_jq source).eval n (λ x. none) v)

unfoldable run_small_jq : String → JqContext → Result Value
unfolding value_of
run_small_jq condition c = ran (codes condition) (program (codes condition)) (value_of c)

abbrev owned_policy : AccessPolicy
owned_policy = record key_policy {
  condition = some ".identity.owner_user_id == \"alice\" and true";
}

abbrev conditioned_policy : Value → ℕ → Result (Option AccessPolicy)
conditioned_policy v version =
    if equals v "key"
    then ok (some owned_policy)
    else if equals v "alice"
    then ok (some admin_policy)
    else ok none

abbrev written_condition : Option String → Option String → Dict → Result String
written_condition none i k = ok ""
written_condition (some c) i k = ok c

abbrev conditioned_svc : Services
conditioned_svc = record svc {
  owner_claim = "owner_user_id";
  policy_body = conditioned_policy;
  render = written_condition;
  run_jq = run_small_jq;
}

abbrev caller_of_ops : CallerIdentity
caller_of_ops = record fire_caller {
  claims = some (("owner_user_id", str "alice") ∷ ("groups", str "ops") ∷ []);
}

conditioned_svc-RunsJq : RunsJq conditioned_svc
unfolding run_small_jq value_of
conditioned_svc-RunsJq = record {
  jq = λ condition. small_jq (codes condition);
  value_of = λ condition c. value_of c;
  result_of = λ condition s. result_of s;
  runs = λ condition n c h. ap (λ r. ran (codes condition) r (value_of c)) h;
  reads = λ condition c claims same. rw same (
      auth-SameButIdentity (codes condition) (method_text c.method)
        (text_of (get claims "owner_user_id")) (text_of (get c.identity "groups"))
        (text_of (get claims "groups")));
}

abbrev anyone : JqContext
anyone = record {
  sub = "key";
  scopes = [];
  identity = [];
  policy = [];
  context = [];
  method = none;
  path = [];
  time = 0;
}

-- The engine tells literals apart.
literals_differ :
    (run_small_jq "true" anyone ≡ ok (bool true)) × (run_small_jq "false" anyone ≡ ok (bool false))
unfolding run_small_jq value_of eval at get lookup program loop take lex_string count_nodes add_node
    add_suffix elem list_beq starts_with any literal_at
literals_differ = (refl, refl)

conditioned_fire_allowed :
    check conditioned_svc site caller_of_ops docs_operation docs_arguments true ≡ ok tt
unfolding check check_external authorize_pinned_route authorize_caller assert_bound_key read_owner
    live_owner assert_policy_matches_fingerprint effective_scopes scopes_for scope_test fence
    owner_fence fences level_test own_route same_route synthesize_path substitute path_param
    name_length argument lookup list_beq pair_beq option_beq elem any all keep split_slash
    is_unsafe_segment canonicalize_path has_residual_escape is_hex is_bad_byte resolve_segments
    resolve_segment join_slash under_prefix starts_with resolve_route_meta find_route first_match
    fullmatch template_to_regex tokens template_segment resolve_resource_ids resolve_canonical
    is_always_public_prefix table_ids exact_tier normalized_tier pattern_tier normalize_auto
    sub_digits sub_uuid uuid_at set_add public_tiers drop_reserved add_public_pattern
    add_acknowledged add_spa_shell is_reserved_prefix matches_always_public_route_pattern
    current_policy_version get_policy_at get policy_is_empty is_only protected_ids permits enforce
    role_level_decision_for_route is_admin_policy run_small_jq value_of eval at literal_at
    assert_token_free_evaluable program loop take lex_string count_nodes add_node taint add_suffix
    static_name is_owner_only
conditioned_fire_allowed = refl

check-other_claims_example :
    check conditioned_svc site
      (record caller_of_ops { claims = some (("owner_user_id", str "alice") ∷ []) })
      docs_operation
      docs_arguments
      true
    ≡ ok tt
unfolding get lookup
check-other_claims_example =
    check-other_claims conditioned_svc site conditioned_svc-RunsJq caller_of_ops
      (("owner_user_id", str "alice") ∷ []) docs_operation docs_arguments refl
      conditioned_fire_allowed
