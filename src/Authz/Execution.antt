-- ===== src/Authz/Execution.antt =====
-- authz/execution.py: the identity that a background fire runs as, the doors that authorize what the
-- fire dispatches, and the scan of the keys that a batch of records names. An
-- `ExecutionKeyAuthorityError` is a `PermissionDenied`; the reads raise neither.
pub mod Bound
pub mod Scan
pub mod Doors
use tai_skeleton.Base.{
  ℕ, Bool, true, false, ◌&&◌, not, Option, none, some, List, [], ◌∷◌, ◌++◌, String, Text, codes,
  ◌==◌, string_eq, pair_eq, lookup, insert, if◌then◌else◌, Exc, Result, ok, raise,
  permission_denied, malformed_path_error, value_error, template_error, template_not_found,
  token_free_error, execution_condition_error, no_identity, no_policy, no_route, no_fingerprint,
  disabled, owner_disabled, owner_no_policy, ◌>>=◌, ◌>>◌, raise_if, require,
}
use tai_skeleton.AccessControl.PathCanon.{canonicalize_path}
use tai_skeleton.AccessControl.RoleGate.{resolve_route_meta}
use tai_skeleton.AccessControl.Policy.{
  Value, null, str, is_null, Dict, get, AccessPolicy, Services, has_condition, policy_is_empty,
  is_disabled, current_policy_version, get_policy_at, render_policy,
}
use tai_skeleton.AccessControl.Verifier.{Site}
use tai_skeleton.Authz.TokenFree.Grammar.{assert_token_free_evaluable}
use tai_skeleton.Authz.Path.{OperationMetadata, Arguments}
use tai_skeleton.Authz.Check.{
  CallerIdentity, assert_policy_matches_fingerprint, authorize_pinned_route, check,
}

-- errors of the template are the author's to repair
abbrev pub author_errors : Result String → Result String
author_errors (ok s) = ok s
author_errors (raise value_error) = raise execution_condition_error
author_errors (raise malformed_path_error) = raise execution_condition_error
author_errors (raise template_error) = raise execution_condition_error
author_errors (raise template_not_found) = raise execution_condition_error
author_errors (raise e) = raise e

abbrev pub scan_errors : Result (Unit {0}) → Result (Unit {0})
scan_errors (ok u) = ok u
scan_errors (raise token_free_error) = raise execution_condition_error
scan_errors (raise e) = raise e

module _ (svc : Services) (site : Site) where
  unfoldable pub owner_authority : Value → ℕ → Result Value
  owner_authority owner version = if is_null owner then ok null else (do
    owner_policy ← get_policy_at svc owner version
    raise_if (is_disabled owner_policy) (permission_denied owner_disabled)
    raise_if (policy_is_empty owner_policy) (permission_denied owner_no_policy)
    ok owner)

  -- the owner of a key that can carry authority; None is null
  unfoldable pub assert_key_carries_authority : String → String → Result Value
  assert_key_carries_authority key bound = do
    version ← current_policy_version svc
    policy ← get_policy_at svc (str key) version
    raise_if (policy_is_empty policy) (permission_denied no_policy)
    raise_if (is_disabled policy) (permission_denied disabled)
    assert_policy_matches_fingerprint svc site policy bound
    owner_authority (get policy.policy_data svc.owner_claim) version

  abbrev pub owner_claims : Value → Dict
  owner_claims owner = if is_null owner then [] else (svc.owner_claim, owner) ∷ []

  unfoldable pub build_execution_identity : String → String → Result CallerIdentity
  build_execution_identity key bound =
      if not site.settings.enable
      then ok (record {
        user_id = some key;
        is_internal = false;
        effective_scopes = none;
        claims = none;
        execution_key_fingerprint = none;
      })
      else (do
        owner ← assert_key_carries_authority key bound
        ok (record {
          user_id = some key;
          is_internal = false;
          effective_scopes = none;
          claims = some (owner_claims owner);
          execution_key_fingerprint = some bound;
        }))

  unfoldable pub assert_condition_evaluable : AccessPolicy → Result (Unit {0})
  assert_condition_evaluable policy =
      if has_condition policy
      then (do
        condition ← author_errors (render_policy svc policy)
        if condition == ""
            then ok tt
            else scan_errors (
                assert_token_free_evaluable svc.compile_jq (codes svc.owner_claim)
                  (codes condition)))
      else ok tt

  unfoldable pub assert_execution_key_evaluable : String → Result (Unit {0})
  assert_execution_key_evaluable key = do
    version ← current_policy_version svc
    policy ← get_policy_at svc (str key) version
    assert_condition_evaluable policy
    let owner = get policy.policy_data svc.owner_claim
    if is_null owner then ok tt else (do
      owner_policy ← get_policy_at svc owner version
      assert_condition_evaluable owner_policy)

  -- a capability tool: only the liveness of the key is asked
  unfoldable pub authorize_capability : CallerIdentity → Result (Unit {0})
  authorize_capability identity = if identity.is_internal then ok tt else (do
    user_id ← require identity.user_id (permission_denied no_identity)
    bound ← require identity.execution_key_fingerprint (permission_denied no_fingerprint)
    owner ← assert_key_carries_authority user_id bound
    ok tt)

  -- `fire` is whether an execution identity is bound where the dispatch runs
  unfoldable pub authorize_execution_tool_call :
      CallerIdentity → Bool → Result (Option (OperationMetadata × Arguments)) → Result (Unit {0})
  authorize_execution_tool_call identity fire dispatch =
      if not site.settings.enable then ok tt else (do
        resolved ← dispatch
        elim resolved [
          | none ↦ authorize_capability identity
          | some (operation, arguments) ↦ check svc site identity operation arguments fire
        ])

  abbrev pub run_path : Text → Text
  run_path agent_name = codes "/api/agents/" ++ agent_name ++ codes "/runs"

  unfoldable pub authorize_external_run : CallerIdentity → Text → Result (Unit {0})
  authorize_external_run identity agent_name = do
    user_id ← require identity.user_id (permission_denied no_identity)
    canonical ← require (canonicalize_path (run_path agent_name)) malformed_path_error
    route ←
        require (resolve_route_meta site.index canonical (some (codes "POST")))
          (permission_denied no_route)
    authorize_pinned_route svc site identity user_id (run_path agent_name) (codes "POST") route true

  unfoldable pub authorize_execution_agent_run : CallerIdentity → Text → Result (Unit {0})
  authorize_execution_agent_run identity agent_name =
      if not site.settings.enable
      then ok tt
      else if identity.is_internal
      then ok tt
      else authorize_external_run identity agent_name

-- `ExecutionKeyScan._verdict`: `none` for a usable key, else its refusal
abbrev pub Verdicts : Type 0
Verdicts = List ((String × String) × Option Exc)

-- isinstance(exc, (ExecutionKeyAuthorityError, ExecutionConditionError))
abbrev pub is_refusal : Exc → Bool
is_refusal (permission_denied d) = true
is_refusal execution_condition_error = true
is_refusal _ = false

abbrev pub recorded : Option Exc → Result (Unit {0})
recorded none = ok tt
recorded (some e) = raise e

-- what the outcome leaves in the map
abbrev pub keep_verdict : String × String → Result (Unit {0}) → Verdicts → Verdicts
keep_verdict key (ok u) verdicts = insert key none verdicts
keep_verdict key (raise e) verdicts =
    if is_refusal e then insert key (some e) verdicts else verdicts

module _ (svc : Services) (site : Site) where
  unfoldable pub read_usable : String → String → Result (Unit {0})
  read_usable key bound = do
    owner ← assert_key_carries_authority svc site key bound
    assert_execution_key_evaluable svc site key

  unfoldable pub assert_usable : Verdicts → String → String → Result (Unit {0}) × Verdicts
  assert_usable verdicts key bound =
      if not site.settings.enable then (ok tt, verdicts) else elim (lookup (key, bound) verdicts) [
        | some verdict ↦ (recorded verdict, verdicts)
        | none ↦ (read_usable key bound, keep_verdict (key, bound) (read_usable key bound) verdicts)
      ]
