-- ===== src/Authz/Check.antt =====
-- authz/check.py: the tool edge's decision. `fire` says that an execution identity is bound.
pub mod Inversion
pub mod Request
pub mod Edges
pub mod Fires
pub mod Conditions
use tai_skeleton.Base.{
  ℕ, Bool, true, false, ◌&&◌, ◌||◌, not, Option, none, some, List, [], ◌∷◌, String, Text, codes,
  ◌==◌, string_eq, is_empty, if◌then◌else◌, Denial, Exc, Result, ok, raise, permission_denied,
  malformed_path_error, value_error, template_error, template_not_found, token_free_error,
  authentication_error, no_identity, no_resource, disabled, no_policy, no_fingerprint,
  fingerprint_mismatch, owner_disabled, owner_no_policy, scope_miss, condition_rejected,
  condition_unrendered, condition_not_token_free, level_denied, read_fault, ◌>>=◌, ◌>>◌, raise_if,
  or_raise, require,
}
use tai_skeleton.App.RouteRegistry.{RouteMetadata}
use tai_skeleton.AccessControl.PathCanon.{canonicalize_path}
use tai_skeleton.AccessControl.RoleGate.{Decision}
use tai_skeleton.AccessControl.Policy.{
  Value, str, is_null, equals, Dict, get, AccessPolicy, JqContext, Services, has_condition,
  policy_is_empty, is_disabled, current_policy_version, get_policy_at, enforce, render_policy,
  effective_scopes,
}
use tai_skeleton.AccessControl.Policy.Scopes.{permits}
use tai_skeleton.AccessControl.RoleGrants.{role_level_decision_for_route}
use tai_skeleton.AccessControl.Verifier.{Site, is_always_public_prefix, resolve_resource_ids}
use tai_skeleton.AccessControl.Backend.{jq_context}
use tai_skeleton.AccessControl.Guard.{is_only, protected_ids}
use tai_skeleton.Authz.TokenFree.Grammar.{assert_token_free_evaluable}
use tai_skeleton.Authz.Path.{OperationMetadata, Arguments, synthesize_path, own_route}

-- authz/identity.py
pub record CallerIdentity : Type 0 where
  pub user_id : Option String
  pub is_internal : Bool
  pub effective_scopes : Option (List String)
  pub claims : Option Dict
  pub execution_key_fingerprint : Option String

abbrev pub denied {ℓ} : {A : Type ℓ} → Denial → Result A
denied d = raise (permission_denied d)

-- except Exception: deny
abbrev pub or_denied {ℓ} : {A : Type ℓ} → Result A → Result A
or_denied r = or_raise r (permission_denied read_fault)

abbrev pub claims_of : CallerIdentity → Dict
claims_of caller = elim caller.claims [ none ↦ [] | some claims ↦ claims ]

-- The `except` clauses of `_render_condition`: a `ValueError`, which a malformed path is too, or an
-- error of the template.
abbrev pub render_errors : Result String → Result String
render_errors (ok s) = ok s
render_errors (raise value_error) = denied condition_unrendered
render_errors (raise malformed_path_error) = denied condition_unrendered
render_errors (raise template_error) = denied condition_unrendered
render_errors (raise template_not_found) = denied condition_unrendered
render_errors (raise e) = raise e

abbrev pub token_free_errors : Result (Unit {0}) → Result (Unit {0})
token_free_errors (ok _) = ok tt
token_free_errors (raise token_free_error) = denied condition_not_token_free
token_free_errors (raise e) = raise e

-- the `except` clauses around the jq fences
abbrev pub fence_errors : Result (Unit {0}) → Result (Unit {0})
fence_errors (ok _) = ok tt
fence_errors (raise authentication_error) = denied condition_rejected
fence_errors (raise (permission_denied d)) = denied d
fence_errors (raise e) = denied read_fault

-- `operation_metadata.http_method or "POST"`
abbrev pub method_of : OperationMetadata → Text
method_of op = elim op.http_method [
  | none ↦ codes "POST"
  | some m ↦ if is_empty m then codes "POST" else m
]

module _ (svc : Services) (site : Site) where
  -- the fire's key must still carry the fingerprint that the record is bound to
  unfoldable pub assert_policy_matches_fingerprint : AccessPolicy → String → Result (Unit {0})
  assert_policy_matches_fingerprint policy bound =
      raise_if (not (equals (get policy.policy_data svc.fingerprint_claim) bound))
        (permission_denied fingerprint_mismatch)

  unfoldable pub assert_bound_key : Bool → CallerIdentity → AccessPolicy → Result (Unit {0})
  assert_bound_key fire caller policy =
      if fire
      then (do
        bound ← require caller.execution_key_fingerprint (permission_denied no_fingerprint)
        assert_policy_matches_fingerprint policy bound)
      else ok tt

  -- the owner's policy as it was read: an error, a disabled owner and a deleted one deny
  unfoldable pub live_owner : Result AccessPolicy → Result (Option AccessPolicy)
  live_owner found = do
    owner_policy ← or_denied found
    raise_if (is_disabled owner_policy) (permission_denied owner_disabled)
    raise_if (policy_is_empty owner_policy) (permission_denied owner_no_policy)
    ok (some owner_policy)

  unfoldable pub read_owner : Value → ℕ → Result (Option AccessPolicy)
  read_owner owner version =
      if is_null owner then ok none else live_owner (get_policy_at svc owner version)

  abbrev pub live_scopes : AccessPolicy → Option AccessPolicy → List String
  live_scopes policy none = policy.scopes
  live_scopes policy (some owner_policy) = effective_scopes policy.scopes owner_policy.scopes

  -- A fire's scopes are derived here; a request carries what its edge decided.
  unfoldable pub scopes_for :
      Bool → CallerIdentity → AccessPolicy → Option AccessPolicy → List String
  scopes_for fire caller policy owner_policy =
      if fire
      then live_scopes policy owner_policy
      else elim caller.effective_scopes [ none ↦ policy.scopes | some scopes ↦ scopes ]

  unfoldable pub scope_test : List String → List String → Result (Unit {0})
  scope_test ids scopes =
      if is_only site.settings.public_resource_id ids
      then ok tt
      else raise_if (not (permits scopes (protected_ids site.settings.public_resource_id ids)))
          (permission_denied scope_miss)

  -- rendering, the token-free assertion of a fire, and the evaluation
  unfoldable pub fence : Bool → JqContext → AccessPolicy → Bool → Result (Unit {0})
  fence fire context policy configured = do
    condition ← render_errors (render_policy svc policy)
    if fire && not (condition == "")
        then token_free_errors
            (assert_token_free_evaluable svc.compile_jq (codes svc.owner_claim) (codes condition))
        else ok tt
    enforce svc context condition configured

  unfoldable pub owner_fence :
      Bool → (AccessPolicy → JqContext) → Option AccessPolicy → Result (Unit {0})
  owner_fence fire context none = ok tt
  owner_fence fire context (some p) =
      if has_condition p then fence fire (context p) p true else ok tt

  unfoldable pub fences :
      Bool
      → String
      → Dict
      → Dict
      → Text
      → Text
      → List String
      → AccessPolicy
      → Option AccessPolicy
      → Result (Unit {0})
  fences fire user_id claims context method path scopes policy owner_policy = fence_errors (do
    fence fire (jq_context svc user_id claims context (some method) path scopes policy) policy
        (has_condition policy)
    owner_fence fire (λ p. jq_context svc user_id claims context (some method) path p.scopes p)
        owner_policy)

  unfoldable pub level_test :
      AccessPolicy → Option AccessPolicy → RouteMetadata → Text → ℕ → Result (Unit {0})
  level_test policy owner_policy route method version = do
    decision ←
        or_denied (role_level_decision_for_route svc policy owner_policy route method version)
    raise_if (not decision.0) (permission_denied level_denied)

  -- the terms behind the login surface, in their order
  unfoldable pub authorize_caller :
      CallerIdentity
      → String
      → Text
      → Text
      → RouteMetadata
      → Bool
      → ℕ
      → List String
      → Result (Unit {0})
  authorize_caller caller user_id path method route fire version ids = do
    policy ← or_denied (get_policy_at svc (str user_id) version)
    context ← or_denied (svc.live_context user_id)
    raise_if (is_disabled policy) (permission_denied disabled)
    raise_if (fire && policy_is_empty policy) (permission_denied no_policy)
    assert_bound_key fire caller policy
    owner_policy ← read_owner (get (claims_of caller) svc.owner_claim) version
    let scopes = scopes_for fire caller policy owner_policy
    scope_test ids scopes
    fences fire user_id (claims_of caller) context method path scopes policy owner_policy
    level_test policy owner_policy route method version

  unfoldable pub authorize_pinned_route :
      CallerIdentity → String → Text → Text → RouteMetadata → Bool → Result (Unit {0})
  authorize_pinned_route caller user_id path method route fire = do
    version ← or_denied (current_policy_version svc)
    ids ← or_denied (resolve_resource_ids svc site path none (some version))
    raise_if (is_empty ids) (permission_denied no_resource)
    canonical ← require (canonicalize_path path) malformed_path_error
    if is_always_public_prefix canonical site.settings
        then ok tt
        else authorize_caller caller user_id path method route fire version ids

  unfoldable pub check_external :
      CallerIdentity → OperationMetadata → Arguments → Bool → Result (Unit {0})
  check_external caller op arguments fire = do
    user_id ← require caller.user_id (permission_denied no_identity)
    path ← synthesize_path op arguments
    route ← own_route site.index op path (method_of op)
    authorize_pinned_route caller user_id path (method_of op) route fire

  unfoldable pub check : CallerIdentity → OperationMetadata → Arguments → Bool → Result (Unit {0})
  check caller op arguments fire =
      if not site.settings.enable
      then ok tt
      else if caller.is_internal
      then ok tt
      else check_external caller op arguments fire
