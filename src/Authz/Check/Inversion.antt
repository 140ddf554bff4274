-- ===== src/Authz/Check/Inversion.antt =====
-- What has passed when the tool edge allows.
use tai_skeleton.Base.{
  ℕ, Bool, true, false, ◌&&◌, not, ◌≡◌, ◌⊎◌, inl, inr, sym, Option, none, some, List, String, Text,
  arith, is_empty, Result, ok, permission_denied, level_denied, >>=-eq-ok, raise_if-eq-ok,
  or_raise-eq-ok, require-eq-ok, Bool-cases, ◌∙◌, if◌then◌else◌,
}
use tai_skeleton.App.RouteRegistry.{RouteMetadata}
use tai_skeleton.AccessControl.PathCanon.{canonicalize_path}
use tai_skeleton.AccessControl.RoleGate.{Decision}
use tai_skeleton.AccessControl.Policy.{
  str, Dict, get, AccessPolicy, Services, policy_is_empty, is_disabled, current_policy_version,
  get_policy_at,
}
use tai_skeleton.AccessControl.RoleGrants.{role_level_decision_for_route}
use tai_skeleton.AccessControl.Verifier.{Site, is_always_public_prefix, resolve_resource_ids}
use tai_skeleton.Authz.Path.{OperationMetadata, Arguments, synthesize_path, own_route}
use tai_skeleton.Authz.Check.{
  CallerIdentity, claims_of, assert_bound_key, read_owner, scopes_for, scope_test, fences,
  level_test, authorize_caller, authorize_pinned_route, method_of, check_external, check,
}

module _ (svc : Services) (site : Site) (caller : CallerIdentity) (user_id : String)
    (path method : Text) (route : RouteMetadata) (fire : Bool) where
  -- The terms that the caller passed, with what was read for them.
  pub record Passed (version : ℕ) (ids : List String) : Type 0 where
    pub policy : AccessPolicy
    pub owner_policy : Option AccessPolicy
    pub context : Dict
    pub cause : Decision
    pub policy_read : get_policy_at svc (str user_id) version ≡ ok policy
    pub context_read : svc.live_context user_id ≡ ok context
    pub not_disabled : is_disabled policy ≡ false
    pub fire_has_policy : fire && policy_is_empty policy ≡ false
    pub key_bound : assert_bound_key svc site fire caller policy ≡ ok tt
    pub owner_read :
        read_owner svc site (get (claims_of caller) svc.owner_claim) version ≡ ok owner_policy
    pub in_scope :
        scope_test svc site ids (scopes_for svc site fire caller policy owner_policy) ≡ ok tt
    pub fenced :
        fences svc site fire user_id
          (claims_of caller)
          context
          method
          path
          (scopes_for svc site fire caller policy owner_policy)
          policy
          owner_policy
        ≡ ok tt
    pub level_read :
        role_level_decision_for_route svc policy owner_policy route method version ≡ ok cause
    pub level_allows : cause.0 ≡ true

  unit_ok : {u : Unit {0}} (r : Result (Unit {0})) → r ≡ ok u → r ≡ ok tt
  unit_ok r h = h

  authorize_caller-Passed :
      (version : ℕ) (ids : List String)
      → authorize_caller svc site caller user_id path method route fire version ids ≡ ok tt
      → Passed version ids
  unfolding authorize_caller level_test
  authorize_caller-Passed version ids h =
      let (policy, e1, h1) = >>=-eq-ok _ _ h in
      let (context, e2, h2) = >>=-eq-ok _ _ h1 in
      let (_, e3, h3) = >>=-eq-ok _ _ h2 in
      let (_, e4, h4) = >>=-eq-ok _ _ h3 in
      let (_, e5, h5) = >>=-eq-ok _ _ h4 in
      let (owner_policy, e6, h6) = >>=-eq-ok _ _ h5 in
      let (_, e7, h7) = >>=-eq-ok _ _ h6 in
      let (_, e8, h8) = >>=-eq-ok _ _ h7 in
      let (cause, e9, h9) = >>=-eq-ok _ _ h8 in
      record {
        policy = policy;
        owner_policy = owner_policy;
        context = context;
        cause = cause;
        policy_read = or_raise-eq-ok _ _ e1;
        context_read = or_raise-eq-ok _ _ e2;
        not_disabled = raise_if-eq-ok _ _ e3;
        fire_has_policy = raise_if-eq-ok _ _ e4;
        key_bound = e5;
        owner_read = e6;
        in_scope = e7;
        fenced = e8;
        level_read = or_raise-eq-ok _ _ e9;
        level_allows =
            ground (arith, raise_if-eq-ok (not cause.0) (permission_denied level_denied) h9);
      }

  -- What an allow over a pinned route rests on.
  pub record Allowed : Type 0 where
    pub version : ℕ
    pub ids : List String
    pub canonical : Text
    pub version_read : current_policy_version svc ≡ ok version
    pub ids_read : resolve_resource_ids svc site path none (some version) ≡ ok ids
    pub mapped : is_empty ids ≡ false
    pub well_formed : canonicalize_path path ≡ some canonical
    pub decided :
        (is_always_public_prefix canonical site.settings ≡ true)
        ⊎ ((is_always_public_prefix canonical site.settings ≡ false) × Passed version ids)

  pub authorize_pinned_route_allowed :
      authorize_pinned_route svc site caller user_id path method route fire ≡ ok tt → Allowed
  unfolding authorize_pinned_route
  authorize_pinned_route_allowed h =
      let (version, e1, h1) = >>=-eq-ok _ _ h in
      let (ids, e2, h2) = >>=-eq-ok _ _ h1 in
      let (_, e3, h3) = >>=-eq-ok _ _ h2 in
      let (canonical, e4, h4) = >>=-eq-ok _ _ h3 in
      record {
        version = version;
        ids = ids;
        canonical = canonical;
        version_read = or_raise-eq-ok _ _ e1;
        ids_read = or_raise-eq-ok _ _ e2;
        mapped = raise_if-eq-ok _ _ e3;
        well_formed = require-eq-ok _ _ e4;
        decided = elim (Bool-cases (is_always_public_prefix canonical site.settings)) [
          | inl e ↦ inl e
          | inr e ↦ inr (e, authorize_caller-Passed version ids (rw e at h4))
        ];
      }

-- What a dispatch has been pinned to when an external caller is allowed.
pub record Dispatched (svc : Services) (site : Site) (caller : CallerIdentity)
    (op : OperationMetadata) (arguments : Arguments) (fire : Bool) : Type 0 where
  pub user_id : String
  pub path : Text
  pub route : RouteMetadata
  pub identified : caller.user_id ≡ some user_id
  pub synthesized : synthesize_path op arguments ≡ ok path
  pub owned : own_route site.index op path (method_of op) ≡ ok route
  pub authorized :
      authorize_pinned_route svc site caller user_id path (method_of op) route fire ≡ ok tt

second_branch {ℓ} :
    {A : Type ℓ} (a b : Bool) (x y : A)
    → a ≡ true
    → b ≡ false
    → (if not a then x else if b then x else y) ≡ y
second_branch a b x y h k = ground arith

check-external :
    (svc : Services) (site : Site) (caller : CallerIdentity) (op : OperationMetadata)
    (arguments : Arguments) (fire : Bool)
    → site.settings.enable ≡ true
    → caller.is_internal ≡ false
    → check svc site caller op arguments fire ≡ check_external svc site caller op arguments fire
unfolding check
check-external svc site caller op arguments fire on external =
    second_branch site.settings.enable caller.is_internal (ok tt) _ on external

pub check-Dispatched :
    (svc : Services) (site : Site) (caller : CallerIdentity) (op : OperationMetadata)
    (arguments : Arguments) (fire : Bool)
    → site.settings.enable ≡ true
    → caller.is_internal ≡ false
    → check svc site caller op arguments fire ≡ ok tt
    → Dispatched svc site caller op arguments fire
unfolding check_external
check-Dispatched svc site caller op arguments fire on external h =
    let inner : check_external svc site caller op arguments fire ≡ ok tt =
      sym (check-external svc site caller op arguments fire on external) ∙ h in
    let (user_id, e0, h0) = >>=-eq-ok _ _ inner in
    let (path, e1, h1) = >>=-eq-ok _ _ h0 in
    let (route, e2, h2) = >>=-eq-ok _ _ h1 in
    record {
      user_id = user_id;
      path = path;
      route = route;
      identified = require-eq-ok _ _ e0;
      synthesized = e1;
      owned = e2;
      authorized = h2;
    }
