-- ===== src/Authz/Check/Conditions/Dispatch.antt =====
-- The whole decision on a fire's dispatch, for a caller that may present other identity claims.
use tai_skeleton.Base.{
  ℕ, Bool, true, false, not, ◌≡◌, inl, inr, refl, sym, ap, ◌∙◌, none, some, List, String, Text,
  string_eq, if◌then◌else◌, Bool-cases, Result, ok, permission_denied, >>=-eq-ok, raise_if, require,
  is_empty, no_identity, no_resource, malformed_path_error, disabled, no_policy,
}
use tai_skeleton.AccessControl.Policy.{
  Dict, get, Services, str, is_disabled, policy_is_empty, get_policy_at, current_policy_version,
}
use tai_skeleton.AccessControl.PathCanon.{canonicalize_path}
use tai_skeleton.AccessControl.Verifier.{Site, is_always_public_prefix, resolve_resource_ids}
use tai_skeleton.App.RouteRegistry.{RouteMetadata}
use tai_skeleton.Authz.Path.{OperationMetadata, Arguments, synthesize_path, own_route}
use tai_skeleton.Authz.Check.{
  CallerIdentity, claims_of, or_denied, assert_bound_key, read_owner, scopes_for, scope_test,
  method_of, authorize_caller, authorize_pinned_route, check_external, check, fences,
}
use tai_skeleton.Authz.Check.Conditions.{RunsJq, fences-other_claims}

module _ (svc : Services) (site : Site) (engine : RunsJq svc) where
  authorize_caller-other_claims :
      (caller : CallerIdentity) (claims : Dict) (user_id : String) (path method : Text)
      (route : RouteMetadata) (version : ℕ) (ids : List String)
      → get (claims_of caller) svc.owner_claim ≡ get claims svc.owner_claim
      → authorize_caller svc site caller user_id path method route true version ids ≡ ok tt
      → authorize_caller svc site
          (record caller { claims = some claims })
          user_id
          path
          method
          route
          true
          version
          ids
        ≡ ok tt
  unfolding authorize_caller assert_bound_key scopes_for
  authorize_caller-other_claims caller claims user_id path method route version ids same h =
      let (policy, e1, h1) = >>=-eq-ok (or_denied (get_policy_at svc (str user_id) version)) _ h in
      let (context, e2, h2) = >>=-eq-ok (or_denied (svc.live_context user_id)) _ h1 in
      let (_, e3, h3) =
        >>=-eq-ok (raise_if (is_disabled policy) (permission_denied disabled)) _ h2 in
      let (_, e4, h4) =
        >>=-eq-ok (raise_if (policy_is_empty policy) (permission_denied no_policy)) _ h3 in
      let (_, e5, h5) = >>=-eq-ok (assert_bound_key svc site true caller policy) _ h4 in
      let (owner, e6, h6) =
        >>=-eq-ok (read_owner svc site (get (claims_of caller) svc.owner_claim) version) _ h5 in
      let scopes = scopes_for svc site true caller policy owner in
      let (_, e7, h7) = >>=-eq-ok (scope_test svc site ids scopes) _ h6 in
      let (_, e8, h8) =
        >>=-eq-ok
          (fences svc site true user_id (claims_of caller) context method path scopes policy owner)
          _ h7 in
      let owner_read = ap (λ v. read_owner svc site v version) (sym same) ∙ e6 in
      let fences' =
        fences-other_claims svc site engine user_id (claims_of caller) claims context method path
          scopes policy owner true same e8 in
      rw (e1, e2, e3, e4, e5, owner_read, e7, fences') h8

  authorize_pinned_route-other_claims :
      (caller : CallerIdentity) (claims : Dict) (user_id : String) (path method : Text)
      (route : RouteMetadata)
      → get (claims_of caller) svc.owner_claim ≡ get claims svc.owner_claim
      → authorize_pinned_route svc site caller user_id path method route true ≡ ok tt
      → authorize_pinned_route svc site
          (record caller { claims = some claims })
          user_id
          path
          method
          route
          true
        ≡ ok tt
  unfolding authorize_pinned_route
  authorize_pinned_route-other_claims caller claims user_id path method route same h =
      let (version, e1, h1) = >>=-eq-ok (or_denied (current_policy_version svc)) _ h in
      let (ids, e2, h2) =
        >>=-eq-ok (or_denied (resolve_resource_ids svc site path none (some version))) _ h1 in
      let (_, e3, h3) = >>=-eq-ok (raise_if (is_empty ids) (permission_denied no_resource)) _ h2 in
      let (canonical, e4, h4) =
        >>=-eq-ok (require (canonicalize_path path) malformed_path_error) _ h3 in
      rw (e1, e2, e3, e4) (behind_login canonical version ids h4)
    where
      login : Text → CallerIdentity → ℕ → List String → Result (Unit {0})
      login canonical who version ids =
          if is_always_public_prefix canonical site.settings
          then ok tt
          else authorize_caller svc site who user_id path method route true version ids

      behind_login :
          (canonical : Text) (version : ℕ) (ids : List String)
          → login canonical caller version ids ≡ ok tt
          → login canonical (record caller { claims = some claims }) version ids ≡ ok tt
      behind_login canonical version ids k =
          elim (Bool-cases (is_always_public_prefix canonical site.settings)) [
            | inl e ↦ rw e refl
            | inr e ↦ rw e (
                authorize_caller-other_claims caller claims user_id path method route version ids
                  same (rw e at k))
          ]

  check_external-other_claims :
      (caller : CallerIdentity) (claims : Dict) (op : OperationMetadata) (arguments : Arguments)
      → get (claims_of caller) svc.owner_claim ≡ get claims svc.owner_claim
      → check_external svc site caller op arguments true ≡ ok tt
      → check_external svc site (record caller { claims = some claims }) op arguments true ≡ ok tt
  unfolding check_external
  check_external-other_claims caller claims op arguments same h =
      let (user_id, e0, h0) =
        >>=-eq-ok (require caller.user_id (permission_denied no_identity)) _ h in
      let (path, e1, h1) = >>=-eq-ok (synthesize_path op arguments) _ h0 in
      let (route, e2, h2) = >>=-eq-ok (own_route site.index op path (method_of op)) _ h1 in
      rw (e0, e1, e2)
        (authorize_pinned_route-other_claims caller claims user_id path (method_of op) route same
          h2)

  -- Under an engine that runs jq, a dispatch that a fire is allowed is allowed to it under any identity
  -- claims that name the same owner: the decision rests on no other claim.
  pub check-other_claims :
      (caller : CallerIdentity) (claims : Dict) (op : OperationMetadata) (arguments : Arguments)
      → get (claims_of caller) svc.owner_claim ≡ get claims svc.owner_claim
      → check svc site caller op arguments true ≡ ok tt
      → check svc site (record caller { claims = some claims }) op arguments true ≡ ok tt
  unfolding check
  check-other_claims caller claims op arguments same h =
      third_branch site.settings.enable caller.is_internal _ _
        (check_external-other_claims caller claims op arguments same) h
    where
      third_branch :
          (on internal : Bool) (x y : Result (Unit {0}))
          → (x ≡ ok tt → y ≡ ok tt)
          → (if not on then ok tt else if internal then ok tt else x) ≡ ok tt
          → (if not on then ok tt else if internal then ok tt else y) ≡ ok tt
      third_branch false internal x y f k = refl
      third_branch true true x y f k = refl
      third_branch true false x y f k = f k
