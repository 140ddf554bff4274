-- ===== src/AccessControl/RoleGrants/Fence.antt =====
-- Who passes the per-tag level decision.
use tai_skeleton.Base.{
  ℕ, true, false, ◌≡◌, ◌↔◌, refl, Option, none, Text, arith, Result, ok, raise, document_not_found,
}
use tai_skeleton.App.RouteRegistry.{RouteMetadata, is_fenced}
use tai_skeleton.AccessControl.RoleGate.{RoleGrants, DenialCause, grant_map_admits}
use tai_skeleton.AccessControl.Policy.{is_null, get, AccessPolicy, Services}
use tai_skeleton.AccessControl.RoleGrants.{
  governing, is_admin, with_grants, role_level_decision_for_route,
}

-- A fenced or secret route is decided by the caller's own policy alone: the admin passes, every
-- other caller is a hard-fence denial, also the key that an admin owns.
pub fence_is_own_admin :
    (svc : Services) (policy : AccessPolicy) (owner_policy : Option AccessPolicy)
    (meta : RouteMetadata) (method : Text) (version : ℕ) (cause : Option DenialCause)
    → is_fenced meta.action ≡ true
    → (role_level_decision_for_route svc policy owner_policy meta method version ≡ ok (true, cause))
      ↔ ((is_admin svc policy ≡ true) × (cause ≡ none))
unfolding role_level_decision_for_route
fence_is_own_admin svc policy owner_policy meta method version cause h = ground arith

with_grants_iff :
    (meta : RouteMetadata) (method : Text) (r : Result RoleGrants)
    → (with_grants meta method r ≡ ok (true, none)) ↔ (
        (grants : RoleGrants) × (r ≡ ok grants)
        × (grant_map_admits meta method grants ≡ ok (true, none)))
with_grants_iff meta method (ok g) = (λ h. (g, refl, h), λ (x, e, h). cc)
with_grants_iff meta method (raise document_not_found) = (λ h. ground arith, λ (x, e, h). cc)
with_grants_iff meta method (raise _) = (λ h. ground arith, λ (x, e, h). cc)

-- On a grantable route under a governing policy that names a role, and is no admin's, the decision
-- is the one of that role's current grants; a role that no longer exists admits nothing.
level_by_role :
    (svc : Services) (policy : AccessPolicy) (owner_policy : Option AccessPolicy)
    (meta : RouteMetadata) (method : Text) (version : ℕ)
    → is_fenced meta.action ≡ false
    → is_admin svc (governing policy owner_policy) ≡ false
    → is_null (get (governing policy owner_policy).policy_data "role") ≡ false
    → (role_level_decision_for_route svc policy owner_policy meta method version ≡ ok (true, none))
      ↔ ((grants : RoleGrants) × (svc.role_grants
              (get (governing policy owner_policy).policy_data "role")
              version
            ≡ ok grants)
          × (grant_map_admits meta method grants ≡ ok (true, none)))
unfolding role_level_decision_for_route
level_by_role svc policy owner_policy meta method version h a r =
    rw (h, a, r)
      (with_grants_iff meta method
        (svc.role_grants (get (governing policy owner_policy).policy_data "role") version))
