-- ===== src/AccessControl/RoleGrants.antt =====
-- access_control/role_grants.py: the live per-tag level decision. `ROLE_POINTER_KEY` is "role".
pub mod Fence
use tai_skeleton.Base.{
  ℕ, Bool, true, false, Option, none, some, Text, if◌then◌else◌, Exc, Result, ok, raise,
  document_not_found, ◌>>=◌,
}
use tai_skeleton.App.RouteRegistry.{RouteMetadata, is_fenced}
use tai_skeleton.AccessControl.RoleGate.{
  RoleGrants, Decision, hard_fence, level_miss, grant_map_admits, RouteIndex, resolve_route_meta,
}
use tai_skeleton.AccessControl.Policy.{
  Value, null, is_null, get, AccessPolicy, Services, is_admin_policy,
}

-- the caller's own policy, or the owner's
abbrev pub governing : AccessPolicy → Option AccessPolicy → AccessPolicy
governing policy none = policy
governing policy (some owner_policy) = owner_policy

-- the `try` around the grant lookup
abbrev pub with_grants : RouteMetadata → Text → Result RoleGrants → Result Decision
with_grants meta method (ok grants) = grant_map_admits meta method grants
with_grants meta method (raise document_not_found) = ok (false, some level_miss)
with_grants meta method (raise e) = raise e

module _ (svc : Services) where
  abbrev pub is_admin : AccessPolicy → Bool
  is_admin policy = is_admin_policy policy (get policy.policy_data svc.owner_claim)

  unfoldable pub role_level_decision_for_route :
      AccessPolicy → Option AccessPolicy → RouteMetadata → Text → ℕ → Result Decision
  role_level_decision_for_route policy owner_policy meta method version =
      if is_fenced meta.action
      then (if is_admin policy then ok (true, none) else ok (false, some hard_fence))
      else if is_admin (governing policy owner_policy)
      then ok (true, none)
      else let role_name = get (governing policy owner_policy).policy_data "role" in
        if is_null role_name
        then ok (true, none)
        else with_grants meta method (svc.role_grants role_name version)

  unfoldable pub role_level_decision :
      RouteIndex → AccessPolicy → Option AccessPolicy → Text → Option Text → ℕ → Result Decision
  role_level_decision index policy owner_policy path none version = ok (true, none)
  role_level_decision index policy owner_policy path (some method) version =
      elim (resolve_route_meta index path (some method)) [
        | none ↦ ok (true, none)
        | some meta ↦ role_level_decision_for_route policy owner_policy meta method version
      ]
