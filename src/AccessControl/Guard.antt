-- ===== src/AccessControl/Guard.antt =====
-- access_control/middleware.py: `ResourceGuardMiddleware.__call__` behind the authentication, over
-- the scopes that it guards (http and websocket). A denial is its status and the reason of its
-- audit line.
pub mod Doors
use tai_skeleton.Base.{
  Bool, true, false, ◌&&◌, ◌||◌, not, Option, none, some, List, [], ◌∷◌, String, Text, ◌==◌, nat_eq,
  string_eq, list_eq, elem, all, any, keep, is_empty, if◌then◌else◌, Result, ok, raise,
}
use tai_skeleton.AccessControl.Policy.{Services}
use tai_skeleton.AccessControl.Verifier.{Site, resolve_resource_ids}
use tai_skeleton.AccessControl.Policy.Scopes.{permits}
use tai_skeleton.AccessControl.Backend.{
  Conn, Provider, Refusal, TaiUser, Auth, guest, user, refused, authenticate,
}

pub data Deny : Type 0 where
  authentication_required resolve_error route_unconfigured scope_miss : Deny

-- The wrapped app runs, with the caller's facts bound if there is a caller.
pub data Answer : Type 0 where
  run_app : Option TaiUser → Answer
  deny : Deny → Answer
  auth_error : Refusal → Answer

-- set(resource_ids) == {public}
unfoldable pub is_only : String → List String → Bool
is_only public ids = not (is_empty ids) && all (λ rid. rid == public) ids

-- [rid for rid in resource_ids if rid != public]
unfoldable pub protected_ids : String → List String → List String
protected_ids public ids = keep (λ rid. not (rid == public)) ids

abbrev pub admits_unconfigured : Option TaiUser → Bool
admits_unconfigured none = false
admits_unconfigured (some u) = u.is_admin

unfoldable pub guard_ids : String → Option TaiUser → List String → Answer
guard_ids public caller ids =
    if is_empty ids
    then (if admits_unconfigured caller then run_app caller else deny route_unconfigured)
    else if is_only public ids
    then run_app caller
    else elim caller [
      | none ↦ deny authentication_required
      | some u ↦
          if permits u.scopes (protected_ids public ids) then run_app (some u) else deny scope_miss
    ]

unfoldable pub guard : Services → Site → Text → Option Text → Option TaiUser → Answer
guard svc site path method caller =
    if elem path site.settings.authenticated_always_allowed_paths
    then elim caller [ none ↦ deny authentication_required | some u ↦ run_app (some u) ]
    else elim (resolve_resource_ids svc site path method none) [
      | raise e ↦ deny resolve_error
      | ok ids ↦ guard_ids site.settings.public_resource_id caller ids
    ]

-- The HTTP edge: the authentication middleware, then the guard.
unfoldable pub http_edge : Services → Site → List Provider → Conn → Answer
http_edge svc site providers conn = elim (authenticate svc site providers conn) [
  | guest ↦ guard svc site conn.path conn.method none
  | user u ↦ guard svc site conn.path conn.method (some u)
  | refused r ↦ auth_error r
]
