-- ===== src/AccessControl/Startup.antt =====
-- access_control/startup.py: the audits of the registered routes that a boot, or a reload, must pass.
-- A failed audit is a `RuntimeError`; the routes are what the registry answers.
pub mod Fences
pub mod Shell
use tai_skeleton.Base.{
  Bool, true, false, ◌&&◌, ◌||◌, not, Option, none, some, List, [], ◌∷◌, ◌++◌, String, Text, codes,
  ◌==◌, nat_eq, string_eq, list_eq, elem, any, is_empty, starts_with, if◌then◌else◌, Result, ok,
  raise, runtime_error, malformed_path_error, ◌>>=◌, ◌>>◌, raise_if, require,
}
use tai_skeleton.App.RouteRegistry.{RouteMetadata, is_fenced, is_action}
use tai_skeleton.AccessControl.PathCanon.{canonicalize_path, under_prefix}
use tai_skeleton.AccessControl.RoleGate.{RouteIndex, resolve_route_meta, build_index}
use tai_skeleton.AccessControl.Verifier.{
  Settings, under_control_plane, registered_reserved_get_paths,
}

unfoldable pub under_prefixes : Text → List Text → Bool
under_prefixes path prefixes = any (λ p. path == p || starts_with path (p ++ codes "/")) prefixes

unfoldable pub check_always_public_routes : Settings → List RouteMetadata → Result (Unit {0})
check_always_public_routes s metas =
    raise_if (any (λ m. under_prefixes m.path s.always_public_path_prefixes && m.authed) metas)
      runtime_error

-- What a registered route is to the public shell.
pub data Bucket : Type 0 where
  out_of_reach acknowledged_open acknowledged_authed visible invisible unacknowledged : Bucket

abbrev pub is_acknowledged_authed : Bucket → Bool
is_acknowledged_authed acknowledged_authed = true
is_acknowledged_authed _ = false

abbrev pub is_invisible : Bucket → Bool
is_invisible invisible = true
is_invisible _ = false

abbrev pub is_unacknowledged : Bucket → Bool
is_unacknowledged unacknowledged = true
is_unacknowledged _ = false

-- a gated route off the control plane: the shell skips it only if it is in the derived set
unfoldable pub visibility : List Text → Text → Result Bucket
visibility derived path = if elem b'{' path then ok invisible else (do
  canonical ← require (canonicalize_path path) malformed_path_error
  ok (if elem canonical derived then visible else invisible))

unfoldable pub bucket : Settings → List Text → RouteMetadata → Result Bucket
bucket s derived m =
    if not (elem (codes "GET") m.methods)
    then ok out_of_reach
    else if under_control_plane m.path
    then ok out_of_reach
    else if elem m.path s.acknowledged_public_routes
    then ok (if m.authed then acknowledged_authed else acknowledged_open)
    else if m.authed
    then visibility derived m.path
    else ok unacknowledged

unfoldable pub buckets : Settings → List Text → List RouteMetadata → Result (List Bucket)
buckets s derived [] = ok []
buckets s derived (m ∷ ms) = do b ← bucket s derived m; bs ← buckets s derived ms; ok (b ∷ bs)

-- The probes of the control plane at its end hold by the definition of the prefix test.
unfoldable pub check_spa_shell_public : Settings → List RouteMetadata → Result (Unit {0})
check_spa_shell_public s metas = do
  derived ← registered_reserved_get_paths metas
  bs ← buckets s derived metas
  raise_if (any is_acknowledged_authed bs) runtime_error
  raise_if (any is_invisible bs) runtime_error
  raise_if (any is_unacknowledged bs) runtime_error

abbrev pub same_flag : Bool → Bool → Bool
same_flag true b = b
same_flag false b = not b

-- `is`, for entries of one registry, which are told apart by their fields
unfoldable pub same_meta : RouteMetadata → RouteMetadata → Bool
same_meta a b =
    a.path == b.path
    && (a.methods == b.methods
        && (a.tags == b.tags && (same_flag a.authed b.authed && is_action a.action b.action)))

abbrev pub is_this : RouteMetadata → Option RouteMetadata → Bool
is_this m none = false
is_this m (some found) = same_meta found m

unfoldable pub resolves_back : RouteIndex → RouteMetadata → Bool
resolves_back index m =
    not (any (λ method. not (is_this m (resolve_route_meta index m.path (some method)))) m.methods)

-- over the index that is rebuilt first
unfoldable pub check_fenced_routes_resolvable : List RouteMetadata → Result (Unit {0})
check_fenced_routes_resolvable metas = do
  index ← build_index metas
  raise_if (any (λ m. is_fenced m.action && not (resolves_back index m)) metas) runtime_error
