-- ===== src/Examples/Boot.antt =====
-- The audits of a boot on the small site.
use mathlib.Core.List.{Memᴰ}
use tai_skeleton.Base.{
  true, false, ◌≡◌, inr, refl, some, [], codes, nat_eq, string_eq, list_eq, pair_eq, list_beq,
  pair_beq, any, elem, lookup, insert, set_add, starts_with, upper, ok,
}
use tai_skeleton.App.RouteRegistry.{is_action, method_to_action}
use tai_skeleton.App.RouteRegistry.Audit.{IsServed}
use tai_skeleton.AccessControl.PathCanon.{
  is_hex, has_residual_escape, is_bad_byte, split_slash, join_slash, resolve_segment,
  resolve_segments, canonicalize_path, under_prefix,
}
use tai_skeleton.AccessControl.RoleGate.{
  served_methods, insert_methods, add_route, build_from, build_index, find_route,
  resolve_route_meta,
}
use tai_skeleton.AccessControl.Verifier.{
  under_control_plane, registered_reserved_get_paths, add_acknowledged, add_spa_shell,
}
use tai_skeleton.AccessControl.Startup.{
  visibility, bucket, buckets, check_spa_shell_public, same_meta, resolves_back,
  check_fenced_routes_resolvable,
}
use tai_skeleton.AccessControl.Startup.Fences.{audited_fence_admin_only}
use tai_skeleton.AccessControl.Startup.Shell.{audited_route_not_shell}
use tai_skeleton.Examples.Data.{
  svc, site, page_site, routes, page_routes, docs_route, admin_route, reports_route, providers,
  admin_request, admin_user,
}
use tai_skeleton.Examples.Edges.{admin_request_runs}
use tai_skeleton.Examples.Paths.{routes_indexed}

fences_audited : check_fenced_routes_resolvable routes ≡ ok tt
unfolding check_fenced_routes_resolvable build_index build_from canonicalize_path
    has_residual_escape is_hex is_bad_byte any split_slash resolve_segments resolve_segment list_beq
    join_slash add_route elem insert_methods insert pair_beq served_methods resolves_back
    resolve_route_meta find_route lookup same_meta is_action
fences_audited = refl

post_is_served : elem (codes "POST") admin_route.methods ≡ true
unfolding elem list_beq
post_is_served = refl

audited_fence_admin_only_example : admin_user.is_admin ≡ true
audited_fence_admin_only_example =
    audited_fence_admin_only routes svc site providers admin_request admin_user admin_route
      (codes "POST") routes_indexed fences_audited (Memᴰ.tail (Memᴰ.head refl)) refl post_is_served
      refl refl admin_request_runs

shell_audited : check_spa_shell_public page_site.settings page_routes ≡ ok tt
unfolding check_spa_shell_public registered_reserved_get_paths buckets bucket visibility
    under_control_plane under_prefix starts_with elem list_beq canonicalize_path has_residual_escape
    is_hex is_bad_byte any split_slash resolve_segments resolve_segment join_slash set_add
shell_audited = refl

reports_reserved : registered_reserved_get_paths page_routes ≡ ok page_site.reserved_get_paths
unfolding registered_reserved_get_paths under_control_plane under_prefix starts_with elem list_beq
    canonicalize_path has_residual_escape is_hex is_bad_byte any split_slash resolve_segments
    resolve_segment join_slash set_add
reports_reserved = refl

reports_serves_get : elem (codes "GET") reports_route.methods ≡ true
unfolding elem list_beq
reports_serves_get = refl

reports_off_control_plane : under_control_plane reports_route.path ≡ false
unfolding under_control_plane under_prefix starts_with list_beq
reports_off_control_plane = refl

reports_canonical : canonicalize_path reports_route.path ≡ some reports_route.path
unfolding canonicalize_path has_residual_escape is_hex is_bad_byte any split_slash resolve_segments
    resolve_segment list_beq join_slash
reports_canonical = refl

audited_route_not_shell_example :
    add_spa_shell page_site reports_route.path
      (some (codes "GET"))
      (add_acknowledged page_site reports_route.path (some (codes "GET")) [])
    ≡ []
audited_route_not_shell_example =
    audited_route_not_shell page_site page_routes reports_route (some (codes "GET")) []
      shell_audited reports_reserved (Memᴰ.head refl) reports_serves_get refl
      reports_off_control_plane reports_canonical

docs-IsServed : IsServed docs_route
unfolding method_to_action elem upper list_beq
docs-IsServed =
    (refl, record { fence_is_authed = inr refl; class_is_derived = inr (inr (refl, tt)) })
