-- ===== src/Authz/Check/Edges.antt =====
-- The tool edge is never easier than the route.
use tai_skeleton.Base.{
  ℕ, true, false, ◌≡◌, inl, inr, refl, ap, sym, ◌∙◌, Option, none, some, List, String, Text,
  is_empty, ok, ok-injective, some-eq_lem, Option-cases, nat_eq, string_eq, list_eq,
}
use tai_skeleton.App.RouteRegistry.{RouteMetadata}
use tai_skeleton.AccessControl.PathCanon.{canonicalize_path}
use tai_skeleton.AccessControl.RoleGate.{RouteIndex, resolve_route_meta}
use tai_skeleton.AccessControl.Policy.{str, get, Services, current_policy_version}
use tai_skeleton.AccessControl.RoleGrants.{role_level_decision, role_level_decision_for_route}
use tai_skeleton.AccessControl.Verifier.{
  Site, is_always_public_prefix, resolve_canonical, resolve_resource_ids,
}
use tai_skeleton.AccessControl.Verifier.Tiers.{resolve_resource_ids-method}
use tai_skeleton.AccessControl.Backend.{
  Conn, Provider, AccessToken, TaiUser, Standing, standing, enforce_conditions, level_pass, user_of,
  get_access_token,
}
use tai_skeleton.AccessControl.Backend.Admission.{standing-Stands}
use tai_skeleton.AccessControl.Guard.{run_app, http_edge}
use tai_skeleton.Authz.Path.{OperationMetadata, Arguments, synthesize_path, own_route}
use tai_skeleton.Authz.Check.{scopes_for, authorize_pinned_route, method_of, check}
use tai_skeleton.Authz.Check.Inversion.{
  Passed, check-Dispatched, Allowed, authorize_pinned_route_allowed,
}
use tai_skeleton.Authz.Path.Segments.{own_route-Pinned}
use tai_skeleton.AccessControl.Validation.Entries.{IsApart}
use tai_skeleton.Authz.Check.Request.{
  bound_caller, fences-request, get_policy-at, read_owner-standing, http_edge-login, guard-in_scope,
  http_edge-admitted, is_always_public_path-login,
}

-- One version is read for a request: the ids that it resolves to are those of the tool edge.
resolve_resource_ids-version :
    (svc : Services) (site : Site) (path : Text) (v : ℕ)
    → current_policy_version svc ≡ ok v
    → resolve_resource_ids svc site path none none
      ≡ resolve_resource_ids svc site path none (some v)
unfolding resolve_resource_ids resolve_canonical
resolve_resource_ids-version svc site path v e = elim (Option-cases (canonicalize_path path)) [
  | inl bad ↦ rw (bad, resolve_resource_ids) refl
  | inr (c, canon) ↦ rw (canon, resolve_resource_ids) (rw e refl)
]

level_pass-route :
    (svc : Services) (index : RouteIndex) (s : Standing) (path method : Text) (v : ℕ)
    (route : RouteMetadata)
    → current_policy_version svc ≡ ok v
    → resolve_route_meta index path (some method) ≡ some route
    → level_pass svc index s path (some method)
      ≡ role_level_decision_for_route svc s.policy s.owner_policy route method v
unfolding level_pass role_level_decision
level_pass-route svc index s path method v route e r = rw e (rw (r, role_level_decision) refl)

module _ (svc : Services) (site : Site) (providers : List Provider) (conn : Conn)
    (token : AccessToken) (s : Standing) (method : Text) (route : RouteMetadata) where
  -- The terms that the caller passed at the tool edge, read in the caller's standing.
  Passed-http_edge :
      (v : ℕ) (ids : List String) (c : Text)
      → conn.method ≡ some method
      → get_access_token svc providers conn ≡ ok (some token)
      → standing svc token ≡ ok s
      → resolve_route_meta site.index conn.path (some method) ≡ some route
      → canonicalize_path conn.path ≡ some c
      → is_always_public_prefix c site.settings ≡ false
      → current_policy_version svc ≡ ok v
      → resolve_resource_ids svc site conn.path none (some v) ≡ ok ids
      → is_empty ids ≡ false
      → Passed svc site (bound_caller token s) token.client_id conn.path method route false v ids
      → http_edge svc site providers conn ≡ run_app (some (user_of svc token s))
  unfolding scopes_for
  Passed-http_edge v ids c em et es er canon closed ev ei ne p =
      let stands = standing-Stands svc token s es in
      let pol : p.policy ≡ s.policy =
        ok-injective
          (sym p.policy_read ∙ sym (get_policy-at svc (str token.client_id) v ev) ∙ stands.read) in
      let own : p.owner_policy ≡ s.owner_policy =
        read_owner-standing svc site s.policy (get token.claims svc.owner_claim) v p.owner_policy
          (s.owner_policy, s.scopes) ev p.owner_read stands.owned in
      let ctx : p.context ≡ s.context = ok-injective (sym p.context_read ∙ stands.context_read) in
      let conditions : enforce_conditions svc token.client_id token.claims conn.method conn.path s
          ≡ ok tt =
        rw em (
          fences-request svc site token.client_id token.claims method conn.path s
            (rw (pol, own, ctx) at p.fenced)) in
      let level : level_pass svc site.index s conn.path conn.method ≡ ok (true, p.cause.1) = rw em (
        level_pass-route svc site.index s conn.path method v route ev er
        ∙ (rw (pol, own) at p.level_read)
        ∙ ap (λ b. ok (b, p.cause.1)) p.level_allows) in
      let ids_here =
        resolve_resource_ids-method svc site conn.path conn.method none ids
          (resolve_resource_ids-version svc site conn.path v ev ∙ ei) ne in
      http_edge-admitted svc site providers conn token s p.cause.1
        (is_always_public_path-login site conn.path c canon ∙ closed) et es conditions level
      ∙ guard-in_scope svc site conn.path conn.method (user_of svc token s) ids ids_here ne
          p.in_scope

-- An allow at the tool edge, over the route that the operation is pinned to, is an admission at the
-- HTTP edge.
allowed_as_http :
    (svc : Services) (site : Site) (providers : List Provider) (conn : Conn) (token : AccessToken)
    (s : Standing) (method : Text) (route : RouteMetadata)
    → IsApart site.settings
    → conn.method ≡ some method
    → get_access_token svc providers conn ≡ ok (some token)
    → standing svc token ≡ ok s
    → resolve_route_meta site.index conn.path (some method) ≡ some route
    → Allowed svc site (bound_caller token s) token.client_id conn.path method route false
    → (caller : Option TaiUser) × (http_edge svc site providers conn ≡ run_app caller)
allowed_as_http svc site providers conn token s method route apart em et es er a = elim a.decided [
  | inl login ↦
      (none, http_edge-login svc site providers conn a.canonical apart a.well_formed login)
  | inr (closed, passed) ↦ (
    some (user_of svc token s),
    Passed-http_edge svc site providers conn token s method route a.version a.ids a.canonical em et
        es er a.well_formed closed a.version_read a.ids_read a.mapped passed,
  )
]

-- Outside a fire, what the tool edge allows a caller with the identity that the HTTP edge bound for
-- it, the HTTP edge admits on the route of the operation: the request with the caller's credential,
-- the operation's method and the synthesized path runs the application. The hypotheses: access
-- control is on, the caller is in good standing when both decide, both read one state of the
-- store, and no authenticated-only path lies on the login surface.
pub tool_edge_not_easier :
    (svc : Services) (site : Site) (providers : List Provider) (conn : Conn) (token : AccessToken)
    (s : Standing) (op : OperationMetadata) (arguments : Arguments)
    → IsApart site.settings
    → site.settings.enable ≡ true
    → get_access_token svc providers conn ≡ ok (some token)
    → standing svc token ≡ ok s
    → synthesize_path op arguments ≡ ok conn.path
    → conn.method ≡ some (method_of op)
    → check svc site (bound_caller token s) op arguments false ≡ ok tt
    → (caller : Option TaiUser) × (http_edge svc site providers conn ≡ run_app caller)
tool_edge_not_easier svc site providers conn token s op arguments apart on et es ep em h =
    let d = check-Dispatched svc site (bound_caller token s) op arguments false on refl h in
    let same : d.path ≡ conn.path = ok-injective (sym d.synthesized ∙ ep) in
    let who : d.user_id ≡ token.client_id = some-eq_lem (sym d.identified) in
    let owned : own_route site.index op conn.path (method_of op) ≡ ok d.route =
      rw same at d.owned in
    let authorized : authorize_pinned_route svc site (bound_caller token s) token.client_id
          conn.path (method_of op) d.route false
        ≡ ok tt =
      rw (same, who) at d.authorized in
    allowed_as_http svc site providers conn token s (method_of op) d.route apart em et es
      (own_route-Pinned site.index op conn.path (method_of op) d.route owned).resolved
      (authorize_pinned_route_allowed svc site (bound_caller token s) token.client_id conn.path
        (method_of op) d.route false authorized)
