-- ===== src/AccessControl/Guard/Doors.antt =====
-- Who comes through the HTTP edge, and to what.
use tai_skeleton.Base.{
  true, false, ◌≡◌, ◌≢◌, ◌↔◌, ◌⊎◌, inl, inr, refl, ap, sym, subst, Option, none, some, List, [],
  ◌∷◌, String, Text, arith, ==_iff, nat_eq, string_eq, list_eq, elem, all, is_empty, Result, ok,
  raise, Bool-cases, ok-injective, some-eq_lem,
}
use tai_skeleton.App.RouteRegistry.{RouteMetadata, is_fenced}
use tai_skeleton.AccessControl.PathCanon.{canonicalize_path}
use tai_skeleton.AccessControl.RoleGate.{resolve_route_meta}
use tai_skeleton.AccessControl.Policy.{Services}
use tai_skeleton.AccessControl.Policy.Scopes.{permits}
use tai_skeleton.AccessControl.Verifier.{Site, is_reserved_prefix, resolve_resource_ids}
use tai_skeleton.AccessControl.Verifier.Tiers.{resolve_resource_ids-reserved}
use tai_skeleton.AccessControl.Backend.{
  Conn, Provider, TaiUser, Auth, guest, user, refused, authenticate,
}
use tai_skeleton.AccessControl.Backend.Admission.{Admitted, authenticate-Admitted, Admitted-admin}
use tai_skeleton.AccessControl.Validation.{validate}
use tai_skeleton.AccessControl.Validation.Disjoint.{reserved_not_always_public}
use tai_skeleton.AccessControl.Guard.{
  run_app, deny, resolve_error, auth_error, is_only, protected_ids, guard_ids, guard, http_edge,
}

is_only-elem :
    (public : String) (ids : List String) → is_only public ids ≡ true → elem public ids ≡ true
unfolding is_only all elem
is_only-elem public [] h = absurd (ground arith)
is_only-elem public (rid ∷ ids) h = ground (arith, ==_iff rid public, ==_iff public rid)

guard_ids-none :
    (public : String) (ids : List String)
    → (guard_ids public none ids ≡ run_app none) ↔ (is_only public ids ≡ true)
unfolding guard_ids is_only
guard_ids-none public ids = ground arith

guard_result-none :
    (public : String) (r : Result (List String))
    → (elim r [ raise e ↦ deny resolve_error | ok ids ↦ guard_ids public none ids ] ≡ run_app none)
      ↔ ((ids : List String) × (r ≡ ok ids) × (is_only public ids ≡ true))
guard_result-none public (raise e) =
    (λ h. absurd (ground arith), λ (ids, e1, h). absurd (ground arith))
guard_result-none public (ok ids) = (
  λ h. (ids, refl, (guard_ids-none public ids).0 h),
  λ (jds, e, h).
      (guard_ids-none public ids).1 (subst (λ l. is_only public l ≡ true) (sym (ok-injective e)) h),
)

-- The guard runs the application for a caller without a credential exactly on a path that is not
-- authenticated-only and that resolves to the public id and to nothing else.
pub anonymous_iff_public :
    (svc : Services) (site : Site) (path : Text) (method : Option Text)
    → (guard svc site path method none ≡ run_app none) ↔ (
        (elem path site.settings.authenticated_always_allowed_paths ≡ false)
        × ((ids : List String) × (resolve_resource_ids svc site path method none ≡ ok ids)
            × (is_only site.settings.public_resource_id ids ≡ true)))
unfolding guard
anonymous_iff_public svc site path method =
    elim (Bool-cases (elem path site.settings.authenticated_always_allowed_paths)) [
      | inl e ↦ (λ h. absurd (ground (arith, e)), λ (e1, x). absurd (ground (arith, e)))
      | inr e ↦
          rw e
            ((λ h. (refl, (guard_result-none _ _).0 h)), (λ (e1, x). (guard_result-none _ _).1 x))
    ]

guard_ids-caller :
    (public : String) (caller c : Option TaiUser) (ids : List String)
    → guard_ids public caller ids ≡ run_app c
    → c ≡ caller
unfolding guard_ids
guard_ids-caller public none c ids h = ground arith
guard_ids-caller public (some u) c ids h = ground arith

guard_result-caller :
    (public : String) (caller c : Option TaiUser) (r : Result (List String))
    → elim r [ raise e ↦ deny resolve_error | ok ids ↦ guard_ids public caller ids ] ≡ run_app c
    → c ≡ caller
guard_result-caller public caller c (raise e) h = absurd (ground arith)
guard_result-caller public caller c (ok ids) h = guard_ids-caller public caller c ids h

guard-authenticated :
    (svc : Services) (site : Site) (path : Text) (method : Option Text) (caller c : Option TaiUser)
    → elem path site.settings.authenticated_always_allowed_paths ≡ true
    → guard svc site path method caller ≡ run_app c
    → c ≡ caller
unfolding guard
guard-authenticated svc site path method none c e h = absurd (ground (arith, e))
guard-authenticated svc site path method (some u) c e h = ground (arith, e)

-- The guard runs the application with the caller that the authentication has bound, or not at all.
guard-caller :
    (svc : Services) (site : Site) (path : Text) (method : Option Text) (caller c : Option TaiUser)
    → guard svc site path method caller ≡ run_app c
    → c ≡ caller
unfolding guard
guard-caller svc site path method caller c h =
    elim (Bool-cases (elem path site.settings.authenticated_always_allowed_paths)) [
      | inl e ↦ guard-authenticated svc site path method caller c e h
      | inr e ↦
          guard_result-caller site.settings.public_resource_id caller c
            (resolve_resource_ids svc site path method none) (rw (e, guard) at h)
    ]

edge_anonymous :
    (svc : Services) (site : Site) (conn : Conn) (r : Auth)
    → elim r [
      | guest ↦ guard svc site conn.path conn.method none
      | user u ↦ guard svc site conn.path conn.method (some u)
      | refused r ↦ auth_error r
    ]
      ≡ run_app none
    → guard svc site conn.path conn.method none ≡ run_app none
edge_anonymous svc site conn guest h = h
edge_anonymous svc site conn (user u) h =
    absurd (ground (arith, guard-caller svc site conn.path conn.method (some u) none h))
edge_anonymous svc site conn (refused r) h = absurd (ground arith)

edge_caller :
    (svc : Services) (site : Site) (conn : Conn) (r : Auth) (u : TaiUser)
    → elim r [
      | guest ↦ guard svc site conn.path conn.method none
      | user u ↦ guard svc site conn.path conn.method (some u)
      | refused r ↦ auth_error r
    ]
      ≡ run_app (some u)
    → (r ≡ user u) × (guard svc site conn.path conn.method (some u) ≡ run_app (some u))
edge_caller svc site conn guest u h =
    absurd (ground (arith, guard-caller svc site conn.path conn.method none (some u) h))
edge_caller svc site conn (user v) u h =
    let same : u ≡ v =
      some-eq_lem (guard-caller svc site conn.path conn.method (some v) (some u) h) in
    (ap user (sym same), rw (sym same) at h)
edge_caller svc site conn (refused r) u h = absurd (ground arith)

-- Under settings that pass the validation, no request reaches the application without a caller on a
-- path under the reserved management surface, however the route table, the public patterns, the
-- acknowledged routes and the public shell are set.
pub anonymous_not_on_reserved :
    (svc : Services) (site : Site) (providers : List Provider) (conn : Conn) (c : Text)
    (auth_providers : List String)
    → validate auth_providers site.settings ≡ ok tt
    → canonicalize_path conn.path ≡ some c
    → is_reserved_prefix c site.settings ≡ true
    → http_edge svc site providers conn ≢ run_app none
unfolding http_edge
anonymous_not_on_reserved svc site providers conn c auth_providers valid canon reserved h =
    let through = edge_anonymous svc site conn (authenticate svc site providers conn) h in
    let (_, (ids, e, only)) = (anonymous_iff_public svc site conn.path conn.method).0 through in
    let apart = reserved_not_always_public auth_providers site.settings c valid reserved in
    let kept_out =
      resolve_resource_ids-reserved svc site conn.path c conn.method none ids canon reserved apart
        e in
    absurd (cc (is_only-elem site.settings.public_resource_id ids only, kept_out))

guard_ids-some :
    (public : String) (u : TaiUser) (ids : List String)
    → guard_ids public (some u) ids ≡ run_app (some u)
    → ((is_empty ids ≡ true) × (u.is_admin ≡ true))
      ⊎ ((is_only public ids ≡ true) ⊎ (permits u.scopes (protected_ids public ids) ≡ true))
unfolding guard_ids
guard_ids-some public u ids h = elim (Bool-cases (is_empty ids)) [
  | inl e ↦ inl (e, ground (arith, e))
  | inr e ↦ elim (Bool-cases (is_only public ids)) [
    | inl p ↦ inr (inl p)
    | inr p ↦ inr (inr (ground (arith, e, p)))
  ]
]

-- Why the guard lets a caller through: an authenticated-only path, or the path's resource ids: none
-- at all and an admin, the public one alone, or every protected one in the caller's scopes.
abbrev pub MayReach : Services → Site → Conn → TaiUser → Type 0
MayReach svc site conn u =
    (elem conn.path site.settings.authenticated_always_allowed_paths ≡ true)
    ⊎ ((ids : List String) × (resolve_resource_ids svc site conn.path conn.method none ≡ ok ids)
        × (((is_empty ids ≡ true) × (u.is_admin ≡ true))
            ⊎ ((is_only site.settings.public_resource_id ids ≡ true)
                ⊎ (permits u.scopes (protected_ids site.settings.public_resource_id ids) ≡ true))))

guard_result-some :
    (public : String) (u : TaiUser) (r : Result (List String))
    → elim r [ raise e ↦ deny resolve_error | ok ids ↦ guard_ids public (some u) ids ]
      ≡ run_app (some u)
    → (ids : List String) × (r ≡ ok ids) × (guard_ids public (some u) ids ≡ run_app (some u))
guard_result-some public u (raise e) h = absurd (ground arith)
guard_result-some public u (ok ids) h = (ids, refl, h)

guard-MayReach :
    (svc : Services) (site : Site) (conn : Conn) (u : TaiUser)
    → guard svc site conn.path conn.method (some u) ≡ run_app (some u)
    → MayReach svc site conn u
unfolding guard
guard-MayReach svc site conn u h =
    elim (Bool-cases (elem conn.path site.settings.authenticated_always_allowed_paths)) [
      | inl e ↦ inl e
      | inr e ↦
          let (ids, ei, hi) =
            guard_result-some site.settings.public_resource_id u
              (resolve_resource_ids svc site conn.path conn.method none) (rw (e, guard) at h) in
          inr (ids, ei, guard_ids-some site.settings.public_resource_id u ids hi)
    ]

-- A request that reaches the application as a caller has been admitted by the authentication, with
-- all that this rests on, and the caller may reach the path's resources.
pub http_edge-Admitted :
    (svc : Services) (site : Site) (providers : List Provider) (conn : Conn) (u : TaiUser)
    → http_edge svc site providers conn ≡ run_app (some u)
    → Admitted svc site providers conn u × MayReach svc site conn u
unfolding http_edge
http_edge-Admitted svc site providers conn u h =
    let (e, g) = edge_caller svc site conn (authenticate svc site providers conn) u h in
    (authenticate-Admitted svc site providers conn u e, guard-MayReach svc site conn u g)

-- On a request whose route is fenced or secret, a caller that reaches the application is an admin by
-- its own policy: neither a grant nor an owner who is an admin opens such a route.
pub fenced_route_admin_only :
    (svc : Services) (site : Site) (providers : List Provider) (conn : Conn) (u : TaiUser)
    (method : Text) (meta : RouteMetadata)
    → conn.method ≡ some method
    → resolve_route_meta site.index conn.path (some method) ≡ some meta
    → is_fenced meta.action ≡ true
    → http_edge svc site providers conn ≡ run_app (some u)
    → u.is_admin ≡ true
fenced_route_admin_only svc site providers conn u method meta em er fenced h =
    Admitted-admin svc site providers conn u method meta em er fenced
      (http_edge-Admitted svc site providers conn u h).0
