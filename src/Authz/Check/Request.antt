-- ===== src/Authz/Check/Request.antt =====
-- The terms of the tool edge, outside a fire, as the stages of the HTTP edge.
use tai_skeleton.Base.{
  ℕ, Bool, true, false, not, ◌≡◌, inl, inr, refl, ap, sym, ◌∙◌, Option, none, some, List, [], ◌∷◌,
  String, Text, arith, elem, is_empty, Result, ok, raise, permission_denied, >>=-eq-ok,
  raise_if-eq-ok, ok-injective, Bool-cases, nat_eq, string_eq, list_eq, ==_iff, all, scope_miss,
}
use tai_skeleton.AccessControl.PathCanon.{canonicalize_path}
use tai_skeleton.AccessControl.RoleGate.{DenialCause}
use tai_skeleton.AccessControl.Policy.{
  Value, is_null, Dict, AccessPolicy, JqContext, Services, has_condition, current_policy_version,
  get_policy_at, get_policy, enforce, render_policy,
}
use tai_skeleton.AccessControl.Policy.Scopes.{permits}
use tai_skeleton.AccessControl.Verifier.{
  Site, is_always_public_prefix, resolve_canonical, resolve_resource_ids,
}
use tai_skeleton.AccessControl.Backend.{
  Conn, Provider, AccessToken, TaiUser, Standing, owner_standing, standing, jq_context,
  enforce_owner, enforce_conditions, level_pass, user_of, admit_level, admit_standing,
  is_always_public_path, authenticate, get_access_token,
}
use tai_skeleton.AccessControl.Backend.Admission.{owner_standing-null, owner_standing-OwnerStands}
use tai_skeleton.AccessControl.Validation.Entries.{IsApart}
use tai_skeleton.AccessControl.Guard.{run_app, is_only, protected_ids, guard_ids, guard, http_edge}
use tai_skeleton.Authz.Check.{
  CallerIdentity, live_owner, read_owner, scope_test, render_errors, fence, owner_fence,
  fence_errors, fences,
}

-- The identity that a request's dispatch carries: what the HTTP edge bound for the caller.
abbrev pub bound_caller : AccessToken → Standing → CallerIdentity
bound_caller token s = record {
  user_id = some token.client_id;
  is_internal = false;
  effective_scopes = some s.scopes;
  claims = some token.claims;
  execution_key_fingerprint = none;
}

-- Without a fire, a fence of the tool edge is the rendering and enforcement of the HTTP edge.
fence-request :
    (svc : Services) (site : Site) (context : JqContext) (p : AccessPolicy) (configured : Bool)
    → fence svc site false context p configured ≡ ok tt
    → (condition : String) × (render_policy svc p ≡ ok condition)
      × (enforce svc context condition configured ≡ ok tt)
unfolding fence
fence-request svc site context p configured h =
    let (condition, e, h1) = >>=-eq-ok _ _ h in (condition, rendered (render_policy svc p) e, h1)
  where
    rendered : (r : Result String) {s : String} → render_errors r ≡ ok s → r ≡ ok s
    rendered r e = ground arith

fence_errors-eq-ok : (r : Result (Unit {0})) → fence_errors r ≡ ok tt → r ≡ ok tt
fence_errors-eq-ok (ok u) h = refl
fence_errors-eq-ok (raise e) h = absurd (ground arith)

owner_fence-request :
    (svc : Services) (site : Site) (sub : String) (claims context : Dict) (method path : Text)
    (o : Option AccessPolicy)
    → owner_fence svc site false
        (λ p. jq_context svc sub claims context (some method) path p.scopes p)
        o
      ≡ ok tt
    → enforce_owner svc sub claims context (some method) path o ≡ ok tt
unfolding owner_fence enforce_owner
owner_fence-request svc site sub claims context method path none h = refl
owner_fence-request svc site sub claims context method path (some p) h =
    elim (Bool-cases (has_condition p)) [
      | inr e ↦ rw e refl
      | inl e ↦
          let (condition, er, ee) =
            fence-request svc site (jq_context svc sub claims context (some method) path p.scopes p)
              p true (rw e at h) in
          rw (e, er) ee
    ]

pub fences-request :
    (svc : Services) (site : Site) (sub : String) (claims : Dict) (method path : Text)
    (s : Standing)
    → fences svc site false sub claims s.context method path s.scopes s.policy s.owner_policy
      ≡ ok tt
    → enforce_conditions svc sub claims (some method) path s ≡ ok tt
unfolding fences enforce_conditions
fences-request svc site sub claims method path s h =
    let h0 = fence_errors-eq-ok _ h in
    let (_, e1, h1) = >>=-eq-ok _ _ h0 in
    let (condition, er, ee) = fence-request svc site _ s.policy (has_condition s.policy) e1 in
    rw (er, ee) (owner_fence-request svc site sub claims s.context method path s.owner_policy h1)

pub get_policy-at :
    (svc : Services) (principal : Value) (v : ℕ)
    → current_policy_version svc ≡ ok v
    → get_policy svc principal ≡ get_policy_at svc principal v
unfolding get_policy
get_policy-at svc principal v e = rw e refl

pub read_owner-standing :
    (svc : Services) (site : Site) (policy : AccessPolicy) (owner : Value) (v : ℕ)
    (o : Option AccessPolicy) (found : Option AccessPolicy × List String)
    → current_policy_version svc ≡ ok v
    → read_owner svc site owner v ≡ ok o
    → owner_standing svc policy owner ≡ ok found
    → o ≡ found.0
unfolding read_owner live_owner
read_owner-standing svc site policy owner v o found ev h k = elim (Bool-cases (is_null owner)) [
  | inl e ↦
      sym (ok-injective (rw e at h))
      ∙ ap (λ f. f.0) (sym (owner_standing-null svc policy owner found e k))
  | inr e ↦
      let stands = owner_standing-OwnerStands svc policy owner found e k in
      let here = sym (get_policy-at svc owner v ev) ∙ stands.read in
      let found_live : read_owner svc site owner v ≡ ok (some stands.owner_policy) =
        rw (read_owner, e, here) (rw (live_owner, stands.not_disabled, stands.not_empty) refl) in
      ok-injective (sym h ∙ found_live) ∙ ap (λ f. f.0) (sym stands.attenuated)
]

pub is_always_public_path-login :
    (site : Site) (path c : Text)
    → canonicalize_path path ≡ some c
    → is_always_public_path site path ≡ is_always_public_prefix c site.settings
unfolding is_always_public_path
is_always_public_path-login site path c canon = rw (canon, is_always_public_path) refl

resolve_resource_ids-login :
    (svc : Services) (site : Site) (path c : Text) (method : Option Text) (version : Option ℕ)
    → canonicalize_path path ≡ some c
    → is_always_public_prefix c site.settings ≡ true
    → resolve_resource_ids svc site path method version ≡ ok (site.settings.public_resource_id ∷ [])
unfolding resolve_resource_ids resolve_canonical
resolve_resource_ids-login svc site path c method version canon login =
    rw (canon, resolve_resource_ids) (rw login refl)

guard-login :
    (svc : Services) (site : Site) (path : Text) (method : Option Text)
    → elem path site.settings.authenticated_always_allowed_paths ≡ false
    → resolve_resource_ids svc site path method none ≡ ok (site.settings.public_resource_id ∷ [])
    → guard svc site path method none ≡ run_app none
unfolding guard guard_ids is_only all
guard-login svc site path method e h =
    ground (arith, e, h, ==_iff site.settings.public_resource_id site.settings.public_resource_id)

-- The login surface is open to everybody at the HTTP edge.
pub http_edge-login :
    (svc : Services) (site : Site) (providers : List Provider) (conn : Conn) (c : Text)
    → IsApart site.settings
    → canonicalize_path conn.path ≡ some c
    → is_always_public_prefix c site.settings ≡ true
    → http_edge svc site providers conn ≡ run_app none
unfolding http_edge authenticate
http_edge-login svc site providers conn c apart canon login =
    let open_path = is_always_public_path-login site conn.path c canon ∙ login in
    let ids = resolve_resource_ids-login svc site conn.path c conn.method none canon login in
    elim (Bool-cases (elem conn.path site.settings.authenticated_always_allowed_paths)) [
      | inl e ↦ absurd (cc (apart conn.path c e canon, login))
      | inr e ↦
          rw (open_path, http_edge, authenticate) (guard-login svc site conn.path conn.method e ids)
    ]

-- What the guard does with a caller whose scopes pass the tool edge's scope test.
pub guard-in_scope :
    (svc : Services) (site : Site) (path : Text) (method : Option Text) (u : TaiUser)
    (ids : List String)
    → resolve_resource_ids svc site path method none ≡ ok ids
    → is_empty ids ≡ false
    → scope_test svc site ids u.scopes ≡ ok tt
    → guard svc site path method (some u) ≡ run_app (some u)
unfolding guard guard_ids scope_test
guard-in_scope svc site path method u ids e ne h = ground (
  arith,
  e,
  raise_if-eq-ok (not (permits u.scopes (protected_ids site.settings.public_resource_id ids)))
      (permission_denied scope_miss),
)

-- The stages of the HTTP edge behind the token, on a caller in good standing whose conditions hold
-- and whose level admits.
pub http_edge-admitted :
    (svc : Services) (site : Site) (providers : List Provider) (conn : Conn) (token : AccessToken)
    (s : Standing) (cause : Option DenialCause)
    → is_always_public_path site conn.path ≡ false
    → get_access_token svc providers conn ≡ ok (some token)
    → standing svc token ≡ ok s
    → enforce_conditions svc token.client_id token.claims conn.method conn.path s ≡ ok tt
    → level_pass svc site.index s conn.path conn.method ≡ ok (true, cause)
    → http_edge svc site providers conn
      ≡ guard svc site conn.path conn.method (some (user_of svc token s))
unfolding http_edge authenticate admit_standing admit_level
http_edge-admitted svc site providers conn token s cause closed e1 e2 e3 e4 =
    rw (closed, http_edge, authenticate)
      (rw (e1, http_edge, authenticate)
        (rw (e2, admit_standing) (rw (e3, admit_standing) (rw (e4, admit_level) refl))))
