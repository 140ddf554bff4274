-- ===== src/Authz/Check/Fires.antt =====
-- What a background fire's dispatch rests on: the key and its owner as the store has them now.
use tai_skeleton.Base.{
  ℕ, Bool, true, false, not, ◌≡◌, ◌⊎◌, inl, inr, subst, Option, none, some, List, String, Text,
  arith, Result, ok, raise, permission_denied, scope_miss, >>=-eq-ok, raise_if-eq-ok, require-eq-ok,
  Bool-cases,
}
use tai_skeleton.App.RouteRegistry.{RouteMetadata}
use tai_skeleton.AccessControl.PathCanon.{canonicalize_path}
use tai_skeleton.AccessControl.Policy.{
  Value, str, is_null, equals, get, AccessPolicy, Services, policy_is_empty, is_disabled,
  get_policy_at, current_policy_version, effective_scopes,
}
use tai_skeleton.AccessControl.Policy.Scopes.{permits, permits-effective_scopes}
use tai_skeleton.AccessControl.Verifier.{Site, is_always_public_prefix, resolve_resource_ids}
use tai_skeleton.AccessControl.Guard.{is_only, protected_ids}
use tai_skeleton.Authz.Path.{OperationMetadata, Arguments}
use tai_skeleton.Authz.Check.{
  CallerIdentity, claims_of, assert_policy_matches_fingerprint, assert_bound_key, live_owner,
  read_owner, scopes_for, scope_test, method_of, check,
}
use tai_skeleton.Authz.Check.Inversion.{
  Passed, authorize_pinned_route_allowed, Dispatched, check-Dispatched,
}

-- The key's policy is live and is the one that the fire is bound to.
pub record KeyIsLive (svc : Services) (caller : CallerIdentity) (policy : AccessPolicy)
    : Type 0 where
  pub bound : String
  pub bound_by : caller.execution_key_fingerprint ≡ some bound
  pub same_key : equals (get policy.policy_data svc.fingerprint_claim) bound ≡ true
  pub not_empty : policy_is_empty policy ≡ false
  pub not_disabled : is_disabled policy ≡ false

-- The owner, if the caller's claims name one, is live, and its scopes permit what is asked too.
abbrev pub OwnerPermits : Option AccessPolicy → List String → Type 0
OwnerPermits none ids = Unit
OwnerPermits (some o) ids =
    (is_disabled o ≡ false) × (policy_is_empty o ≡ false) × (permits o.scopes ids ≡ true)

key_is_live :
    (svc : Services) (site : Site) (caller : CallerIdentity) (policy : AccessPolicy)
    → policy_is_empty policy ≡ false
    → is_disabled policy ≡ false
    → assert_bound_key svc site true caller policy ≡ ok tt
    → KeyIsLive svc caller policy
unfolding assert_bound_key assert_policy_matches_fingerprint
key_is_live svc site caller policy live enabled h =
    let (bound, e1, h1) = >>=-eq-ok _ _ h in
    record {
      bound = bound;
      bound_by = require-eq-ok _ _ e1;
      same_key =
          not_false (equals (get policy.policy_data svc.fingerprint_claim) bound)
            (raise_if-eq-ok _ _ h1);
      not_empty = live;
      not_disabled = enabled;
    }
  where
    not_false : (b : Bool) → not b ≡ false → b ≡ true
    not_false b e = ground arith

live_owner-ok :
    (svc : Services) (site : Site) (r : Result AccessPolicy) (o : AccessPolicy)
    → live_owner svc site r ≡ ok (some o)
    → (is_disabled o ≡ false) × (policy_is_empty o ≡ false)
unfolding live_owner
live_owner-ok svc site (raise e) o k = absurd (ground arith)
live_owner-ok svc site (ok p) o k = elim (Bool-cases (is_disabled p)) [
  | inl e ↦ absurd (ground arith)
  | inr e ↦ elim (Bool-cases (policy_is_empty p)) [
    | inl e1 ↦ absurd (ground arith)
    | inr e1 ↦
        let same : p ≡ o = ground arith in
        (subst (λ q. is_disabled q ≡ false) same e, subst (λ q. policy_is_empty q ≡ false) same e1)
  ]
]

owner_live :
    (svc : Services) (site : Site) (owner : Value) (v : ℕ) (o : AccessPolicy)
    → read_owner svc site owner v ≡ ok (some o)
    → (is_disabled o ≡ false) × (policy_is_empty o ≡ false)
unfolding read_owner
owner_live svc site owner v o h = elim (Bool-cases (is_null owner)) [
  | inl e ↦ absurd (ground (arith, e))
  | inr e ↦ live_owner-ok svc site (get_policy_at svc owner v) o (rw e at h)
]

in_scope_of_both :
    (svc : Services) (site : Site) (caller : CallerIdentity) (policy : AccessPolicy) (owner : Value)
    (v : ℕ) (o : Option AccessPolicy) (ids : List String)
    → read_owner svc site owner v ≡ ok o
    → is_only site.settings.public_resource_id ids ≡ false
    → scope_test svc site ids (scopes_for svc site true caller policy o) ≡ ok tt
    → (permits policy.scopes (protected_ids site.settings.public_resource_id ids) ≡ true)
      × OwnerPermits o (protected_ids site.settings.public_resource_id ids)
unfolding scope_test scopes_for
in_scope_of_both svc site caller policy owner v none ids eo np h = ground (
  arith,
  raise_if-eq-ok (not (permits policy.scopes (protected_ids site.settings.public_resource_id ids)))
      (permission_denied scope_miss),
)
in_scope_of_both svc site caller policy owner v (some o) ids eo np h =
    let need = protected_ids site.settings.public_resource_id ids in
    let (d, e) = owner_live svc site owner v o eo in
    let both : permits (effective_scopes policy.scopes o.scopes) need ≡ true = ground (
      arith,
      raise_if-eq-ok (not (permits (effective_scopes policy.scopes o.scopes) need))
          (permission_denied scope_miss),
    ) in
    ground (arith, permits-effective_scopes policy.scopes o.scopes need)

-- The store's rows that a fire's dispatch is decided on, and what they say: the key's policy is live
-- and the one that the fire is bound to, and each protected resource of the path is in the current
-- scopes of the key and of its owner.
pub record Backed (svc : Services) (site : Site) (caller : CallerIdentity) (user_id : String)
    (path : Text) : Type 0 where
  pub version : ℕ
  pub ids : List String
  pub policy : AccessPolicy
  pub owner_policy : Option AccessPolicy
  pub version_read : current_policy_version svc ≡ ok version
  pub ids_read : resolve_resource_ids svc site path none (some version) ≡ ok ids
  pub policy_read : get_policy_at svc (str user_id) version ≡ ok policy
  pub owner_read :
      read_owner svc site (get (claims_of caller) svc.owner_claim) version ≡ ok owner_policy
  pub key : KeyIsLive svc caller policy
  pub scopes :
      (is_only site.settings.public_resource_id ids ≡ true)
      ⊎ ((permits policy.scopes (protected_ids site.settings.public_resource_id ids) ≡ true)
          × OwnerPermits owner_policy (protected_ids site.settings.public_resource_id ids))

pub Passed-Backed :
    (svc : Services) (site : Site) (caller : CallerIdentity) (user_id : String) (path method : Text)
    (route : RouteMetadata) (version : ℕ) (ids : List String)
    → current_policy_version svc ≡ ok version
    → resolve_resource_ids svc site path none (some version) ≡ ok ids
    → Passed svc site caller user_id path method route true version ids
    → Backed svc site caller user_id path
Passed-Backed svc site caller user_id path method route version ids ev ei p = record {
  version = version;
  ids = ids;
  policy = p.policy;
  owner_policy = p.owner_policy;
  version_read = ev;
  ids_read = ei;
  policy_read = p.policy_read;
  owner_read = p.owner_read;
  key =
      key_is_live svc site caller p.policy (ground (arith, p.fire_has_policy)) p.not_disabled
        p.key_bound;
  scopes = elim (Bool-cases (is_only site.settings.public_resource_id ids)) [
    | inl e ↦ inl e
    | inr e ↦ inr (
        in_scope_of_both svc site caller p.policy (get (claims_of caller) svc.owner_claim) version
          p.owner_policy ids p.owner_read e p.in_scope)
  ];
}

-- A background fire's dispatch that the tool edge allows, with access control on, is over the
-- operation's own route, and either the path is on the always-public surface, or the store backs it
-- now: the key's policy exists, is not disabled and still carries the fingerprint that the fire is
-- bound to, and what the path needs is within the current scopes of the key and of its live owner.
pub check-Backed :
    (svc : Services) (site : Site) (caller : CallerIdentity) (op : OperationMetadata)
    (arguments : Arguments)
    → site.settings.enable ≡ true
    → caller.is_internal ≡ false
    → check svc site caller op arguments true ≡ ok tt
    → (d : Dispatched svc site caller op arguments true) × (c : Text) × (canonicalize_path d.path
        ≡ some c)
      × ((is_always_public_prefix c site.settings ≡ true) ⊎ Backed svc site caller d.user_id d.path)
check-Backed svc site caller op arguments on external h =
    let d = check-Dispatched svc site caller op arguments true on external h in
    let a =
      authorize_pinned_route_allowed svc site caller d.user_id d.path (method_of op) d.route true
        d.authorized in
    let backed : (is_always_public_prefix a.canonical site.settings ≡ true)
        ⊎ Backed svc site caller d.user_id d.path =
      elim a.decided [
        | inl login ↦ inl login
        | inr (closed, p) ↦ inr (
            Passed-Backed svc site caller d.user_id d.path (method_of op) d.route a.version a.ids
              a.version_read a.ids_read p)
      ] in
    (d, a.canonical, a.well_formed, backed)
