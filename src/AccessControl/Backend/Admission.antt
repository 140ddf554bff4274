-- ===== src/AccessControl/Backend/Admission.antt =====
-- What the authentication has established of a caller that it lets through.
use tai_skeleton.Base.{
  ℕ, true, false, ◌≡◌, inl, inr, refl, ap, sym, subst, ◌∙◌, Option, none, some, List, String, Text,
  arith, Result, ok, raise, >>=-eq-ok, raise_if-eq-ok, ok-injective, Bool-cases, Result-cases,
}
use tai_skeleton.App.RouteRegistry.{RouteMetadata, is_fenced}
use tai_skeleton.AccessControl.RoleGate.{DenialCause, Decision, RouteIndex, resolve_route_meta}
use tai_skeleton.AccessControl.Policy.{
  Value, str, is_null, get, AccessPolicy, Services, policy_is_empty, is_disabled,
  current_policy_version, get_policy, effective_scopes,
}
use tai_skeleton.AccessControl.RoleGrants.{role_level_decision, role_level_decision_for_route}
use tai_skeleton.AccessControl.RoleGrants.Fence.{fence_is_own_admin}
use tai_skeleton.AccessControl.Verifier.{Site}
use tai_skeleton.AccessControl.Backend.{
  Conn, Provider, AccessToken, TaiUser, guest, user, refused, unauthenticated, Standing,
  owner_standing, standing, enforce_conditions, level_pass, user_of, admit_level, admit_standing,
  is_always_public_path, authenticate, get_access_token,
}

module _ (svc : Services) where
  -- A live owner, its policy and the attenuated scopes.
  pub record OwnerStands (policy : AccessPolicy) (owner : Value)
      (found : Option AccessPolicy × List String) : Type 0 where
    pub owner_policy : AccessPolicy
    pub read : get_policy svc owner ≡ ok owner_policy
    pub not_disabled : is_disabled owner_policy ≡ false
    pub not_empty : policy_is_empty owner_policy ≡ false
    pub attenuated : found ≡ (some owner_policy, effective_scopes policy.scopes owner_policy.scopes)

  pub owner_standing-null :
      (policy : AccessPolicy) (owner : Value) (found : Option AccessPolicy × List String)
      → is_null owner ≡ true
      → owner_standing svc policy owner ≡ ok found
      → found ≡ (none, policy.scopes)
  unfolding owner_standing
  owner_standing-null policy owner found e h = sym (ok-injective (rw e at h))

  pub owner_standing-OwnerStands :
      (policy : AccessPolicy) (owner : Value) (found : Option AccessPolicy × List String)
      → is_null owner ≡ false
      → owner_standing svc policy owner ≡ ok found
      → OwnerStands policy owner found
  unfolding owner_standing
  owner_standing-OwnerStands policy owner found e h =
      let (p, e1, h1) = >>=-eq-ok _ _ (rw e at h) in
      let (_, e2, h2) = >>=-eq-ok _ _ h1 in
      let (_, e3, h3) = >>=-eq-ok _ _ h2 in
      record {
        owner_policy = p;
        read = e1;
        not_disabled = raise_if-eq-ok _ _ e2;
        not_empty = raise_if-eq-ok _ _ e3;
        attenuated = sym (ok-injective h3);
      }

  -- A caller in good standing has a policy that is live: it exists, it is not disabled, and its
  -- scopes are attenuated by a live owner if it has one.
  pub record Stands (token : AccessToken) (s : Standing) : Type 0 where
    pub read : get_policy svc (str token.client_id) ≡ ok s.policy
    pub context_read : svc.live_context token.client_id ≡ ok s.context
    pub not_empty : policy_is_empty s.policy ≡ false
    pub not_disabled : is_disabled s.policy ≡ false
    pub owned :
        owner_standing svc s.policy (get token.claims svc.owner_claim)
        ≡ ok (s.owner_policy, s.scopes)

  pub standing-Stands :
      (token : AccessToken) (s : Standing) → standing svc token ≡ ok s → Stands token s
  unfolding standing
  standing-Stands token s h =
      let (p, e1, h1) = >>=-eq-ok _ _ h in
      let (context, e2, h2) = >>=-eq-ok _ _ h1 in
      let (_, e3, h3) = >>=-eq-ok _ _ h2 in
      let (_, e4, h4) = >>=-eq-ok _ _ h3 in
      let (owned, e5, h5) = >>=-eq-ok _ _ h4 in
      subst (Stands token) (ok-injective h5) (record {
        read = e1;
        context_read = e2;
        not_empty = raise_if-eq-ok _ _ e3;
        not_disabled = raise_if-eq-ok _ _ e4;
        owned = e5;
      })

-- What lies behind a caller that the authentication lets through.
pub record Admitted (svc : Services) (site : Site) (providers : List Provider) (conn : Conn)
    (u : TaiUser) : Type 0 where
  pub token : AccessToken
  pub s : Standing
  pub cause : Option DenialCause
  pub verified : get_access_token svc providers conn ≡ ok (some token)
  pub stands : Stands svc token s
  pub conditions :
      enforce_conditions svc token.client_id token.claims conn.method conn.path s ≡ ok tt
  pub level : level_pass svc site.index s conn.path conn.method ≡ ok (true, cause)
  pub facts : u ≡ user_of svc token s

admit_level-user :
    (svc : Services) (token : AccessToken) (s : Standing) (r : Result Decision) (u : TaiUser)
    → admit_level svc token s r ≡ user u
    → (cause : Option DenialCause) × (r ≡ ok (true, cause)) × (u ≡ user_of svc token s)
unfolding admit_level
admit_level-user svc token s (raise e) u h = absurd (ground arith)
admit_level-user svc token s (ok (false, cause)) u h = absurd (ground arith)
admit_level-user svc token s (ok (true, cause)) u h = (cause, refl, cc)

user_injective : {a b : TaiUser} → user a ≡ user b → a ≡ b
user_injective h = cc

admit_conditions-user :
    (svc : Services) (site : Site) (conn : Conn) (token : AccessToken) (s : Standing) (u : TaiUser)
    → admit_standing svc site conn token (ok s) ≡ user u
    → (cause : Option DenialCause) × (enforce_conditions svc token.client_id token.claims
          conn.method conn.path s
        ≡ ok tt)
      × (level_pass svc site.index s conn.path conn.method ≡ ok (true, cause))
      × (u ≡ user_of svc token s)
unfolding admit_standing
admit_conditions-user svc site conn token s u h =
    elim (Result-cases
      (enforce_conditions svc token.client_id token.claims conn.method conn.path s)) [
        | inl (done, e) ↦
            let (cause, l, f) = admit_level-user svc token s _ u (rw (e, admit_standing) at h) in
            (cause, e, l, f)
        | inr (x, e) ↦ absurd (ground (arith, e))
      ]

admit_standing-user :
    (svc : Services) (site : Site) (providers : List Provider) (conn : Conn) (token : AccessToken)
    (r : Result Standing) (u : TaiUser)
    → get_access_token svc providers conn ≡ ok (some token)
    → standing svc token ≡ r
    → admit_standing svc site conn token r ≡ user u
    → Admitted svc site providers conn u
unfolding admit_standing
admit_standing-user svc site providers conn token (raise e) u et es h = absurd (ground arith)
admit_standing-user svc site providers conn token (ok s) u et es h =
    let (cause, c, l, f) = admit_conditions-user svc site conn token s u h in
    record {
      token = token;
      s = s;
      cause = cause;
      verified = et;
      stands = standing-Stands svc token s es;
      conditions = c;
      level = l;
      facts = f;
    }

admit_token-user :
    (svc : Services) (site : Site) (providers : List Provider) (conn : Conn)
    (r : Result (Option AccessToken)) (u : TaiUser)
    → get_access_token svc providers conn ≡ r
    → elim r [
      | raise e ↦ refused unauthenticated
      | ok none ↦ guest
      | ok (some token) ↦ admit_standing svc site conn token (standing svc token)
    ]
      ≡ user u
    → Admitted svc site providers conn u
admit_token-user svc site providers conn (raise e) u et h = absurd (ground arith)
admit_token-user svc site providers conn (ok none) u et h = absurd (ground arith)
admit_token-user svc site providers conn (ok (some token)) u et h =
    admit_standing-user svc site providers conn token (standing svc token) u et refl h

-- A request that the authentication lets through as a caller has a credential that a provider
-- validates, the caller's policy exists and is not disabled, its owner, if it has one, is live and
-- limits the scopes that it carries, the conditions of both hold for the request, and the level
-- decision on the route admits it.
pub authenticate-Admitted :
    (svc : Services) (site : Site) (providers : List Provider) (conn : Conn) (u : TaiUser)
    → authenticate svc site providers conn ≡ user u
    → Admitted svc site providers conn u
unfolding authenticate
authenticate-Admitted svc site providers conn u h =
    elim (Bool-cases (is_always_public_path site conn.path)) [
      | inl e ↦ absurd (ground (arith, e))
      | inr e ↦ admit_token-user svc site providers conn _ u refl (rw (e, authenticate) at h)
    ]

level_pass-decided :
    (svc : Services) (index : RouteIndex) (s : Standing) (path method : Text) (meta : RouteMetadata)
    (d : Decision)
    → resolve_route_meta index path (some method) ≡ some meta
    → level_pass svc index s path (some method) ≡ ok d
    → (v : ℕ) × (role_level_decision_for_route svc s.policy s.owner_policy meta method v ≡ ok d)
unfolding level_pass role_level_decision
level_pass-decided svc index s path method meta d er h =
    let (v, ev, h1) = >>=-eq-ok (current_policy_version svc) _ h in
    (v, rw (er, role_level_decision) at h1)

-- A caller on a fenced or secret route is an admin by its own policy.
pub Admitted-admin :
    (svc : Services) (site : Site) (providers : List Provider) (conn : Conn) (u : TaiUser)
    (method : Text) (meta : RouteMetadata)
    → conn.method ≡ some method
    → resolve_route_meta site.index conn.path (some method) ≡ some meta
    → is_fenced meta.action ≡ true
    → Admitted svc site providers conn u
    → u.is_admin ≡ true
Admitted-admin svc site providers conn u method meta em er fenced a =
    let level : level_pass svc site.index a.s conn.path (some method) ≡ ok (true, a.cause) =
      rw em at a.level in
    let (v, decided) =
      level_pass-decided svc site.index a.s conn.path method meta (true, a.cause) er level in
    ap (λ w. w.is_admin) a.facts
    ∙ ((fence_is_own_admin svc a.s.policy a.s.owner_policy meta method v a.cause fenced).0
        decided).0
