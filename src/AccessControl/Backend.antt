-- ===== src/AccessControl/Backend.antt =====
-- access_control/backend.py and the token verification of verifier.py: who a request's caller is,
-- and whether the caller's policies admit the request.
pub mod Admission
pub mod Credentials
use tai_skeleton.Base.{
  ℕ, Bool, true, false, ◌&&◌, ◌||◌, not, Option, none, some, List, [], ◌∷◌, ◌++◌, String, Text,
  codes, ◌==◌, nat_eq, list_eq, string_eq, eqb, leb, is_empty, keep, lower, if◌then◌else◌, Exc,
  Result, ok, raise, authentication_error, ◌>>=◌, ◌>>◌, raise_if, or_raise,
}
use tai_skeleton.AccessControl.PathCanon.{canonicalize_path}
use tai_skeleton.AccessControl.RoleGate.{DenialCause, Decision, RouteIndex}
use tai_skeleton.AccessControl.Policy.{
  Value, str, is_null, Dict, get, AccessPolicy, JqContext, Services, has_condition, policy_is_empty,
  is_disabled, is_admin_policy, current_policy_version, get_policy, enforce, render_policy,
  effective_scopes,
}
use tai_skeleton.AccessControl.RoleGrants.{role_level_decision}
use tai_skeleton.AccessControl.Verifier.{Site, is_always_public_prefix}

-- The parts of a connection that the gate reads: the two credential headers, the path and the
-- method (a websocket scope has none).
pub record Conn : Type 0 where
  pub authorization : Option Text
  pub x_api_key : Option Text
  pub path : Text
  pub method : Option Text

-- What `str.strip` takes off a header value, whose characters are below 256.
abbrev is_space : ℕ → Bool
is_space c = (leb 9 c && leb c 13) || ((leb 28 c && leb c 32) || (eqb c 0x85 || eqb c 0xA0))

unfoldable pub strip_left : Text → Text
strip_left [] = []
strip_left (c ∷ s) = if is_space c then strip_left s else c ∷ s

unfoldable pub strip_right : Text → Text
strip_right [] = []
strip_right (c ∷ s) = let r = strip_right s in if is_space c && is_empty r then [] else c ∷ r

-- auth_header.partition(" "): the text before the first space, and the text after it
unfoldable pub partition_space : Text → Text × Text
partition_space [] = ([], [])
partition_space (c ∷ s) =
    let (scheme, token) = partition_space s in if eqb c 32 then ([], s) else (c ∷ scheme, token)

unfoldable pub bearer_candidates : Text → List Text
unfolding strip_left strip_right
bearer_candidates header =
    let (scheme, token) = partition_space header in
    if is_empty token
    then scheme ∷ []
    else if lower scheme == codes "bearer"
    then (if is_empty (strip_right (strip_left token))
        then []
        else strip_right (strip_left token) ∷ [])
    else []

-- An absent header and an empty one are the same.
abbrev pub present : Option Text → (Text → List Text) → List Text
present none f = []
present (some v) f = if is_empty v then [] else f v

unfoldable pub extract_credential_candidates : Conn → List Text
extract_credential_candidates conn =
    present conn.authorization bearer_candidates ++ present conn.x_api_key (λ key. key ∷ [])

pub record AuthIdentity : Type 0 where
  pub user_id : String
  pub claims : Dict

-- An identity provider of a plugin, and whether it is an `ApiKeyIdentityProvider`.
pub record Provider : Type 0 where
  pub mints_keys : Bool
  pub validate_token : Text → Result (Option AuthIdentity)

pub record AccessToken : Type 0 where
  pub client_id : String
  pub claims : Dict

module _ (svc : Services) where
  -- {k: v for k, v in claims.items() if k != OWNER_USER_ID_CLAIM}, unless the provider mints keys
  unfoldable pub strip_owner : Bool → Dict → Dict
  strip_owner mints_keys claims =
      if mints_keys then claims else keep (λ kv. not (kv.0 == svc.owner_claim)) claims

  unfoldable pub verify_token : List Provider → Text → Result (Option AccessToken)
  verify_token [] token = ok none
  verify_token (p ∷ ps) token = do
    identity ← p.validate_token token
    elim identity [
      | none ↦ verify_token ps token
      | some i ↦
          ok (some (record { client_id = i.user_id; claims = strip_owner p.mints_keys i.claims }))
    ]

  -- the loop over the presented candidates: an error is an invalid candidate
  unfoldable pub first_valid : List Provider → List Text → Result AccessToken
  first_valid providers [] = raise authentication_error
  first_valid providers (token ∷ tokens) = elim (verify_token providers token) [
    | ok (some t) ↦ ok t
    | ok none ↦ first_valid providers tokens
    | raise e ↦ first_valid providers tokens
  ]

  unfoldable pub get_access_token : List Provider → Conn → Result (Option AccessToken)
  get_access_token providers conn =
      let candidates = extract_credential_candidates conn in
      if is_empty candidates
      then ok none
      else (do t ← first_valid providers candidates; ok (some t))

-- What `authenticate` raises: the credential is refused (401), or the caller is (403) with the
-- internal cause of the denial.
pub data Refusal : Type 0 where
  unauthenticated : Refusal
  forbidden : Option DenialCause → Refusal

pub record TaiUser : Type 0 where
  pub user_id : String
  pub claims : Dict
  pub scopes : List String
  pub is_admin : Bool

pub data Auth : Type 0 where
  guest : Auth
  user : TaiUser → Auth
  refused : Refusal → Auth

-- Policies and scopes of a caller, once the liveness checks have passed.
pub record Standing : Type 0 where
  pub policy : AccessPolicy
  pub owner_policy : Option AccessPolicy
  pub context : Dict
  pub scopes : List String

-- a malformed path is not the login surface
unfoldable pub is_always_public_path : Site → Text → Bool
is_always_public_path site path = elim (canonicalize_path path) [
  | none ↦ false
  | some canonical ↦ is_always_public_prefix canonical site.settings
]

module _ (svc : Services) where
  -- a missing, empty or disabled owner denies; any exception of a read is a denial too
  unfoldable pub owner_standing : AccessPolicy → Value → Result (Option AccessPolicy × List String)
  owner_standing policy owner = if is_null owner then ok (none, policy.scopes) else (do
    owner_policy ← get_policy svc owner
    raise_if (is_disabled owner_policy) authentication_error
    raise_if (policy_is_empty owner_policy) authentication_error
    ok (some owner_policy, effective_scopes policy.scopes owner_policy.scopes))

  unfoldable pub standing : AccessToken → Result Standing
  standing token = do
    policy ← get_policy svc (str token.client_id)
    context ← svc.live_context token.client_id
    raise_if (policy_is_empty policy) authentication_error
    raise_if (is_disabled policy) authentication_error
    owned ← owner_standing policy (get token.claims svc.owner_claim)
    ok (record { policy = policy; owner_policy = owned.0; context = context; scopes = owned.1 })

  -- the jq context of a policy: its own data and scopes
  abbrev pub jq_context :
      String → Dict → Dict → Option Text → Text → List String → AccessPolicy → JqContext
  jq_context sub claims context method path scopes policy = record {
    sub = sub;
    scopes = scopes;
    identity = claims;
    policy = policy.policy_data;
    context = context;
    method = method;
    path = path;
    time = svc.now;
  }

  unfoldable pub enforce_owner :
      String → Dict → Dict → Option Text → Text → Option AccessPolicy → Result (Unit {0})
  enforce_owner sub claims context method path none = ok tt
  enforce_owner sub claims context method path (some p) =
      if has_condition p
      then (do
        condition ← render_policy svc p
        enforce svc (jq_context sub claims context method path p.scopes p) condition true)
      else ok tt

  -- the caller's own condition, then the owner's
  unfoldable pub enforce_conditions :
      String → Dict → Option Text → Text → Standing → Result (Unit {0})
  enforce_conditions sub claims method path s = do
    condition ← render_policy svc s.policy
    enforce svc (jq_context sub claims s.context method path s.scopes s.policy) condition
        (has_condition s.policy)
    enforce_owner sub claims s.context method path s.owner_policy

  unfoldable pub level_pass : RouteIndex → Standing → Text → Option Text → Result Decision
  level_pass index s path method = do
    version ← current_policy_version svc
    role_level_decision svc index s.policy s.owner_policy path method version

  abbrev pub user_of : AccessToken → Standing → TaiUser
  user_of token s = record {
    user_id = token.client_id;
    claims = token.claims;
    scopes = s.scopes;
    is_admin = is_admin_policy s.policy (get s.policy.policy_data svc.owner_claim);
  }

  -- the stages behind the verified token
  unfoldable pub admit_level : AccessToken → Standing → Result Decision → Auth
  admit_level token s (raise e) = refused (forbidden none)
  admit_level token s (ok (allowed, cause)) =
      if allowed then user (user_of token s) else refused (forbidden cause)

  unfoldable pub admit_standing : Site → Conn → AccessToken → Result Standing → Auth
  admit_standing site conn token (raise e) = refused (forbidden none)
  admit_standing site conn token (ok s) =
      elim (enforce_conditions token.client_id token.claims conn.method conn.path s) [
        | raise e ↦ refused (forbidden none)
        | ok _ ↦ admit_level token s (level_pass site.index s conn.path conn.method)
      ]

  unfoldable pub authenticate : Site → List Provider → Conn → Auth
  authenticate site providers conn =
      if is_always_public_path site conn.path
      then guest
      else elim (get_access_token svc providers conn) [
        | raise e ↦ refused unauthenticated
        | ok none ↦ guest
        | ok (some token) ↦ admit_standing site conn token (standing token)
      ]
