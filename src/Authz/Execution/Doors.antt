-- ===== src/Authz/Execution/Doors.antt =====
-- What a fire's dispatches rest on: its tool calls and its agent runs.
use tai_skeleton.Base.{
  Bool, true, false, not, ◌≡◌, ◌⊎◌, inl, inr, sym, ◌∙◌, Option, none, some, String, Text, codes,
  arith, Result, ok, permission_denied, malformed_path_error, no_route, no_identity, require,
  >>=-eq-ok, require-eq-ok, if◌then◌else◌,
}
use tai_skeleton.App.RouteRegistry.{RouteMetadata}
use tai_skeleton.AccessControl.PathCanon.{canonicalize_path}
use tai_skeleton.AccessControl.RoleGate.{resolve_route_meta}
use tai_skeleton.AccessControl.Policy.{Value, Services}
use tai_skeleton.AccessControl.Verifier.{Site, is_always_public_prefix}
use tai_skeleton.Authz.Path.{OperationMetadata, Arguments}
use tai_skeleton.Authz.Path.Segments.{resolve_route_meta-canonical}
use tai_skeleton.Authz.Check.{CallerIdentity, check}
use tai_skeleton.Authz.Check.Inversion.{Allowed, authorize_pinned_route_allowed}
use tai_skeleton.Authz.Check.Fires.{Backed, Passed-Backed}
use tai_skeleton.Authz.Execution.{
  authorize_capability, authorize_execution_tool_call, run_path, authorize_external_run,
  authorize_execution_agent_run,
}
use tai_skeleton.Authz.Execution.Bound.{Carries, when_on, authorize_capability-Carries}

-- A dispatch of a capability tool, with the live key that it rests on.
pub record LiveCapability (svc : Services) (site : Site) (identity : CallerIdentity)
    (dispatch : Result (Option (OperationMetadata × Arguments))) : Type 0 where
  pub key : String
  pub bound : String
  pub owner : Value
  pub capability : dispatch ≡ ok none
  pub names_key : identity.user_id ≡ some key
  pub names_bound : identity.execution_key_fingerprint ≡ some bound
  pub carries : Carries svc site key bound owner

-- A dispatch of an operation that the tool edge allows.
pub record AllowedOperation (svc : Services) (site : Site) (identity : CallerIdentity) (fire : Bool)
    (dispatch : Result (Option (OperationMetadata × Arguments))) : Type 0 where
  pub operation : OperationMetadata
  pub arguments : Arguments
  pub resolved : dispatch ≡ ok (some (operation, arguments))
  pub allowed : check svc site identity operation arguments fire ≡ ok tt

resolved_call :
    (svc : Services) (site : Site) (identity : CallerIdentity) (fire : Bool)
    (dispatch : Result (Option (OperationMetadata × Arguments)))
    (resolved : Option (OperationMetadata × Arguments))
    → identity.is_internal ≡ false
    → dispatch ≡ ok resolved
    → elim resolved [
      | none ↦ authorize_capability svc site identity
      | some (operation, arguments) ↦ check svc site identity operation arguments fire
    ]
      ≡ ok tt
    → LiveCapability svc site identity dispatch ⊎ AllowedOperation svc site identity fire dispatch
resolved_call svc site identity fire dispatch none external e h =
    let (key, bound, owner, ek, eb, c) =
      authorize_capability-Carries svc site identity external h in
    inl (record {
      key = key;
      bound = bound;
      owner = owner;
      capability = e;
      names_key = ek;
      names_bound = eb;
      carries = c;
    })
resolved_call svc site identity fire dispatch (some (operation, arguments)) external e h =
    inr (record { operation = operation; arguments = arguments; resolved = e; allowed = h })

-- With access control on, a tool call of an external identity that is allowed either dispatches an
-- operation that the tool edge allows with the arguments that reach it, or a capability tool while
-- the identity's key, with its bound fingerprint, and the key's owner are live in the store.
authorize_execution_tool_call-cases :
    (svc : Services) (site : Site) (identity : CallerIdentity) (fire : Bool)
    (dispatch : Result (Option (OperationMetadata × Arguments)))
    → site.settings.enable ≡ true
    → identity.is_internal ≡ false
    → authorize_execution_tool_call svc site identity fire dispatch ≡ ok tt
    → LiveCapability svc site identity dispatch ⊎ AllowedOperation svc site identity fire dispatch
unfolding authorize_execution_tool_call
authorize_execution_tool_call-cases svc site identity fire dispatch on external h =
    let inner = sym (when_on site.settings.enable (ok tt) _ on) ∙ h in
    let (resolved, e, h1) = >>=-eq-ok dispatch _ inner in
    resolved_call svc site identity fire dispatch resolved external e h1

-- An agent run that a fire is allowed, and its route.
pub record BackedRun (svc : Services) (site : Site) (identity : CallerIdentity) (agent_name : Text)
    : Type 0 where
  pub key : String
  pub route : RouteMetadata
  pub canonical : Text
  pub names_key : identity.user_id ≡ some key
  pub registered :
      resolve_route_meta site.index (run_path svc site agent_name) (some (codes "POST"))
      ≡ some route
  pub well_formed : canonicalize_path (run_path svc site agent_name) ≡ some canonical
  pub backed :
      (is_always_public_prefix canonical site.settings ≡ true)
      ⊎ Backed svc site identity key (run_path svc site agent_name)

allowed_run :
    (svc : Services) (site : Site) (identity : CallerIdentity) (key : String) (path : Text)
    (route : RouteMetadata)
    → Allowed svc site identity key path (codes "POST") route true
    → (c : Text) × (canonicalize_path path ≡ some c)
      × ((is_always_public_prefix c site.settings ≡ true) ⊎ Backed svc site identity key path)
allowed_run svc site identity key path route a =
    let backed : (is_always_public_prefix a.canonical site.settings ≡ true)
        ⊎ Backed svc site identity key path =
      elim a.decided [
        | inl login ↦ inl login
        | inr (closed, p) ↦ inr (
            Passed-Backed svc site identity key path (codes "POST") route a.version a.ids
              a.version_read a.ids_read p)
      ] in
    (a.canonical, a.well_formed, backed)

authorize_external_run-Backed :
    (svc : Services) (site : Site) (identity : CallerIdentity) (agent_name : Text)
    → authorize_external_run svc site identity agent_name ≡ ok tt
    → BackedRun svc site identity agent_name
unfolding authorize_external_run
authorize_external_run-Backed svc site identity agent_name h =
    let path = run_path svc site agent_name in
    let (key, e1, h1) = >>=-eq-ok (require identity.user_id (permission_denied no_identity)) _ h in
    let (c, e2, h2) = >>=-eq-ok (require (canonicalize_path path) malformed_path_error) _ h1 in
    let (route, e3, h3) =
      >>=-eq-ok
        (require (resolve_route_meta site.index c (some (codes "POST")))
          (permission_denied no_route))
        _ h2 in
    let canon = require-eq-ok _ _ e2 in
    let (d, well, b) =
      allowed_run svc site identity key path route
        (authorize_pinned_route_allowed svc site identity key path (codes "POST") route true h3) in
    record {
      key = key;
      route = route;
      canonical = d;
      names_key = require-eq-ok _ _ e1;
      registered =
          sym (resolve_route_meta-canonical site.index path c (some (codes "POST")) canon)
          ∙ require-eq-ok _ _ e3;
      well_formed = well;
      backed = b;
    }

second_of {ℓ} :
    {A : Type ℓ} (a b : Bool) (x y : A)
    → a ≡ true
    → b ≡ false
    → (if not a then x else if b then x else y) ≡ y
second_of a b x y h k = ground arith

-- With access control on, an agent run that a fire is allowed under an external identity goes to a
-- registered route, and its path is always public or the store backs it now, as for a tool call.
pub authorize_execution_agent_run-BackedRun :
    (svc : Services) (site : Site) (identity : CallerIdentity) (agent_name : Text)
    → site.settings.enable ≡ true
    → identity.is_internal ≡ false
    → authorize_execution_agent_run svc site identity agent_name ≡ ok tt
    → BackedRun svc site identity agent_name
unfolding authorize_execution_agent_run
authorize_execution_agent_run-BackedRun svc site identity agent_name on external h =
    authorize_external_run-Backed svc site identity agent_name
      (sym (second_of site.settings.enable identity.is_internal (ok tt) _ on external) ∙ h)
