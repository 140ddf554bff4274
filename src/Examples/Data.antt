-- ===== src/Examples/Data.antt =====
-- The site, its rows and its requests.
use tai_skeleton.Base.{
  ℕ, true, false, ◌&&◌, ◌||◌, Option, none, some, List, [], ◌∷◌, codes, ◌==◌, nat_eq, list_eq, leb,
  starts_with, if◌then◌else◌, Result, ok, raise, fault,
}
use tai_skeleton.App.RouteRegistry.{RouteMetadata, read, write, fenced}
use tai_skeleton.AccessControl.RoleGate.{RouteIndex, template_to_regex}
use tai_skeleton.AccessControl.Policy.{Value, str, equals, AccessPolicy, Services}
use tai_skeleton.AccessControl.Verifier.{Settings, Site}
use tai_skeleton.AccessControl.Backend.{
  Conn, AuthIdentity, Provider, AccessToken, TaiUser, Standing,
}
use tai_skeleton.Authz.Path.{OperationMetadata, Arguments}
use tai_skeleton.Authz.Check.{CallerIdentity}
use tai_skeleton.Authz.Resolver.{Surface}

abbrev pub docs_route : RouteMetadata
docs_route = record {
  path = codes "/api/docs/{id}";
  methods = codes "GET" ∷ [];
  tags = "docs" ∷ [];
  authed = true;
  action = read;
}

abbrev pub admin_route : RouteMetadata
admin_route = record {
  path = codes "/api/admin/users";
  methods = codes "POST" ∷ [];
  tags = "admin" ∷ [];
  authed = true;
  action = fenced;
}

abbrev pub agents_route : RouteMetadata
agents_route = record {
  path = codes "/api/agents/{agent_name}/runs";
  methods = codes "POST" ∷ [];
  tags = "agents" ∷ [];
  authed = true;
  action = write;
}

abbrev pub reports_route : RouteMetadata
reports_route = record {
  path = codes "/reports";
  methods = codes "GET" ∷ [];
  tags = "reports" ∷ [];
  authed = true;
  action = read;
}

-- the site with a gated page off the control plane
abbrev pub page_routes : List RouteMetadata
page_routes = reports_route ∷ admin_route ∷ []

abbrev pub routes : List RouteMetadata
routes = docs_route ∷ admin_route ∷ agents_route ∷ []

abbrev pub index : RouteIndex
index = record {
  concrete = ((codes "/api/admin/users", codes "POST"), admin_route) ∷ [];
  templated =
      record {
        pattern = template_to_regex (codes "/api/docs/{id}");
        methods = codes "HEAD" ∷ codes "GET" ∷ [];
        meta = docs_route;
      }
      ∷ record {
        pattern = template_to_regex (codes "/api/agents/{agent_name}/runs");
        methods = codes "POST" ∷ [];
        meta = agents_route;
      }
      ∷ [];
}

abbrev pub settings : Settings
settings = record {
  enable = true;
  public_resource_id = "public";
  reserved_public_pin_prefixes = codes "/api/admin" ∷ [];
  always_public_path_prefixes = codes "/login" ∷ [];
  authenticated_always_allowed_paths = codes "/me" ∷ [];
  spa_shell_public = true;
  reserved_operational_supplement = codes "/openapi.json" ∷ [];
  acknowledged_public_routes = codes "/health" ∷ [];
  always_public_route_patterns = (λ p. p == codes "/api/plugins/x") ∷ [];
  compiled_patterns = [];
}

abbrev pub site : Site
site = record { settings = settings; index = index; reserved_get_paths = [] }

abbrev pub key_policy : AccessPolicy
key_policy = record {
  scopes = "docs" ∷ [];
  policy_data = ("fp", str "f1") ∷ ("role", str "reader") ∷ ("owner", str "alice") ∷ [];
  condition = none;
  condition_id = none;
  condition_kwargs = [];
}

abbrev pub admin_policy : AccessPolicy
admin_policy = record {
  scopes = "*" ∷ [];
  policy_data = [];
  condition = none;
  condition_id = none;
  condition_kwargs = [];
}

abbrev pub stored_policy : Value → ℕ → Result (Option AccessPolicy)
stored_policy v version =
    if equals v "key"
    then ok (some key_policy)
    else if equals v "alice"
    then ok (some admin_policy)
    else ok none

abbrev pub svc : Services
svc = record {
  owner_claim = "owner";
  fingerprint_claim = "fp";
  stored_version = ok (some 1);
  policy_body = stored_policy;
  live_context = λ u. ok [];
  render = λ c i k. ok "";
  run_jq = λ e c. raise fault;
  compile_jq = λ c. ok tt;
  role_grants = λ r v. ok (("docs", "read") ∷ []);
  fetch_route = λ p v. ok (
      if starts_with p (codes "/api/docs") || starts_with p (codes "/api/agents")
      then some "docs"
      else none);
  dynamic_patterns = λ v. ok [];
  is_decimal = λ c. leb 48 c && leb c 57;
  now = 0;
}

abbrev pub key_identity : AuthIdentity
key_identity = record { user_id = "key"; claims = ("owner", str "alice") ∷ [] }

abbrev pub admin_identity : AuthIdentity
admin_identity = record { user_id = "alice"; claims = [] }

abbrev pub keys : Provider
keys = record {
  mints_keys = true;
  validate_token = λ t. ok (if t == codes "tk" then some key_identity else none);
}

abbrev pub sessions : Provider
sessions = record {
  mints_keys = false;
  validate_token = λ t. ok (if t == codes "ta" then some admin_identity else none);
}

abbrev pub providers : List Provider
providers = sessions ∷ keys ∷ []

abbrev pub key_request : Conn
key_request = record {
  authorization = some (codes "Bearer tk");
  x_api_key = none;
  path = codes "/api/docs/7";
  method = some (codes "GET");
}

abbrev pub admin_request : Conn
admin_request = record {
  authorization = none;
  x_api_key = some (codes "ta");
  path = codes "/api/admin/users";
  method = some (codes "POST");
}

abbrev pub anonymous_request : Conn
anonymous_request = record {
  authorization = none;
  x_api_key = none;
  path = codes "/api/admin/users";
  method = some (codes "GET");
}

abbrev pub key_token : AccessToken
key_token = record { client_id = "key"; claims = ("owner", str "alice") ∷ [] }

abbrev pub key_standing : Standing
key_standing = record {
  policy = key_policy;
  owner_policy = some admin_policy;
  context = [];
  scopes = "docs" ∷ [];
}

abbrev pub key_user : TaiUser
key_user = record {
  user_id = "key";
  claims = ("owner", str "alice") ∷ [];
  scopes = "docs" ∷ [];
  is_admin = false;
}

abbrev pub admin_user : TaiUser
admin_user = record { user_id = "alice"; claims = []; scopes = "*" ∷ []; is_admin = true }

abbrev pub docs_operation : OperationMetadata
docs_operation = record {
  route_template = some (codes "/api/docs/{id}");
  http_method = some (codes "GET");
}

abbrev pub docs_arguments : Arguments
docs_arguments = (codes "id", codes "7") ∷ []

-- A fire that the key owns, with the fingerprint that the key still carries.
abbrev pub fire_caller : CallerIdentity
fire_caller = record {
  user_id = some "key";
  is_internal = false;
  effective_scopes = none;
  claims = some (("owner", str "alice") ∷ []);
  execution_key_fingerprint = some "f1";
}

abbrev pub op_surface : Surface
op_surface = record {
  presets =
      (
        "page_seven",
        record { base_tool = "read_page"; fixed_kwargs = (codes "id", codes "7") ∷ [] },
      )
      ∷ ("loop", record { base_tool = "loop"; fixed_kwargs = [] })
      ∷ [];
  extend_tools = ("read_page", "docs_read") ∷ [];
  operations = ("docs_read", docs_operation) ∷ [];
  rebuild_depth = 0;
}

abbrev pub page_site : Site
page_site = record {
  settings = settings;
  index = index;
  reserved_get_paths = codes "/reports" ∷ [];
}
