-- ===== src/AccessControl/Verifier.antt =====
-- access_control/verifier.py: which resource ids a request path resolves to. The settings are the
-- fields of `AccessControlSettings` that the decisions read; a regular expression that the operator
-- supplies is the predicate of the texts that it matches in full. The order of a set is the order
-- in which its members were added last.
pub mod Tiers
use tai_skeleton.Base.{
  ℕ, zero, suc, ◌+◌, Bool, true, false, ◌&&◌, ◌||◌, not, Option, none, some, List, [], ◌∷◌, ◌++◌,
  String, Text, codes, ◌==◌, nat_eq, string_eq, list_eq, elem, any, keep, set_add, is_empty, eqb,
  if◌then◌else◌, Result, ok, raise, malformed_path_error, ◌>>=◌, require,
}
use tai_skeleton.App.RouteRegistry.{RouteMetadata}
use tai_skeleton.AccessControl.PathCanon.{canonicalize_path, under_prefix, is_hex}
use tai_skeleton.AccessControl.RoleGate.{RouteIndex, drop}
use tai_skeleton.AccessControl.Policy.{Services, current_policy_version}

pub record Settings : Type 0 where
  pub enable : Bool
  pub public_resource_id : String
  pub reserved_public_pin_prefixes : List Text
  pub always_public_path_prefixes : List Text
  pub authenticated_always_allowed_paths : List Text
  pub spa_shell_public : Bool
  pub reserved_operational_supplement : List Text
  pub acknowledged_public_routes : List Text
  pub always_public_route_patterns : List (Text → Bool)
  pub compiled_patterns : List ((Text → Bool) × Text)

-- What the process has settled on when it serves: the settings and what is derived from the
-- registered routes, the route index and the reserved GET paths.
pub record Site : Type 0 where
  pub settings : Settings
  pub index : RouteIndex
  pub reserved_get_paths : List Text

unfoldable pub is_always_public_prefix : Text → Settings → Bool
is_always_public_prefix path settings = any (under_prefix path) settings.always_public_path_prefixes

unfoldable pub matches_always_public_route_pattern : Text → Settings → Bool
matches_always_public_route_pattern path settings =
    any (λ pattern. pattern path) settings.always_public_route_patterns

unfoldable pub is_reserved_prefix : Text → Settings → Bool
is_reserved_prefix path settings = any (under_prefix path) settings.reserved_public_pin_prefixes

unfoldable pub under_control_plane : Text → Bool
under_control_plane path = under_prefix path (codes "/api") || under_prefix path (codes "/mcp")

-- registered_reserved_get_paths()
unfoldable pub registered_reserved_get_paths : List RouteMetadata → Result (List Text)
registered_reserved_get_paths [] = ok []
registered_reserved_get_paths (meta ∷ metas) =
    if not (elem (codes "GET") meta.methods) || elem b'{' meta.path
    then registered_reserved_get_paths metas
    else (do
      canonical ← require (canonicalize_path meta.path) malformed_path_error
      paths ← registered_reserved_get_paths metas
      ok (if under_control_plane canonical then paths else set_add canonical paths))

-- the next `n` characters are hexadecimal digits
abbrev pub hex_run : ℕ → Text → Bool
hex_run zero s = true
hex_run (suc n) [] = false
hex_run (suc n) (c ∷ s) = is_hex c && hex_run n s

abbrev pub dash_at : ℕ → Text → Bool
dash_at n s = elim (drop n s) [ [] ↦ false | c ∷ _ ↦ eqb c b'-' ]

-- `UUID_PATTERN` behind its slash
unfoldable pub uuid_at : Text → Bool
uuid_at s =
    hex_run 8 s
    && (dash_at 8 s
        && (hex_run 4 (drop 9 s)
            && (dash_at 13 s
                && (hex_run 4 (drop 14 s)
                    && (dash_at 18 s
                        && (hex_run 4 (drop 19 s) && (dash_at 23 s && hex_run 12 (drop 24 s))))))))

-- UUID_PATTERN.sub("/{uuid}", path); the first argument counts the characters still covered
unfoldable pub sub_uuid : ℕ → Text → Text
sub_uuid skip [] = []
sub_uuid (suc skip) (c ∷ s) = sub_uuid skip s
sub_uuid zero (c ∷ s) =
    let matched = codes "/{uuid}" ++ sub_uuid 36 s in
    let kept = c ∷ sub_uuid zero s in if eqb c b'/' && uuid_at s then matched else kept

module _ (svc : Services) where
  abbrev pub decimal_run : Text → ℕ
  decimal_run [] = 0
  decimal_run (c ∷ s) = let more = decimal_run s in if svc.is_decimal c then suc more else 0

  -- DIGIT_PATTERN.sub("/{id}", path)
  unfoldable pub sub_digits : ℕ → Text → Text
  sub_digits skip [] = []
  sub_digits (suc skip) (c ∷ s) = sub_digits skip s
  sub_digits zero (c ∷ s) =
      let n = decimal_run s in
      let matched = codes "/{id}" ++ sub_digits n s in
      let kept = c ∷ sub_digits zero s in if eqb c b'/' && not (eqb n 0) then matched else kept

  unfoldable pub normalize_auto : Text → Text
  normalize_auto path = sub_digits 0 (sub_uuid 0 path)

  -- `if route := …: found_ids.add(route)`; the empty text is no id
  abbrev pub add_found : Option String → List String → List String
  add_found none found = found
  add_found (some route) found = if route == "" then found else set_add route found

  unfoldable pub exact_tier : Text → ℕ → Result (List String)
  exact_tier path version = do route ← svc.fetch_route path version; ok (add_found route [])

  unfoldable pub normalized_tier : Text → ℕ → List String → Result (List String)
  normalized_tier path version found =
      if normalize_auto path == path
      then ok found
      else (do route ← svc.fetch_route (normalize_auto path) version; ok (add_found route found))

  unfoldable pub pattern_tier :
      List ((Text → Bool) × Text) → Text → ℕ → List String → Result (List String)
  pattern_tier [] path version found = ok found
  pattern_tier ((pattern, template) ∷ more) path version found =
      if pattern path
      then (do
        route ← svc.fetch_route template version
        pattern_tier more path version (add_found route found))
      else pattern_tier more path version found

  -- what the route table and the stored patterns hold for a path
  unfoldable pub table_ids : Settings → Text → ℕ → Result (List String)
  table_ids settings path version = do
    exact ← exact_tier path version
    auto ← normalized_tier path version exact
    explicit ← pattern_tier settings.compiled_patterns path version auto
    dynamic ← svc.dynamic_patterns version
    pattern_tier dynamic path version explicit

-- the tiers behind the route table, which read no store
module _ (site : Site) (path : Text) where
  unfoldable pub drop_reserved : List String → List String
  drop_reserved found =
      if elem site.settings.public_resource_id found && is_reserved_prefix path site.settings
      then keep (λ rid. not (rid == site.settings.public_resource_id)) found
      else found

  unfoldable pub add_public_pattern : List String → List String
  add_public_pattern found =
      if matches_always_public_route_pattern path site.settings
      then set_add site.settings.public_resource_id found
      else found

module _ (site : Site) (path : Text) (method : Option Text) where
  abbrev pub has_method : Text → Bool
  has_method m = elim method [ none ↦ false | some n ↦ n == m ]

  unfoldable pub add_acknowledged : List String → List String
  add_acknowledged found =
      if (has_method (codes "GET") || has_method (codes "HEAD"))
        && (is_empty found
            && (elem path site.reserved_get_paths
                && (elem path site.settings.acknowledged_public_routes
                    && not (is_reserved_prefix path site.settings))))
      then set_add site.settings.public_resource_id found
      else found

  unfoldable pub add_spa_shell : List String → List String
  add_spa_shell found =
      if site.settings.spa_shell_public
        && (has_method (codes "GET")
            && (is_empty found
                && (not (under_prefix path (codes "/api"))
                    && (not (under_prefix path (codes "/mcp"))
                        && (not (elem path site.reserved_get_paths)
                            && (not (elem path site.settings.reserved_operational_supplement)
                                && not (is_reserved_prefix path site.settings)))))))
      then set_add site.settings.public_resource_id found
      else found

  unfoldable pub public_tiers : List String → List String
  public_tiers found =
      add_spa_shell
        (add_acknowledged (drop_reserved site path (add_public_pattern site path found)))

module _ (svc : Services) (site : Site) where
  -- policy_version if policy_version is not None else await self._current_policy_version()
  abbrev pub version_or_read : Option ℕ → Result ℕ
  version_or_read none = current_policy_version svc
  version_or_read (some v) = ok v

  unfoldable pub resolve_canonical : Text → Option Text → Option ℕ → Result (List String)
  resolve_canonical path method policy_version =
      if is_always_public_prefix path site.settings
      then ok (site.settings.public_resource_id ∷ [])
      else (do
        version ← version_or_read policy_version
        found ← table_ids svc site.settings path version
        ok (public_tiers site path method found))

  unfoldable pub resolve_resource_ids : Text → Option Text → Option ℕ → Result (List String)
  resolve_resource_ids path method policy_version = elim (canonicalize_path path) [
    | none ↦ ok []
    | some canonical ↦ resolve_canonical canonical method policy_version
  ]
