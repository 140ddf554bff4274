-- ===== src/AccessControl/Validation.antt =====
-- access_control/settings.py: what `model_post_init` demands of the settings. A refusal is a
-- `ValueError`. The patterns are compiled already, and the window of the claim links is not here.
pub mod Disjoint
pub mod Entries
use tai_skeleton.Base.{
  Bool, true, false, ◌&&◌, ◌||◌, not, Option, none, some, List, [], ◌∷◌, ◌++◌, String, Text, codes,
  ◌==◌, nat_eq, list_eq, starts_with, any, is_empty, if◌then◌else◌, Result, ok, raise, value_error,
  ◌>>=◌, ◌>>◌, raise_if, require,
}
use tai_skeleton.AccessControl.PathCanon.{canonicalize_path, under_prefix}
use tai_skeleton.AccessControl.Verifier.{Settings}

-- _prefix_overlaps
unfoldable pub prefix_overlaps : Text → Text → Bool
prefix_overlaps a b = a == b || (starts_with a (b ++ codes "/") || starts_with b (a ++ codes "/"))

-- a loop over the members of a field, each of which may be refused
unfoldable pub each : (Text → Result (Unit {0})) → List Text → Result (Unit {0})
each check [] = ok tt
each check (x ∷ xs) = do check x; each check xs

unfoldable pub refuse_provider_gap : Bool → List String → Result (Unit {0})
refuse_provider_gap enable auth_providers = raise_if (enable && is_empty auth_providers) value_error

unfoldable pub disjoint_prefixes : List Text → List Text → Result (Unit {0})
disjoint_prefixes reserved always =
    each (λ r. each (λ a. raise_if (prefix_overlaps r a) value_error) always) reserved

unfoldable pub authenticated_entry : List Text → Text → Result (Unit {0})
authenticated_entry always path = do
  raise_if (not (starts_with path (codes "/"))) value_error
  each (λ a. raise_if (path == a || starts_with path (a ++ codes "/")) value_error) always

-- one entry of the reserved supplement, or of the acknowledged routes if the flag is set
unfoldable pub shell_entry : List Text → Bool → Text → Result (Unit {0})
shell_entry always acknowledged entry = do
  raise_if (not (starts_with entry (codes "/"))) value_error
  canonical ← require (canonicalize_path entry) value_error
  raise_if (not (canonical == entry)) value_error
  each (λ a. raise_if (prefix_overlaps entry a) value_error) always
  raise_if
      (acknowledged && (under_prefix entry (codes "/api") || under_prefix entry (codes "/mcp")))
      value_error

-- the probes of a public pattern: a reserved prefix and a path right below it
unfoldable pub pattern_entry : List Text → (Text → Bool) → Result (Unit {0})
pattern_entry reserved pattern =
    each (λ r. raise_if (pattern r || pattern (r ++ codes "/x")) value_error) reserved

unfoldable pub each_pattern : List Text → List (Text → Bool) → Result (Unit {0})
each_pattern reserved [] = ok tt
each_pattern reserved (p ∷ ps) = do pattern_entry reserved p; each_pattern reserved ps

unfoldable pub validate : List String → Settings → Result (Unit {0})
validate auth_providers s = do
  refuse_provider_gap s.enable auth_providers
  disjoint_prefixes s.reserved_public_pin_prefixes s.always_public_path_prefixes
  each (authenticated_entry s.always_public_path_prefixes) s.authenticated_always_allowed_paths
  each (shell_entry s.always_public_path_prefixes false) s.reserved_operational_supplement
  each (shell_entry s.always_public_path_prefixes true) s.acknowledged_public_routes
  each_pattern s.reserved_public_pin_prefixes s.always_public_route_patterns
