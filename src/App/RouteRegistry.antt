-- ===== src/App/RouteRegistry.antt =====
-- app/route_registry.py: the route-metadata registry. Of `RouteMetadata` the fields that the
-- authorization reads are kept; its OpenAPI fields are written once and never read by this code.
pub mod Actions
pub mod Audit
use tai_skeleton.Base.{
  Bool, true, false, ◌&&◌, ◌||◌, not, Option, none, some, List, [], ◌∷◌, map, String, Text, codes,
  ◌==◌, nat_eq, list_eq, pair_eq, elem, any, all, insert, lookup, sort, is_empty, upper, text_lt,
  if◌then◌else◌, Result, ok, raise, value_error, runtime_error, ◌>>=◌, ◌>>◌, raise_if,
}

pub data RouteAction : Type 0 where
  read write fenced secret : RouteAction

abbrev pub is_fenced : RouteAction → Bool
is_fenced fenced = true
is_fenced secret = true
is_fenced _ = false

unfoldable pub is_action : RouteAction → RouteAction → Bool
is_action read read = true
is_action write write = true
is_action fenced fenced = true
is_action secret secret = true
is_action _ _ = false

pub record RouteMetadata : Type 0 where
  pub path : Text
  pub methods : List Text
  pub tags : List String
  pub authed : Bool
  pub action : RouteAction

abbrev read_methods : List Text
read_methods = codes "GET" ∷ codes "HEAD" ∷ codes "OPTIONS" ∷ []

abbrev write_methods : List Text
write_methods = codes "POST" ∷ codes "PUT" ∷ codes "PATCH" ∷ codes "DELETE" ∷ []

unfoldable pub method_to_action : Text → Result RouteAction
unfolding elem upper
method_to_action method =
    if elem (upper method) read_methods
    then ok read
    else if elem (upper method) write_methods
    then ok write
    else raise value_error

-- any(method_to_action(method) == "write" for method in methods), which stops at the first hit
unfoldable pub any_write : List Text → Result Bool
any_write [] = ok false
any_write (m ∷ ms) = do a ← method_to_action m; if is_action a write then ok true else any_write ms

unfoldable pub derive_route_action : List Text → Result RouteAction
derive_route_action methods = do w ← any_write methods; ok (if w then write else read)

-- the loop that holds a declared class to every method
unfoldable pub check_methods : RouteAction → List Text → Result (Unit {0})
check_methods action [] = ok tt
check_methods action (m ∷ ms) = do
  a ← method_to_action m
  raise_if (not (is_action a action)) value_error
  check_methods action ms

-- A declared action is one of the four classes: the type rules the unknown ones out.
unfoldable pub resolve_route_action : Option RouteAction → List Text → Bool → Result RouteAction
resolve_route_action none methods authed = do
  derived ← derive_route_action methods
  raise_if authed value_error
  ok derived
resolve_route_action (some action) methods authed =
    if is_fenced action
    then (do raise_if (not authed) value_error; ok action)
    else (do derived ← derive_route_action methods; check_methods action methods; ok action)

abbrev pub RouteKey : Type 0
RouteKey = Text × List Text

abbrev pub Routes : Type 0
Routes = List (RouteKey × RouteMetadata)

unfoldable pub methods_lt : List Text → List Text → Bool
methods_lt xs [] = false
methods_lt [] (y ∷ ys) = true
methods_lt (x ∷ xs) (y ∷ ys) = text_lt x y || (x == y && methods_lt xs ys)

-- the order of the keys, tuples of a path and its methods
unfoldable pub key_lt : RouteKey × RouteMetadata → RouteKey × RouteMetadata → Bool
key_lt ((p, ms), _) ((q, ns), _) = text_lt p q || (p == q && methods_lt ms ns)

unfoldable pub record_route :
    Routes → Text → List Text → Text → List String → Bool → Option RouteAction → Result Routes
record_route routes path methods summary tags authed action = do
  raise_if (is_empty summary) value_error
  raise_if (is_empty tags) value_error
  let method_key = sort text_lt (map upper methods)
  resolved ← resolve_route_action action method_key authed
  ok (
      insert (path, method_key)
        (record {
          path = path;
          methods = method_key;
          tags = tags;
          authed = authed;
          action = resolved;
        })
        routes)

unfoldable pub routes_of : Routes → List RouteMetadata
routes_of routes = map (λ r. r.1) (sort key_lt routes)

-- route_action_violations: whether the audit of the action-classes names a route. The classes are
-- the four of the type; a derivation that raises is a violation too.
unfoldable pub has_violation : RouteMetadata → Bool
has_violation meta =
    if not meta.authed
    then false
    else if is_fenced meta.action
    then false
    else elim (derive_route_action meta.methods) [
      | raise e ↦ true
      | ok derived ↦ not (is_action derived meta.action)
    ]

unfoldable pub check_route_actions : List RouteMetadata → Result (Unit {0})
check_route_actions metas = raise_if (any has_violation metas) runtime_error
