-- ===== src/Authz/Path/Segments.antt =====
-- What a synthesized path is pinned to, and what an argument may contribute.
use mathlib.Core.List.{Memᴰ}
use tai_skeleton.Base.{
  Bool, false, not, ◌&&◌, ◌≡◌, ◌≢◌, ◌⊎◌, refl, ap, sym, subst, ◌∙◌, Option, none, some, List, [],
  ◌∷◌, Text, codes, arith, ◌==◌, ==_iff, nat_eq, list_eq, option_eq, elem, any, All, lookup, ok,
  permission_denied, not_own_route, >>=-eq-ok, raise_if-eq-ok, require-eq-ok, ok-injective,
}
use tai_skeleton.App.RouteRegistry.{RouteMetadata}
use tai_skeleton.AccessControl.PathCanon.{canonicalize_path, split_slash}
use tai_skeleton.AccessControl.PathCanon.Canonical.{canonicalize_path_idempotent}
use tai_skeleton.AccessControl.RoleGate.{RouteIndex, build_index, resolve_route_meta}
use tai_skeleton.AccessControl.RoleGate.Index.{Covers, resolve_route_meta_sound}
use tai_skeleton.Authz.Path.{
  OperationMetadata, Arguments, PathParam, is_unsafe_segment, argument, same_route, own_route,
}

-- The index answers alike for a path and for its canonical form.
pub resolve_route_meta-canonical :
    (index : RouteIndex) (path c : Text) (method : Option Text)
    → canonicalize_path path ≡ some c
    → resolve_route_meta index c method ≡ resolve_route_meta index path method
unfolding resolve_route_meta
resolve_route_meta-canonical index path c none canon = refl
resolve_route_meta-canonical index path c (some m) canon =
    rw (canon, resolve_route_meta)
      (rw (canonicalize_path_idempotent path c canon, resolve_route_meta) refl)

-- What `_own_route` has pinned.
pub record Pinned (index : RouteIndex) (op : OperationMetadata) (path method : Text)
    (route : RouteMetadata) : Type 0 where
  pub template : Text
  pub canonical : Text
  pub declared : op.route_template ≡ some template
  pub well_formed : canonicalize_path path ≡ some canonical
  pub resolved : resolve_route_meta index path (some method) ≡ some route
  pub own : canonicalize_path route.path ≡ canonicalize_path template

same_route-own :
    (template : Text) (found : Option RouteMetadata) (route : RouteMetadata)
    → same_route template found ≡ ok route
    → (found ≡ some route) × (canonicalize_path route.path ≡ canonicalize_path template)
unfolding same_route
same_route-own template none route h = absurd (cc)
same_route-own template (some meta) route h =
    let (registered, e1, h1) = >>=-eq-ok _ _ h in
    let (own, e2, h2) = >>=-eq-ok _ _ h1 in
    let (_, e3, h3) = >>=-eq-ok _ _ h2 in
    let same = (==_iff registered own).0 (
      ground
        (arith, raise_if-eq-ok (not (registered == own)) (permission_denied not_own_route) e3)) in
    let is_meta = ok-injective h3 in
    (
      ap some is_meta,
      subst (λ r. canonicalize_path r.path ≡ canonicalize_path template) is_meta
          (require-eq-ok _ _ e1 ∙ ap some same ∙ sym (require-eq-ok _ _ e2)),
    )

pub own_route-Pinned :
    (index : RouteIndex) (op : OperationMetadata) (path method : Text) (route : RouteMetadata)
    → own_route index op path method ≡ ok route
    → Pinned index op path method route
unfolding own_route
own_route-Pinned index op path method route h =
    let (template, e1, h1) = >>=-eq-ok _ _ h in
    let (canonical, e2, h2) = >>=-eq-ok _ _ h1 in
    let canon = require-eq-ok _ _ e2 in
    let (found, own) = same_route-own template _ route h2 in
    record {
      template = template;
      canonical = canonical;
      declared = require-eq-ok _ _ e1;
      well_formed = canon;
      resolved =
          sym (resolve_route_meta-canonical index path canonical (some method) canon) ∙ found;
      own = own;
    }

-- The pin: a route that `_own_route` answers is a registered one, it serves the method at the
-- canonical form of the synthesized path, and it is registered at the operation's own template.
pub own_route_sound :
    (routes : List RouteMetadata) (index : RouteIndex) (op : OperationMetadata) (path method : Text)
    (route : RouteMetadata)
    → build_index routes ≡ ok index
    → own_route index op path method ≡ ok route
    → Memᴰ route routes
      × ((c : Text) × (canonicalize_path path ≡ some c) × Covers route c method)
      × ((t : Text) × (op.route_template ≡ some t)
          × (canonicalize_path route.path ≡ canonicalize_path t))
own_route_sound routes index op path method route built h =
    let pin = own_route-Pinned index op path method route h in
    let (listed, covered) =
      resolve_route_meta_sound routes index path method route built pin.resolved in
    (listed, covered, (pin.template, pin.declared, pin.own))

-- Not empty, not "." and not "..".
abbrev pub IsChild : Text → Type 0
IsChild s = (s ≢ []) × (s ≢ codes ".") × (s ≢ codes "..")

is_unsafe_segment-false : (s : Text) → is_unsafe_segment s ≡ false → IsChild s
unfolding is_unsafe_segment
is_unsafe_segment-false s h =
    ground (arith, ==_iff s [], ==_iff s (codes "."), ==_iff s (codes ".."))

any-head : (f : Text → Bool) (q : Text) (ps : List Text) → any f (q ∷ ps) ≡ false → f q ≡ false
unfolding any
any-head f q ps h = ground arith

any-tail : (f : Text → Bool) (q : Text) (ps : List Text) → any f (q ∷ ps) ≡ false → any f ps ≡ false
unfolding any
any-tail f q ps h = ground arith

children_safe : (ps : List Text) → any is_unsafe_segment ps ≡ false → All IsChild ps
children_safe [] e = tt
children_safe (q ∷ ps) e = (
  is_unsafe_segment-false q (any-head is_unsafe_segment q ps e),
  children_safe ps (any-tail is_unsafe_segment q ps e),
)

-- A value that a call puts into a path holds no empty segment and no "." or "..", and without the
-- `path` converter it is one segment.
pub argument_safe :
    (arguments : Arguments) (p : PathParam) (value : Text)
    → argument arguments p ≡ ok value
    → (lookup p.name arguments ≡ some value)
      × All IsChild (split_slash value)
      × ((p.converter ≡ some (codes "path")) ⊎ (elem b'/' value ≡ false))
unfolding argument
argument_safe arguments p value h =
    let (v, e1, h1) = >>=-eq-ok _ _ h in
    let (_, e2, h2) = >>=-eq-ok _ _ h1 in
    let (_, e3, h3) = >>=-eq-ok _ _ h2 in
    let same = ok-injective h3 in
    let alone = raise_if-eq-ok _ _ e2 in
    let safe = raise_if-eq-ok _ _ e3 in
    (
      require-eq-ok _ _ e1 ∙ ap some same,
      subst (λ x. All IsChild (split_slash x)) same (children_safe (split_slash v) safe),
      subst (λ x. (p.converter ≡ some (codes "path")) ⊎ (elem b'/' x ≡ false)) same
          (one_segment (elem b'/' v) alone),
    )
  where
    one_segment :
        (b : Bool)
        → not (p.converter == some (codes "path")) && b ≡ false
        → (p.converter ≡ some (codes "path")) ⊎ (b ≡ false)
    one_segment b e = ground (arith, ==_iff p.converter (some (codes "path")))
