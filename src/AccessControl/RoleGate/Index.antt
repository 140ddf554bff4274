-- ===== src/AccessControl/RoleGate/Index.antt =====
-- The route index answers for exactly the registered routes.
use mathlib.Core.List.{Memᴰ, not-mem-nil}
use tai_skeleton.Base.{
  Bool, true, false, ◌&&◌, ◌≡◌, ◌⊎◌, inl, inr, refl, ap, sym, subst, ◌∙◌, Option, none, some, List,
  [], ◌∷◌, ◌++◌, Text, arith, ◌==◌, ==_iff, nat_eq, list_eq, pair_eq, pair_beq, elem, insert,
  lookup, lookup-insert, Bool-cases, Option-cases, ok, some-eq_lem, malformed_path_error, >>=-eq-ok,
  require, require-eq-ok, ok-injective, if◌then◌else◌,
}
use tai_skeleton.App.RouteRegistry.{RouteMetadata}
use tai_skeleton.AccessControl.PathCanon.{canonicalize_path}
use tai_skeleton.AccessControl.RoleGate.{
  template_to_regex, fullmatch, served_methods, Matcher, RouteIndex, empty_index, insert_methods,
  add_route, build_from, build_index, first_match, find_route, resolve_route_meta,
}

-- Whether a registered route, at its canonical path `t`, serves a method on a canonical path.
abbrev pub serves : Text → RouteMetadata → Text → Text → Bool
serves t meta c m =
    elem m (served_methods meta)
    && (if elem b'{' t then fullmatch (template_to_regex t) c else t == c)

-- A route is served at `c` by its own template or its own path.
abbrev pub Covers : RouteMetadata → Text → Text → Type 0
Covers meta c m = (t : Text) × (canonicalize_path meta.path ≡ some t) × (serves t meta c m ≡ true)

lookup-insert_key :
    (t k c m : Text) (meta : RouteMetadata) (table : List ((Text × Text) × RouteMetadata))
    → lookup (c, m) (insert (t, k) meta table)
      ≡ (if t == c && m == k then some meta else lookup (c, m) table)
unfolding pair_beq
lookup-insert_key t k c m meta table =
    lookup-insert (t, k) (c, m) meta table ∙ (ground (arith, ==_iff k m, ==_iff m k))

lookup-insert_methods :
    (t : Text) (ms : List Text) (meta : RouteMetadata)
    (table : List ((Text × Text) × RouteMetadata)) (c m : Text)
    → lookup (c, m) (insert_methods t ms meta table)
      ≡ (if t == c && elem m ms then some meta else lookup (c, m) table)
unfolding insert_methods elem
lookup-insert_methods t [] meta table c m = ground arith
lookup-insert_methods t (k ∷ ms) meta table c m = ground (
  arith,
  lookup-insert_methods t ms meta (insert (t, k) meta table) c m,
  lookup-insert_key t k c m meta table,
)

abbrev or_else : Option RouteMetadata → Option RouteMetadata → Option RouteMetadata
or_else (some a) b = some a
or_else none b = b

first_match-append :
    (ms : List Matcher) (x : Matcher) (c m : Text)
    → first_match (ms ++ x ∷ []) c m
      ≡ or_else
          (first_match ms c m)
          (if elem m x.methods && fullmatch x.pattern c then some x.meta else none)
unfolding first_match
first_match-append [] x c m = refl
first_match-append (y ∷ ms) x c m = ground (arith, first_match-append ms x c m)

-- What one more route adds to the answers of the index.
module _ (index : RouteIndex) (t : Text) (meta : RouteMetadata) (c m : Text) where
  new_answer : Option RouteMetadata
  new_answer = if serves t meta c m then some meta else none

  find_route-templated :
      elem b'{' t ≡ true
      → find_route (add_route index t meta) c m ≡ or_else (find_route index c m) new_answer
  unfolding add_route find_route new_answer
  find_route-templated e = rw e (
      ground (
        arith,
        first_match-append index.templated
            (record { pattern = template_to_regex t; methods = served_methods meta; meta = meta }) c
            m,
      ))

  find_route-concrete :
      elem b'{' t ≡ false
      → find_route (add_route index t meta) c m ≡ or_else new_answer (find_route index c m)
  unfolding add_route find_route new_answer
  find_route-concrete e =
      rw e (ground (arith, lookup-insert_methods t (served_methods meta) meta index.concrete c m))

  find_route-some :
      (x : RouteMetadata)
      → find_route (add_route index t meta) c m ≡ some x
      → (find_route index c m ≡ some x) ⊎ ((meta ≡ x) × (serves t meta c m ≡ true))
  unfolding new_answer
  find_route-some x h = elim (Bool-cases (elem b'{' t)) [
    | inl e ↦ ground (arith, find_route-templated e)
    | inr e ↦ ground (arith, find_route-concrete e)
  ]

  find_route-none :
      find_route (add_route index t meta) c m ≡ none
      → (find_route index c m ≡ none) × (serves t meta c m ≡ false)
  unfolding new_answer
  find_route-none h = elim (Bool-cases (elem b'{' t)) [
    | inl e ↦ ground (arith, find_route-templated e)
    | inr e ↦ ground (arith, find_route-concrete e)
  ]

-- Every answer is a route of `all` that covers the request.
abbrev IsSound : List RouteMetadata → RouteIndex → Type 0
IsSound all index =
    (c m : Text) (x : RouteMetadata) → find_route index c m ≡ some x → Memᴰ x all × Covers x c m

add_route-IsSound :
    (all : List RouteMetadata) (index : RouteIndex) (t : Text) (meta : RouteMetadata)
    → Memᴰ meta all
    → canonicalize_path meta.path ≡ some t
    → IsSound all index
    → IsSound all (add_route index t meta)
add_route-IsSound all index t meta listed canon h c m x e =
    elim (find_route-some index t meta c m x e) [
      | inl old ↦ h c m x old
      | inr (same, s) ↦ subst (λ y. Memᴰ y all × Covers y c m) same (listed, (t, canon, s))
    ]

build_from-IsSound :
    (all : List RouteMetadata) (metas : List RouteMetadata) (index final : RouteIndex)
    → ((x : RouteMetadata) → Memᴰ x metas → Memᴰ x all)
    → IsSound all index
    → build_from index metas ≡ ok final
    → IsSound all final
unfolding build_from
build_from-IsSound all [] index final sub h e = subst (IsSound all) (ok-injective e) h
build_from-IsSound all (meta ∷ metas) index final sub h e =
    let (t, et, e1) = >>=-eq-ok (require (canonicalize_path meta.path) malformed_path_error) _ e in
    build_from-IsSound all metas (add_route index t meta) final (λ x i. sub x (Memᴰ.tail i))
      (add_route-IsSound all index t meta (sub meta (Memᴰ.head refl)) (require-eq-ok _ _ et) h) e1

no_member : {x : RouteMetadata} → Memᴰ x [] → ⊥
no_member i = not-mem-nil ∣ i ∣₁

not_covered :
    (t : Text) (meta : RouteMetadata) (metas : List RouteMetadata) (c m : Text)
    → canonicalize_path meta.path ≡ some t
    → serves t meta c m ≡ false
    → ((x : RouteMetadata) → Memᴰ x metas → ¬ Covers x c m)
    → (x : RouteMetadata) → Memᴰ x (meta ∷ metas)
    → ¬ Covers x c m
not_covered t meta metas c m canon missed others x (Memᴰ.head e) (t', canon', s) =
    let same : t' ≡ t = some-eq_lem (sym canon' ∙ ap (λ y. canonicalize_path y.path) e ∙ canon) in
    let s' = subst (λ y. serves t y c m ≡ true) e (subst (λ u. serves u x c m ≡ true) same s) in
    cc (s', missed)
not_covered t meta metas c m canon missed others x (Memᴰ.tail i) covered = others x i covered

-- A request that the built index answers with nothing was answered with nothing before, and no
-- route added since covers it.
build_from-none :
    (metas : List RouteMetadata) (index final : RouteIndex) (c m : Text)
    → build_from index metas ≡ ok final
    → find_route final c m ≡ none
    → (find_route index c m ≡ none) × ((x : RouteMetadata) → Memᴰ x metas → ¬ Covers x c m)
unfolding build_from
build_from-none [] index final c m e h =
    (subst (λ i. find_route i c m ≡ none) (sym (ok-injective e)) h, λ x i. absurd (no_member i))
build_from-none (meta ∷ metas) index final c m e h =
    let (t, et, e1) = >>=-eq-ok (require (canonicalize_path meta.path) malformed_path_error) _ e in
    let (before, others) = build_from-none metas (add_route index t meta) final c m e1 h in
    let (old, missed) = find_route-none index t meta c m before in
    (old, not_covered t meta metas c m (require-eq-ok _ _ et) missed others)

IsSound-empty : (all : List RouteMetadata) → IsSound all empty_index
unfolding find_route lookup first_match
IsSound-empty all c m x e = cc

-- What the index answers is a registered route that serves the request's method at the request's
-- canonical path, by its own path or by its template.
pub resolve_route_meta_sound :
    (routes : List RouteMetadata) (index : RouteIndex) (path method : Text) (meta : RouteMetadata)
    → build_index routes ≡ ok index
    → resolve_route_meta index path (some method) ≡ some meta
    → Memᴰ meta routes × ((c : Text) × (canonicalize_path path ≡ some c) × Covers meta c method)
unfolding build_index resolve_route_meta
resolve_route_meta_sound routes index path method meta built e =
    elim (Option-cases (canonicalize_path path)) [
      | inl bad ↦ absurd (ground arith)
      | inr (c, ec) ↦
          let (listed, covers) =
            build_from-IsSound routes routes empty_index index (λ x i. i) (IsSound-empty routes)
              built c method meta (ground arith) in
          (listed, (c, ec, covers))
    ]

-- No registered route is missed: where the index answers nothing, the path is malformed or no
-- registered route covers the request.
pub resolve_route_meta_complete :
    (routes : List RouteMetadata) (index : RouteIndex) (path method c : Text)
    → build_index routes ≡ ok index
    → canonicalize_path path ≡ some c
    → resolve_route_meta index path (some method) ≡ none
    → (meta : RouteMetadata) → Memᴰ meta routes
    → ¬ Covers meta c method
unfolding build_index resolve_route_meta
resolve_route_meta_complete routes index path method c built ec e =
    (build_from-none routes empty_index index c method built (ground arith)).1
