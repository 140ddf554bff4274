-- ===== src/AccessControl/Validation/Entries.antt =====
-- What the entries of validated settings are.
use tai_skeleton.Base.{
  Bool, true, false, not, ◌&&◌, ◌||◌, ◌≡◌, inl, inr, refl, ap, sym, subst, ◌∙◌, some, List, [], ◌∷◌,
  ◌++◌, String, Text, codes, arith, ◌==◌, ==_iff, nat_eq, list_eq, starts_with, any, elem, All,
  Bool-cases, ok, value_error, raise_if, >>=-eq-ok, raise_if-eq-ok, require-eq-ok, some-eq_lem,
}
use tai_skeleton.AccessControl.PathCanon.{under_prefix, canonicalize_path}
use tai_skeleton.AccessControl.Verifier.{Settings, is_always_public_prefix}
use tai_skeleton.AccessControl.Validation.{
  prefix_overlaps, refuse_provider_gap, disjoint_prefixes, each, authenticated_entry, shell_entry,
  each_pattern, pattern_entry, validate,
}
use tai_skeleton.AccessControl.Validation.Disjoint.{each-All}

-- An acknowledged route: absolute, canonical, and outside the login surface and the control plane.
pub record IsShellEntry (always : List Text) (acknowledged : Bool) (entry : Text) : Type 0 where
  pub absolute : starts_with entry (codes "/") ≡ true
  pub canonical : canonicalize_path entry ≡ some entry
  pub not_login : any (under_prefix entry) always ≡ false
  pub not_control_plane :
      acknowledged && (under_prefix entry (codes "/api") || under_prefix entry (codes "/mcp"))
      ≡ false

no_overlap :
    (entry : Text) (always : List Text)
    → All (λ a. raise_if (prefix_overlaps entry a) value_error ≡ ok tt) always
    → any (under_prefix entry) always ≡ false
unfolding any under_prefix prefix_overlaps
no_overlap entry [] h = refl
no_overlap entry (a ∷ always) (h, hs) =
    ground
      (arith, raise_if-eq-ok (prefix_overlaps entry a) value_error h, no_overlap entry always hs)

shell_entry-IsShellEntry :
    (always : List Text) (acknowledged : Bool) (entry : Text)
    → shell_entry always acknowledged entry ≡ ok tt
    → IsShellEntry always acknowledged entry
unfolding shell_entry
shell_entry-IsShellEntry always acknowledged entry h =
    let (_, e1, h1) = >>=-eq-ok _ _ h in
    let (c, e2, h2) = >>=-eq-ok _ _ h1 in
    let (_, e3, h3) = >>=-eq-ok _ _ h2 in
    let (_, e4, h4) = >>=-eq-ok _ _ h3 in
    let same : c ≡ entry =
      ground (arith, ==_iff c entry, raise_if-eq-ok (not (c == entry)) value_error e3) in
    record {
      absolute =
          ground (arith, raise_if-eq-ok (not (starts_with entry (codes "/"))) value_error e1);
      canonical = require-eq-ok _ _ e2 ∙ ap some same;
      not_login = no_overlap entry always (each-All _ always e4);
      not_control_plane = raise_if-eq-ok _ _ h4;
    }

All-map : (P Q : Text → Type 0) (xs : List Text) → ((x : Text) → P x → Q x) → All P xs → All Q xs
All-map P Q [] f h = tt
All-map P Q (x ∷ xs) f (h, hs) = (f x h, All-map P Q xs f hs)

-- A public pattern of validated settings matches no reserved prefix.
abbrev pub MissesReserved : List Text → (Text → Bool) → Type 0
MissesReserved reserved pattern = All (λ r. pattern r ≡ false) reserved

pattern_entry-MissesReserved :
    (reserved : List Text) (p : Text → Bool)
    → pattern_entry reserved p ≡ ok tt
    → MissesReserved reserved p
unfolding pattern_entry
pattern_entry-MissesReserved reserved p h =
    All-map _ (λ r. p r ≡ false) reserved
      (λ r e. ground (arith, raise_if-eq-ok (p r || p (r ++ codes "/x")) value_error e))
      (each-All _ reserved h)

each_pattern-MissesReserved :
    (reserved : List Text) (ps : List (Text → Bool))
    → each_pattern reserved ps ≡ ok tt
    → All (MissesReserved reserved) ps
unfolding each_pattern
each_pattern-MissesReserved reserved [] h = tt
each_pattern-MissesReserved reserved (p ∷ ps) h =
    let (_, e, h1) = >>=-eq-ok (pattern_entry reserved p) _ h in
    (pattern_entry-MissesReserved reserved p e, each_pattern-MissesReserved reserved ps h1)

-- Settings that pass the validation have acknowledged routes and supplement entries that are
-- absolute and canonical and lie outside the login surface, the acknowledged ones also outside the
-- control plane, and public patterns that match no reserved prefix.
validate-IsShellEntry :
    (auth_providers : List String) (s : Settings)
    → validate auth_providers s ≡ ok tt
    → All (IsShellEntry s.always_public_path_prefixes false) s.reserved_operational_supplement
      × All (IsShellEntry s.always_public_path_prefixes true) s.acknowledged_public_routes
      × All (MissesReserved s.reserved_public_pin_prefixes) s.always_public_route_patterns
unfolding validate
validate-IsShellEntry auth_providers s h =
    let (_, e1, h1) = >>=-eq-ok (refuse_provider_gap s.enable auth_providers) _ h in
    let (_, e2, h2) =
      >>=-eq-ok (disjoint_prefixes s.reserved_public_pin_prefixes s.always_public_path_prefixes) _
        h1 in
    let (_, e3, h3) =
      >>=-eq-ok
        (each (authenticated_entry s.always_public_path_prefixes)
          s.authenticated_always_allowed_paths)
        _ h2 in
    let (_, e4, h4) =
      >>=-eq-ok
        (each (shell_entry s.always_public_path_prefixes false) s.reserved_operational_supplement) _
        h3 in
    let (_, e5, h5) =
      >>=-eq-ok (each (shell_entry s.always_public_path_prefixes true) s.acknowledged_public_routes)
        _ h4 in
    (
      All-map _ (IsShellEntry s.always_public_path_prefixes false) s.reserved_operational_supplement
          (shell_entry-IsShellEntry s.always_public_path_prefixes false)
          (each-All _ s.reserved_operational_supplement e4),
      All-map _ (IsShellEntry s.always_public_path_prefixes true) s.acknowledged_public_routes
          (shell_entry-IsShellEntry s.always_public_path_prefixes true)
          (each-All _ s.acknowledged_public_routes e5),
      each_pattern-MissesReserved s.reserved_public_pin_prefixes s.always_public_route_patterns h5,
    )

absolute_and_apart :
    (path : Text) (always : List Text)
    → All
        (λ a. raise_if (path == a || starts_with path (a ++ codes "/")) value_error ≡ ok tt)
        always
    → any (under_prefix path) always ≡ false
unfolding any under_prefix
absolute_and_apart path [] h = refl
absolute_and_apart path (a ∷ always) (h, hs) = ground (
  arith,
  raise_if-eq-ok (path == a || starts_with path (a ++ codes "/")) value_error h,
  absolute_and_apart path always hs,
)

authenticated_entry-apart :
    (always : List Text) (path : Text)
    → authenticated_entry always path ≡ ok tt
    → any (under_prefix path) always ≡ false
unfolding authenticated_entry
authenticated_entry-apart always path h =
    let (_, _, h1) = >>=-eq-ok (raise_if (not (starts_with path (codes "/"))) value_error) _ h in
    absolute_and_apart path always (each-All _ always h1)

All-elem : (P : Text → Type 0) (x : Text) (xs : List Text) → elem x xs ≡ true → All P xs → P x
unfolding elem
All-elem P x [] h ps = absurd (ground arith)
All-elem P x (y ∷ ys) h (p, ps) = elim (Bool-cases (x == y)) [
  | inl e ↦ subst P (sym ((==_iff x y).0 e)) p
  | inr e ↦ All-elem P x ys (ground (arith, e)) ps
]

validate-authenticated :
    (auth_providers : List String) (s : Settings)
    → validate auth_providers s ≡ ok tt
    → All
        (λ p. authenticated_entry s.always_public_path_prefixes p ≡ ok tt)
        s.authenticated_always_allowed_paths
unfolding validate
validate-authenticated auth_providers s h =
    let (_, e1, h1) = >>=-eq-ok (refuse_provider_gap s.enable auth_providers) _ h in
    let (_, e2, h2) =
      >>=-eq-ok (disjoint_prefixes s.reserved_public_pin_prefixes s.always_public_path_prefixes) _
        h1 in
    let (_, e3, h3) =
      >>=-eq-ok
        (each (authenticated_entry s.always_public_path_prefixes)
          s.authenticated_always_allowed_paths)
        _ h2 in
    each-All _ s.authenticated_always_allowed_paths e3

-- No authenticated-only path is on the always-public login surface in its canonical form.
abbrev pub IsApart : Settings → Type 0
IsApart settings =
    (path c : Text)
    → elem path settings.authenticated_always_allowed_paths ≡ true
    → canonicalize_path path ≡ some c
    → is_always_public_prefix c settings ≡ false

abbrev pub IsCanonicalPath : Text → Type 0
IsCanonicalPath path = canonicalize_path path ≡ some path

-- Under settings that pass the validation and whose authenticated-only paths are written in their
-- canonical form, no authenticated-only path is on the always-public login surface.
pub validate-IsApart :
    (auth_providers : List String) (s : Settings)
    → validate auth_providers s ≡ ok tt
    → All IsCanonicalPath s.authenticated_always_allowed_paths
    → IsApart s
unfolding is_always_public_prefix
validate-IsApart auth_providers s h canonical path c listed canon =
    let as_written =
      All-elem IsCanonicalPath path s.authenticated_always_allowed_paths listed canonical in
    let same : path ≡ c = some-eq_lem (sym as_written ∙ canon) in
    let clear = authenticated_entry-apart s.always_public_path_prefixes path (
      All-elem _ path s.authenticated_always_allowed_paths listed
        (validate-authenticated auth_providers s h)) in
    subst (λ p. any (under_prefix p) s.always_public_path_prefixes ≡ false) same clear
