-- ===== src/AccessControl/Startup/Shell.antt =====
-- The public shell and the audited routes.
use mathlib.Core.List.{Memᴰ}
use tai_skeleton.Base.{
  true, false, ◌≡◌, sym, subst, ◌∙◌, Option, some, List, [], ◌∷◌, String, Text, codes, arith,
  nat_eq, string_eq, list_eq, elem, any, ok, runtime_error, raise_if, >>=-eq-ok, raise_if-eq-ok,
  ok-injective,
}
use tai_skeleton.App.RouteRegistry.{RouteMetadata}
use tai_skeleton.AccessControl.PathCanon.{canonicalize_path}
use tai_skeleton.AccessControl.Verifier.{
  Settings, Site, under_control_plane, registered_reserved_get_paths, add_acknowledged,
  add_spa_shell,
}
use tai_skeleton.AccessControl.Startup.{
  Bucket, is_acknowledged_authed, is_invisible, visibility, bucket, buckets, check_spa_shell_public,
}

-- What one route's bucket is when no bucket is refused.
buckets-Mem :
    (s : Settings) (derived : List Text) (metas : List RouteMetadata) (bs : List Bucket)
    (m : RouteMetadata)
    → buckets s derived metas ≡ ok bs
    → any is_acknowledged_authed bs ≡ false
    → any is_invisible bs ≡ false
    → Memᴰ m metas
    → (b : Bucket) × (bucket s derived m ≡ ok b)
      × (is_acknowledged_authed b ≡ false)
      × (is_invisible b ≡ false)
unfolding buckets any
buckets-Mem s derived [] bs m h a i l = elim l [ ]
buckets-Mem s derived (n ∷ ns) bs m h a i l =
    let (b, eb, h1) = >>=-eq-ok (bucket s derived n) _ h in
    let (rest, er, h2) = >>=-eq-ok (buckets s derived ns) _ h1 in
    let same : b ∷ rest ≡ bs = ok-injective h2 in
    let a1 : any is_acknowledged_authed (b ∷ rest) ≡ false =
      subst (λ l. any is_acknowledged_authed l ≡ false) (sym same) a in
    let i1 : any is_invisible (b ∷ rest) ≡ false =
      subst (λ l. any is_invisible l ≡ false) (sym same) i in
    elim l [
      | Memᴰ.head e ↦ (
        b,
        subst (λ x. bucket s derived x ≡ ok b) (sym e) eb,
        ground (arith, a1),
        ground (arith, i1),
      )
      | Memᴰ.tail j ↦ buckets-Mem s derived ns rest m er (ground (arith, a1)) (ground (arith, i1)) j
    ]

-- An authed GET route off the control plane whose bucket is not refused is in the derived set and
-- not acknowledged, if its path is canonical.
bucket-visible :
    (s : Settings) (derived : List Text) (m : RouteMetadata) (b : Bucket)
    → bucket s derived m ≡ ok b
    → is_acknowledged_authed b ≡ false
    → is_invisible b ≡ false
    → elem (codes "GET") m.methods ≡ true
    → m.authed ≡ true
    → under_control_plane m.path ≡ false
    → canonicalize_path m.path ≡ some m.path
    → (elem m.path derived ≡ true) × (elem m.path s.acknowledged_public_routes ≡ false)
unfolding bucket visibility
bucket-visible s derived m b h a i g t c canon = ground (arith, canon)

module _ (site : Site) (path : Text) (method : Option Text) (found : List String) where
  late_tiers_shut :
      elem path site.reserved_get_paths ≡ true
      → elem path site.settings.acknowledged_public_routes ≡ false
      → add_spa_shell site path method (add_acknowledged site path method found) ≡ found
  unfolding add_spa_shell add_acknowledged
  late_tiers_shut r a = ground arith

-- After a passed audit no authed GET route off the control plane, at its registered path, is opened
-- by the acknowledged routes or by the public shell: with the derived set of the registered routes,
-- these tiers leave what was found for the path as it is, for every method.
pub audited_route_not_shell :
    (site : Site) (metas : List RouteMetadata) (m : RouteMetadata) (method : Option Text)
    (found : List String)
    → check_spa_shell_public site.settings metas ≡ ok tt
    → registered_reserved_get_paths metas ≡ ok site.reserved_get_paths
    → Memᴰ m metas
    → elem (codes "GET") m.methods ≡ true
    → m.authed ≡ true
    → under_control_plane m.path ≡ false
    → canonicalize_path m.path ≡ some m.path
    → add_spa_shell site m.path method (add_acknowledged site m.path method found) ≡ found
unfolding check_spa_shell_public
audited_route_not_shell site metas m method found audited derived_set listed g t c canon =
    let (derived, e1, h1) = >>=-eq-ok (registered_reserved_get_paths metas) _ audited in
    let (bs, e2, h2) = >>=-eq-ok (buckets site.settings derived metas) _ h1 in
    let (_, e3, h3) = >>=-eq-ok (raise_if (any is_acknowledged_authed bs) runtime_error) _ h2 in
    let (_, e4, h4) = >>=-eq-ok (raise_if (any is_invisible bs) runtime_error) _ h3 in
    let same : derived ≡ site.reserved_get_paths = ok-injective (sym e1 ∙ derived_set) in
    let (b, eb, na, ni) =
      buckets-Mem site.settings derived metas bs m e2
        (raise_if-eq-ok (any is_acknowledged_authed bs) runtime_error e3)
        (raise_if-eq-ok (any is_invisible bs) runtime_error e4) listed in
    let (seen, unlisted) = bucket-visible site.settings derived m b eb na ni g t c canon in
    late_tiers_shut site m.path method found (subst (λ l. elem m.path l ≡ true) same seen) unlisted
