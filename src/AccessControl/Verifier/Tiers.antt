-- ===== src/AccessControl/Verifier/Tiers.antt =====
-- What the tiers behind the route table add and drop.
use tai_skeleton.Base.{
  ℕ, true, false, not, ◌≡◌, inl, inr, subst, sym, ap, ◌∙◌, Option, none, some, List, String, Text,
  arith, ◌==◌, ==_iff, nat_eq, string_eq, list_eq, elem, elem-keep, is_empty, Bool-cases,
  Option-cases, ok, >>=-eq-ok, ok-injective,
}
use tai_skeleton.AccessControl.PathCanon.{canonicalize_path}
use tai_skeleton.AccessControl.Policy.{Services}
use tai_skeleton.AccessControl.Verifier.{
  Site, is_always_public_prefix, is_reserved_prefix, table_ids, drop_reserved, add_public_pattern,
  add_acknowledged, add_spa_shell, public_tiers, version_or_read, resolve_canonical,
  resolve_resource_ids,
}

drop_reserved-no_public :
    (site : Site) (path : Text) (found : List String)
    → is_reserved_prefix path site.settings ≡ true
    → elem site.settings.public_resource_id (drop_reserved site path found) ≡ false
unfolding drop_reserved
drop_reserved-no_public site path found h = ground (
  arith,
  elem-keep (λ rid. not (rid == site.settings.public_resource_id)) site.settings.public_resource_id
      found,
  ==_iff site.settings.public_resource_id site.settings.public_resource_id,
)

-- what the route table and the public patterns leave, before the tiers that read the method
abbrev before_method : Site → Text → List String → List String
before_method site path found = drop_reserved site path (add_public_pattern site path found)

module _ (site : Site) (path : Text) (method : Option Text) (found : List String) where
  late_tiers_reserved :
      is_reserved_prefix path site.settings ≡ true
      → add_spa_shell site path method (add_acknowledged site path method found) ≡ found
  unfolding add_spa_shell add_acknowledged
  late_tiers_reserved h = ground arith

  late_tiers_found :
      is_empty found ≡ false
      → add_spa_shell site path method (add_acknowledged site path method found) ≡ found
  unfolding add_spa_shell add_acknowledged
  late_tiers_found h = ground arith

  late_tiers_none : add_spa_shell site path none (add_acknowledged site path none found) ≡ found
  unfolding add_spa_shell add_acknowledged
  late_tiers_none = ground arith

module _ (site : Site) (path : Text) (method : Option Text) (found : List String) where
  public_tiers-reserved :
      is_reserved_prefix path site.settings ≡ true
      → elem site.settings.public_resource_id (public_tiers site path method found) ≡ false
  unfolding public_tiers
  public_tiers-reserved h =
      rw (late_tiers_reserved site path method (before_method site path found) h)
        (drop_reserved-no_public site path (add_public_pattern site path found) h)

  public_tiers-method :
      is_empty (public_tiers site path none found) ≡ false
      → public_tiers site path method found ≡ public_tiers site path none found
  unfolding public_tiers
  public_tiers-method h =
      let bare = late_tiers_none site path method (before_method site path found) in
      late_tiers_found site path method (before_method site path found)
        (subst (λ l. is_empty l ≡ false) bare h)
      ∙ sym bare

-- Whatever the route table, the patterns and the method, no path of the reserved management surface
-- resolves to the public id, where the always-public prefixes do not cover it.
pub resolve_resource_ids-reserved :
    (svc : Services) (site : Site) (path c : Text) (method : Option Text) (version : Option ℕ)
    (ids : List String)
    → canonicalize_path path ≡ some c
    → is_reserved_prefix c site.settings ≡ true
    → is_always_public_prefix c site.settings ≡ false
    → resolve_resource_ids svc site path method version ≡ ok ids
    → elem site.settings.public_resource_id ids ≡ false
unfolding resolve_resource_ids resolve_canonical
resolve_resource_ids-reserved svc site path c method version ids canon reserved apart h =
    let h0 = rw (canon, resolve_resource_ids, apart) at h in
    let (v, _, h1) = >>=-eq-ok (version_or_read svc site version) _ h0 in
    let (found, _, h2) = >>=-eq-ok (table_ids svc site.settings c v) _ h1 in
    subst (λ l. elem site.settings.public_resource_id l ≡ false) (ok-injective h2)
      (public_tiers-reserved site c method found reserved)

resolve_canonical-method :
    (svc : Services) (site : Site) (c : Text) (method : Option Text) (version : Option ℕ)
    (ids : List String)
    → resolve_canonical svc site c none version ≡ ok ids
    → is_empty ids ≡ false
    → resolve_canonical svc site c method version ≡ ok ids
unfolding resolve_canonical
resolve_canonical-method svc site c method version ids h ne =
    elim (Bool-cases (is_always_public_prefix c site.settings)) [
      | inl e ↦ rw e (rw (e, resolve_canonical) at h)
      | inr e ↦
          let (v, ev, h1) =
            >>=-eq-ok (version_or_read svc site version) _ (rw (e, resolve_canonical) at h) in
          let (found, ef, h2) = >>=-eq-ok (table_ids svc site.settings c v) _ h1 in
          let same = ok-injective h2 in
          rw (e, ev, ef)
            (ap ok (
              public_tiers-method site c method found
                (subst (λ l. is_empty l ≡ false) (sym same) ne)
              ∙ same))
    ]

-- The method opens only what nothing else maps: ids found without a method are the ids found with
-- one.
pub resolve_resource_ids-method :
    (svc : Services) (site : Site) (path : Text) (method : Option Text) (version : Option ℕ)
    (ids : List String)
    → resolve_resource_ids svc site path none version ≡ ok ids
    → is_empty ids ≡ false
    → resolve_resource_ids svc site path method version ≡ ok ids
unfolding resolve_resource_ids
resolve_resource_ids-method svc site path method version ids h ne =
    elim (Option-cases (canonicalize_path path)) [
      | inl bad ↦ rw (bad, resolve_resource_ids) (rw (bad, resolve_resource_ids) at h)
      | inr (c, canon) ↦
          rw (canon, resolve_resource_ids)
            (resolve_canonical-method svc site c method version ids
              (rw (canon, resolve_resource_ids) at h) ne)
    ]
