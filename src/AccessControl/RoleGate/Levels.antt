-- ===== src/AccessControl/RoleGate/Levels.antt =====
-- What the per-tag decision admits.
use tai_skeleton.Base.{
  ◌≤◌, true, false, ◌≡◌, ◌≢◌, ◌↔◌, inl, inr, Result-cases, refl, none, some, List, [], ◌∷◌, String,
  Text, arith, string_eq, any, ok,
}
use tai_skeleton.App.RouteRegistry.{RouteAction, write, is_fenced, RouteMetadata, method_to_action}
use tai_skeleton.AccessControl.RoleGate.{
  RoleGrants, hard_fence, level_rank, action_rank, level_satisfies, level_of, admits_tag,
  grant_map_admits,
}

admits_tag_iff :
    (tags : List String) (derived : RouteAction) (grants : RoleGrants)
    → admits_tag tags derived grants
      ≡ any (λ tag. level_satisfies (level_of grants tag) derived) tags
unfolding admits_tag any
admits_tag_iff [] derived grants = refl
admits_tag_iff (tag ∷ tags) derived grants = ground (arith, admits_tag_iff tags derived grants)

-- A grant map admits a request exactly when the route is grantable and some tag of it carries a
-- level that ranks at least as high as the action derived from the method; a fenced or secret
-- route is never admitted, whatever the grants.
grant_map_admits_iff :
    (meta : RouteMetadata) (method : Text) (grants : RoleGrants)
    → (grant_map_admits meta method grants ≡ ok (true, none)) ↔ (
        (is_fenced meta.action ≡ false)
        × ((a : RouteAction) × (method_to_action method ≡ ok a)
            × (any (λ tag. level_satisfies (level_of grants tag) a) meta.tags ≡ true)))
unfolding grant_map_admits
grant_map_admits_iff meta method grants = (to, from)
  where
    to :
        grant_map_admits meta method grants ≡ ok (true, none)
        → (is_fenced meta.action ≡ false)
          × ((a : RouteAction) × (method_to_action method ≡ ok a)
              × (any (λ tag. level_satisfies (level_of grants tag) a) meta.tags ≡ true))
    to h = elim (Result-cases (method_to_action method)) [
      | inl (a, e) ↦ (ground arith, (a, e, ground (arith, admits_tag_iff meta.tags a grants)))
      | inr (x, e) ↦ absurd (ground arith)
    ]

    from :
        (is_fenced meta.action ≡ false)
          × ((a : RouteAction) × (method_to_action method ≡ ok a)
              × (any (λ tag. level_satisfies (level_of grants tag) a) meta.tags ≡ true))
        → grant_map_admits meta method grants ≡ ok (true, none)
    from (f, (a, e, h)) = ground (arith, admits_tag_iff meta.tags a grants)

-- Whatever the grants and the method, a fenced or secret route is a hard-fence denial.
grant_map_admits-fenced :
    (meta : RouteMetadata) (method : Text) (grants : RoleGrants)
    → is_fenced meta.action ≡ true
    → grant_map_admits meta method grants ≡ ok (false, some hard_fence)
unfolding grant_map_admits
grant_map_admits-fenced meta method grants h = rw h refl

level_satisfies_mono :
    (l k : String) (a : RouteAction)
    → level_rank l ≤ level_rank k
    → level_satisfies l a ≡ true
    → level_satisfies k a ≡ true
unfolding level_satisfies
level_satisfies_mono l k a h s = ground arith

-- Every tag's level under `g` ranks no higher than under `h`.
abbrev pub IsBelow : RoleGrants → RoleGrants → Type 0
IsBelow g h = (tag : String) → level_rank (level_of g tag) ≤ level_rank (level_of h tag)

admits_tag_mono :
    (tags : List String) (a : RouteAction) (g h : RoleGrants)
    → IsBelow g h
    → admits_tag tags a g ≡ true
    → admits_tag tags a h ≡ true
unfolding admits_tag
admits_tag_mono [] a g h le e = e
admits_tag_mono (tag ∷ tags) a g h le e = ground (
  arith,
  level_satisfies_mono (level_of g tag) (level_of h tag) a (le tag),
  admits_tag_mono tags a g h le,
)

-- Raising levels never takes an admission away.
grant_map_admits_mono :
    (meta : RouteMetadata) (method : Text) (g h : RoleGrants)
    → IsBelow g h
    → grant_map_admits meta method g ≡ ok (true, none)
    → grant_map_admits meta method h ≡ ok (true, none)
unfolding grant_map_admits
grant_map_admits_mono meta method g h le e = elim (Result-cases (method_to_action method)) [
  | inl (a, ea) ↦ ground (arith, admits_tag_mono meta.tags a g h le)
  | inr (x, ex) ↦ absurd (ground arith)
]

admits_tag-read_only :
    (tags : List String) (a : RouteAction) (g : RoleGrants)
    → ((tag : String) → level_rank (level_of g tag) ≤ 1)
    → 2 ≤ action_rank a
    → admits_tag tags a g ≡ false
unfolding admits_tag level_satisfies
admits_tag-read_only [] a g le w = refl
admits_tag-read_only (tag ∷ tags) a g le w =
    ground (arith, le tag, admits_tag-read_only tags a g le w)

-- Grants with no level above "read" admit no request whose method derives the write action.
grant_map_admits-read_only :
    (meta : RouteMetadata) (method : Text) (g : RoleGrants)
    → ((tag : String) → level_rank (level_of g tag) ≤ 1)
    → method_to_action method ≡ ok write
    → grant_map_admits meta method g ≢ ok (true, none)
unfolding grant_map_admits action_rank
grant_map_admits-read_only meta method g le w e =
    let none_admits = admits_tag-read_only meta.tags write g le (omega arith) in ground arith
