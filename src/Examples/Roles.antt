-- ===== src/Examples/Roles.antt =====
-- Levels, scopes and fences.
use Prim.Native.Nat.{◌≤◌}
use tai_skeleton.Base.{
  true, false, ◌&&◌, ◌≡◌, inl, inr, Bool-cases, ◌==◌, refl, none, [], ◌∷◌, String, codes, arith,
  nat_eq, string_eq, list_eq, list_beq, elem, lookup, upper, ok,
}
use tai_skeleton.App.RouteRegistry.{write, method_to_action}
use tai_skeleton.AccessControl.RoleGate.{
  RoleGrants, level_rank, level_satisfies, level_of, action_rank, admits_tag, grant_map_admits,
}
use tai_skeleton.AccessControl.RoleGate.Levels.{IsBelow}
use tai_skeleton.AccessControl.Policy.{is_null, get, effective_scopes, is_admin_policy}
use tai_skeleton.AccessControl.Policy.Scopes.{permits, permits-effective_scopes}
use tai_skeleton.AccessControl.RoleGrants.{governing, is_admin}
use tai_skeleton.Examples.Data.{svc, docs_route, key_policy}

abbrev read_docs : RoleGrants
read_docs = ("docs", "read") ∷ []

abbrev write_docs : RoleGrants
write_docs = ("docs", "write") ∷ []

read_docs-IsBelow : IsBelow read_docs write_docs
unfolding level_rank lookup
read_docs-IsBelow tag = elim (Bool-cases (tag == "docs")) [
  | inl e ↦ rw (e, level_of) (omega arith)
  | inr e ↦ rw (e, level_of) (omega arith)
]

read_admits : grant_map_admits docs_route (codes "GET") read_docs ≡ ok (true, none)
unfolding grant_map_admits method_to_action elem upper list_beq admits_tag level_satisfies
    level_rank action_rank lookup
read_admits = refl

at_most_read : (tag : String) → level_rank (level_of read_docs tag) ≤ 1
unfolding level_rank lookup
at_most_read tag = elim (Bool-cases (tag == "docs")) [
  | inl e ↦ rw (e, level_of) (omega arith)
  | inr e ↦ rw (e, level_of) (omega arith)
]

put_is_write : method_to_action (codes "PUT") ≡ ok write
unfolding method_to_action elem upper list_beq
put_is_write = refl

permits-effective_scopes_example :
    permits (effective_scopes ("docs" ∷ "mail" ∷ []) ("docs" ∷ [])) ("mail" ∷ [])
    ≡ (permits ("docs" ∷ "mail" ∷ []) ("mail" ∷ []) && permits ("docs" ∷ []) ("mail" ∷ []))
permits-effective_scopes_example =
    permits-effective_scopes ("docs" ∷ "mail" ∷ []) ("docs" ∷ []) ("mail" ∷ [])

key_is_no_admin : is_admin svc (governing key_policy none) ≡ false
unfolding is_admin_policy elem
key_is_no_admin = refl

key_has_role : is_null (get (governing key_policy none).policy_data "role") ≡ false
unfolding get lookup
key_has_role = refl
