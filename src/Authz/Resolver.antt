-- ===== src/Authz/Resolver.antt =====
-- authz/resolver.py: the operation that a dispatched tool name runs, with the arguments that reach
-- it. The presets and the extension branches are the maps that the managers hold; an absent manager
-- is an empty map. Arguments are given by their `str()`.
pub mod Links
pub mod Chain
use tai_skeleton.Base.{
  ℕ, zero, suc, Bool, true, false, Option, none, some, List, [], ◌∷◌, ◌++◌, map, String, Text, ◌==◌,
  nat_eq, list_eq, string_eq, elem, insert, lookup, if◌then◌else◌, Exc, Result, ok, raise,
  unsettled, ◌>>=◌, ◌>>◌, raise_if, require, not, eqb, ◌&&◌, is_empty,
}
use tai_skeleton.Authz.Path.{OperationMetadata, Arguments}

-- A preset's spec: the tool it bakes, and the arguments it fixes.
pub record Preset : Type 0 where
  pub base_tool : String
  pub fixed_kwargs : Arguments

pub record Surface : Type 0 where
  pub presets : List (String × Preset)
  pub extend_tools : List (String × String)
  pub operations : List (String × OperationMetadata)
  pub rebuild_depth : ℕ

-- operations/registry.py: no rebuild is in flight, and the registry is not empty
unfoldable pub settled : Surface → Bool
settled surface = eqb surface.rebuild_depth 0 && not (is_empty surface.operations)

-- self._extend_tools.get(name, name)
unfoldable pub base_of : Surface → String → String
base_of surface name = elim (lookup name surface.extend_tools) [ none ↦ name | some base ↦ base ]

-- arguments.update(fixed_kwargs)
unfoldable pub update : Arguments → Arguments → Arguments
update arguments [] = arguments
update arguments ((k, v) ∷ fixed) = update (insert k v arguments) fixed

-- The loop. `none` is the fuel's end.
unfoldable pub chase : ℕ → Surface → List String → String → Arguments → Option (String × Arguments)
chase zero surface seen current arguments = none
chase (suc fuel) surface seen current arguments = elim (elem current seen) [
  | true ↦ some (current, arguments)
  | false ↦ elim (lookup current surface.presets) [
    | some spec ↦
        chase fuel surface (current ∷ seen) spec.base_tool (update arguments spec.fixed_kwargs)
    | none ↦ elim (base_of surface current == current) [
      | true ↦ some (current, arguments)
      | false ↦ chase fuel surface (current ∷ seen) (base_of surface current) arguments
    ]
  ]
]

-- d.keys()
unfoldable pub keys {ℓ} : {V : Type ℓ} → List (String × V) → List String
keys [] = []
keys ((k, v) ∷ m) = k ∷ keys m

-- the names that the loop can follow
unfoldable pub links : Surface → List String
links surface = keys surface.presets ++ keys surface.extend_tools

-- one more round than there are names to follow
unfoldable pub rounds : List String → ℕ
rounds [] = 1
rounds (x ∷ xs) = suc (rounds xs)

unfoldable pub resolve_chain : Surface → String → Arguments → Option (String × Arguments)
resolve_chain surface name arguments = chase (rounds (links surface)) surface [] name arguments

-- the operation of a settled base
unfoldable pub dispatch_of :
    Surface → String × Arguments → Result (Option (OperationMetadata × Arguments))
dispatch_of surface (base, arguments) = do
  raise_if (not (settled surface)) unsettled
  ok (elim (lookup base surface.operations) [
    | some operation ↦ some (operation, arguments)
    | none ↦ none
  ])

unfoldable pub resolve_dispatch :
    Surface → String → Arguments → Result (Option (OperationMetadata × Arguments))
resolve_dispatch surface name arguments = do
  found ← require (resolve_chain surface name arguments) unsettled
  dispatch_of surface found
