-- ===== src/Authz/Resolver/Chain.antt =====
-- The chase of presets and branches, and the chain that it follows.
use tai_skeleton.Base.{
  ℕ, zero, suc, ◌<◌, true, false, ◌≡◌, ◌⊎◌, inl, inr, refl, ap, ◌∙◌, Option, none, some, List, [],
  ◌∷◌, String, Text, arith, ◌==◌, nat_eq, list_eq, string_eq, elem, lookup, Bool-cases,
  Option-cases, ok, raise, unsettled,
}
use tai_skeleton.Authz.Path.{OperationMetadata, Arguments}
use tai_skeleton.Authz.Resolver.{
  Preset, Surface, base_of, update, chase, links, rounds, resolve_chain, settled, dispatch_of,
  resolve_dispatch,
}
use tai_skeleton.Authz.Resolver.Links.{
  remaining, remaining_less, first_of, first_of_assoc, last_value, lookup-update, preset_is_link,
  branch_is_link,
}

-- The chain of presets and branches from a name to its base, with the tables that its presets fix, in
-- order: a name that was seen ends it, a preset goes before a branch, and a branch fixes nothing.
pub data Chain (surface : Surface) : List String → String → String → List Arguments → Type 0 where
  seen_again :
      {seen : List String} (name : String) → elem name seen ≡ true → Chain surface seen name name []
  at_base :
      {seen : List String} (name : String)
      → elem name seen ≡ false
      → lookup name surface.presets ≡ none
      → base_of surface name == name ≡ true
      → Chain surface seen name name []
  by_preset :
      {seen : List String} {base : String} {fixed : List Arguments} (name : String) (spec : Preset)
      → elem name seen ≡ false
      → lookup name surface.presets ≡ some spec
      → Chain surface (name ∷ seen) spec.base_tool base fixed
      → Chain surface seen name base (spec.fixed_kwargs ∷ fixed)
  by_branch :
      {seen : List String} {base : String} {fixed : List Arguments} (name : String)
      → elem name seen ≡ false
      → lookup name surface.presets ≡ none
      → base_of surface name == name ≡ false
      → Chain surface (name ∷ seen) (base_of surface name) base fixed
      → Chain surface seen name base fixed

-- what the tables of a chain say of an argument: a later one wins
unfoldable pub baked : List Arguments → Text → Option Text
unfolding last_value
baked [] k = none
baked (m ∷ ms) k = first_of (baked ms k) (last_value k m)

-- The chase from a name follows its chain to the base, and what reaches the base is what the chain's
-- presets fix, over the arguments.
pub record Settles (fuel : ℕ) (surface : Surface) (seen : List String) (name : String)
    : Type 0 where
  pub base : String
  pub fixed : List Arguments
  pub chain : Chain surface seen name base fixed
  pub ends :
      (arguments : Arguments)
      → (final : Arguments) × (chase fuel surface seen name arguments ≡ some (base, final))
        × ((k : Text) → lookup k final ≡ first_of (baked fixed k) (lookup k arguments))

rests :
    (fuel : ℕ) (surface : Surface) (seen : List String) (name : String)
    → Chain surface seen name name []
    → ((arguments : Arguments) → chase fuel surface seen name arguments ≡ some (name, arguments))
    → Settles fuel surface seen name
unfolding baked
rests fuel surface seen name c h = record {
  base = name;
  fixed = [];
  chain = c;
  ends = λ arguments. (arguments, h arguments, λ k. refl);
}

follows_preset :
    (fuel : ℕ) (surface : Surface) (seen : List String) (name : String) (spec : Preset)
    → elem name seen ≡ false
    → lookup name surface.presets ≡ some spec
    → Settles fuel surface (name ∷ seen) spec.base_tool
    → Settles (suc fuel) surface seen name
unfolding chase baked
follows_preset fuel surface seen name spec fresh found s = record {
  base = s.base;
  fixed = spec.fixed_kwargs ∷ s.fixed;
  chain = by_preset name spec fresh found s.chain;
  ends = λ arguments.
      let (final, e, l) = s.ends (update arguments spec.fixed_kwargs) in
      (
        final,
        rw (fresh, chase, found) e,
        λ k.
            l k
            ∙ ap (first_of (baked s.fixed k)) (lookup-update spec.fixed_kwargs arguments k)
            ∙ first_of_assoc (baked s.fixed k) (last_value k spec.fixed_kwargs)
                (lookup k arguments),
      );
}

follows_branch :
    (fuel : ℕ) (surface : Surface) (seen : List String) (name : String)
    → elem name seen ≡ false
    → lookup name surface.presets ≡ none
    → base_of surface name == name ≡ false
    → Settles fuel surface (name ∷ seen) (base_of surface name)
    → Settles (suc fuel) surface seen name
unfolding chase
follows_branch fuel surface seen name fresh plain moved s = record {
  base = s.base;
  fixed = s.fixed;
  chain = by_branch name fresh plain moved s.chain;
  ends = λ arguments.
      let (final, e, l) = s.ends arguments in (final, rw (fresh, chase, plain, moved) e, l);
}

chase-Settles :
    (fuel : ℕ) (surface : Surface) (seen : List String) (name : String)
    → remaining seen (links surface) < fuel
    → Settles fuel surface seen name
unfolding chase
chase-Settles zero surface seen name h = absurd (omega arith)
chase-Settles (suc fuel) surface seen name h = elim (Bool-cases (elem name seen)) [
  | inl old ↦
      rests (suc fuel) surface seen name (seen_again name old) (λ arguments. rw (old, chase) refl)
  | inr fresh ↦ elim (Option-cases (lookup name surface.presets)) [
    | inr (spec, found) ↦
        let less =
          remaining_less seen (links surface) name (preset_is_link surface name spec found) fresh in
        follows_preset fuel surface seen name spec fresh found
          (chase-Settles fuel surface (name ∷ seen) spec.base_tool (omega arith))
    | inl plain ↦ elim (Bool-cases (base_of surface name == name)) [
      | inl still ↦
          rests (suc fuel) surface seen name (at_base name fresh plain still)
            (λ arguments. rw (fresh, chase, plain, still) refl)
      | inr moved ↦
          let less =
            remaining_less seen (links surface) name (branch_is_link surface name moved) fresh in
          follows_branch fuel surface seen name fresh plain moved
            (chase-Settles fuel surface (name ∷ seen) (base_of surface name) (omega arith))
    ]
  ]
]

rounds_enough : (names : List String) → remaining [] names < rounds names
unfolding remaining rounds elem
rounds_enough [] = omega arith
rounds_enough (x ∷ xs) = let ih = rounds_enough xs in omega arith

-- The chase of every name ends, cycles of presets and branches included, at the base of its chain,
-- whatever the arguments are; and the arguments that reach it are what the presets of that chain fix, a
-- later one over an earlier one, and else those of the caller.
pub resolve_chain-Settles :
    (surface : Surface) (name : String)
    → (base : String) × (fixed : List Arguments) × Chain surface [] name base fixed
      × ((arguments : Arguments)
          → (final : Arguments) × (resolve_chain surface name arguments ≡ some (base, final))
            × ((k : Text) → lookup k final ≡ first_of (baked fixed k) (lookup k arguments)))
unfolding resolve_chain
resolve_chain-Settles surface name =
    let s =
      chase-Settles (rounds (links surface)) surface [] name (rounds_enough (links surface)) in
    (s.base, s.fixed, s.chain, s.ends)

-- What the settled base of a chain is: an operation with the arguments that reach it, or a capability.
abbrev pub operation_at : Surface → String → Arguments → Option (OperationMetadata × Arguments)
operation_at surface base arguments = elim (lookup base surface.operations) [
  | some operation ↦ some (operation, arguments)
  | none ↦ none
]

-- A dispatch is refused as unsettled exactly while the operation surface is being rebuilt or empty;
-- else it is the operation registered for the end of the chain, or a capability tool where none is.
resolve_dispatch-cases :
    (surface : Surface) (name : String) (arguments : Arguments)
    → ((settled surface ≡ false) × (resolve_dispatch surface name arguments ≡ raise unsettled))
      ⊎ ((settled surface ≡ true)
          × ((base : String) × (final : Arguments) × (resolve_chain surface name arguments
                ≡ some (base, final))
              × (resolve_dispatch surface name arguments ≡ ok (operation_at surface base final))))
unfolding resolve_dispatch dispatch_of
resolve_dispatch-cases surface name arguments =
    let (base, _, _, ends) = resolve_chain-Settles surface name in
    let (final, e, l) = ends arguments in
    elim (Bool-cases (settled surface)) [
      | inl on ↦ inr (on, (base, final, e, rw (e, resolve_dispatch, on) refl))
      | inr off ↦ inl (off, rw (e, resolve_dispatch, off) refl)
    ]
