-- ===== src/Authz/Resolver/Links.antt =====
-- authz/resolver.py: the names that a chase can follow, and the arguments that it joins.
use tai_skeleton.Base.{
  ℕ, suc, ◌≤◌, ◌<◌, true, false, ◌≡◌, inl, inr, refl, ap, sym, ◌∙◌, Option, none, some, List, [],
  ◌∷◌, String, Text, arith, ◌==◌, ==_iff, nat_eq, list_eq, string_eq, elem, elem-append, insert,
  lookup, lookup-insert, Bool-cases, Option-cases, if◌then◌else◌,
}
use tai_skeleton.Authz.Path.{Arguments}
use tai_skeleton.Authz.Resolver.{Preset, Surface, base_of, update, keys, links}

-- how many of the names are not seen yet
unfoldable pub remaining : List String → List String → ℕ
remaining seen [] = 0
remaining seen (x ∷ xs) = if elem x seen then remaining seen xs else suc (remaining seen xs)

remaining_mono :
    (seen names : List String) (c : String) → remaining (c ∷ seen) names ≤ remaining seen names
unfolding remaining elem
remaining_mono seen [] c = omega arith
remaining_mono seen (x ∷ xs) c = ground (arith, remaining_mono seen xs c)

pub remaining_less :
    (seen names : List String) (c : String)
    → elem c names ≡ true
    → elem c seen ≡ false
    → remaining (c ∷ seen) names < remaining seen names
unfolding remaining elem
remaining_less seen [] c h n = absurd (ground arith)
remaining_less seen (x ∷ xs) c h n = elim (Bool-cases (c == x)) [
  | inl e ↦ let same = (==_iff c x).0 e in ground (arith, ==_iff x c, remaining_mono seen xs c)
  | inr e ↦ ground (arith, e, remaining_less seen xs c, ==_iff x c, ==_iff c x)
]

-- the first value, where there is one, else the second
abbrev pub first_of : Option Text → Option Text → Option Text
first_of (some v) w = some v
first_of none w = w

pub first_of_assoc : (a b c : Option Text) → first_of a (first_of b c) ≡ first_of (first_of a b) c
first_of_assoc none b c = refl
first_of_assoc (some v) b c = refl

-- the value that a dict written as pairs has for a key: the last one
unfoldable pub last_value : Text → Arguments → Option Text
last_value k [] = none
last_value k ((j, v) ∷ m) = first_of (last_value k m) (if j == k then some v else none)

pub lookup-update :
    (fixed arguments : Arguments) (k : Text)
    → lookup k (update arguments fixed) ≡ first_of (last_value k fixed) (lookup k arguments)
unfolding update last_value
lookup-update [] arguments k = refl
lookup-update ((j, v) ∷ fixed) arguments k =
    let given : lookup k (insert j v arguments) ≡ (if j == k then some v else lookup k arguments) =
      lookup-insert j k v arguments in
    let split : first_of (if j == k then some v else none) (lookup k arguments)
        ≡ lookup k (insert j v arguments) =
      ground (arith, given) in
    lookup-update fixed (insert j v arguments) k
    ∙ ap (first_of (last_value k fixed)) (sym split)
    ∙ first_of_assoc (last_value k fixed) (if j == k then some v else none) (lookup k arguments)

elem-keys {ℓ} :
    {V : Type ℓ} (c : String) (m : List (String × V)) (v : V)
    → lookup c m ≡ some v
    → elem c (keys m) ≡ true
unfolding lookup elem keys
elem-keys c [] v h = absurd (ground arith)
elem-keys c ((j, w) ∷ m) v h = elim (Bool-cases (c == j)) [
  | inl e ↦ ground (arith, e)
  | inr e ↦ ground (arith, e, elem-keys c m v (ground (arith, e)))
]

pub preset_is_link :
    (surface : Surface) (c : String) (spec : Preset)
    → lookup c surface.presets ≡ some spec
    → elem c (links surface) ≡ true
unfolding links
preset_is_link surface c spec h = ground (
  arith,
  elem-append c (keys surface.presets) (keys surface.extend_tools),
  elem-keys c surface.presets spec h,
)

pub branch_is_link :
    (surface : Surface) (c : String)
    → base_of surface c == c ≡ false
    → elem c (links surface) ≡ true
unfolding links base_of
branch_is_link surface c h = elim (Option-cases (lookup c surface.extend_tools)) [
  | inl e ↦ absurd (ground (arith, e, ==_iff c c))
  | inr (b, e) ↦ ground (
    arith,
    elem-append c (keys surface.presets) (keys surface.extend_tools),
    elem-keys c surface.extend_tools b e,
  )
]
