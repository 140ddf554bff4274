-- ===== src/AccessControl/Validation/Disjoint.antt =====
-- Reserved and always-public paths are apart.
use tai_skeleton.Base.{
  Bool, true, false, ◌≡◌, inl, inr, refl, subst, List, [], ◌∷◌, ◌++◌, String, Text, codes, arith,
  ◌==◌, ==_iff, nat_eq, list_eq, list_beq, starts_with, any, All, Bool-cases, Result, ok,
  value_error, >>=-eq-ok, raise_if-eq-ok,
}
use tai_skeleton.AccessControl.PathCanon.{under_prefix}
use tai_skeleton.AccessControl.Verifier.{Settings, is_always_public_prefix, is_reserved_prefix}
use tai_skeleton.AccessControl.Validation.{
  prefix_overlaps, each, disjoint_prefixes, refuse_provider_gap, validate,
}

-- Two prefixes of one text, each ended by a slash, overlap.
both_start :
    (c r a : Text)
    → starts_with c (r ++ codes "/") ≡ true
    → starts_with c (a ++ codes "/") ≡ true
    → prefix_overlaps r a ≡ true
unfolding starts_with prefix_overlaps list_beq
both_start c [] [] h k = refl
both_start [] (x ∷ r) a h k = absurd (ground arith)
both_start [] [] (y ∷ a) h k = absurd (ground arith)
both_start (d ∷ c) [] (y ∷ a) h k = ground arith
both_start (d ∷ c) (x ∷ r) [] h k = ground arith
both_start (d ∷ c) (x ∷ r) (y ∷ a) h k =
    let rest : prefix_overlaps r a ≡ true = both_start c r a (ground arith) (ground arith) in
    ground (arith, ==_iff r a)

under_both :
    (c r a : Text) → under_prefix c r ≡ true → under_prefix c a ≡ true → prefix_overlaps r a ≡ true
unfolding under_prefix prefix_overlaps
under_both c r a h k = elim (Bool-cases (c == r)) [
  | inl e ↦
      let same = (==_iff c r).0 e in
      subst (λ x. prefix_overlaps x a ≡ true) same (ground (arith, ==_iff c a))
  | inr e ↦ elim (Bool-cases (c == a)) [
    | inl f ↦
        let same = (==_iff c a).0 f in
        subst (λ x. prefix_overlaps r x ≡ true) same (ground (arith, ==_iff c r))
    | inr f ↦ both_start c r a (ground (arith, e)) (ground (arith, f))
  ]
]

-- what one pass of a loop of refusals has found
pub each-All :
    (check : Text → Result (Unit {0})) (xs : List Text)
    → each check xs ≡ ok tt
    → All (λ x. check x ≡ ok tt) xs
unfolding each
each-All check [] h = tt
each-All check (x ∷ xs) h = let (_, e, h1) = >>=-eq-ok (check x) _ h in (e, each-All check xs h1)

-- a member that passes a test, of a list whose members all have a property
any-All_member :
    (f : Text → Bool) (P : Text → Type 0) (xs : List Text)
    → any f xs ≡ true
    → All P xs
    → (x : Text) × (f x ≡ true) × P x
unfolding any
any-All_member f P [] h ps = absurd (ground arith)
any-All_member f P (x ∷ xs) h (p, ps) = elim (Bool-cases (f x)) [
  | inl e ↦ (x, e, p)
  | inr e ↦ any-All_member f P xs (ground (arith, e)) ps
]

disjoint_prefixes-apart :
    (reserved always : List Text) (c : Text)
    → disjoint_prefixes reserved always ≡ ok tt
    → any (under_prefix c) reserved ≡ true
    → any (under_prefix c) always ≡ false
unfolding disjoint_prefixes
disjoint_prefixes-apart reserved always c h on = elim (Bool-cases (any (under_prefix c) always)) [
  | inr e ↦ e
  | inl e ↦
      let (r, er, pr) = any-All_member (under_prefix c) _ reserved on (each-All _ reserved h) in
      let (a, ea, pa) = any-All_member (under_prefix c) _ always e (each-All _ always pr) in
      let overlap = under_both c r a er ea in
      let apart = raise_if-eq-ok (prefix_overlaps r a) value_error pa in
      absurd (cc (overlap, apart))
]

validate-disjoint :
    (auth_providers : List String) (s : Settings)
    → validate auth_providers s ≡ ok tt
    → disjoint_prefixes s.reserved_public_pin_prefixes s.always_public_path_prefixes ≡ ok tt
unfolding validate
validate-disjoint auth_providers s h =
    let (_, e1, h1) = >>=-eq-ok (refuse_provider_gap s.enable auth_providers) _ h in
    let (_, e2, h2) =
      >>=-eq-ok (disjoint_prefixes s.reserved_public_pin_prefixes s.always_public_path_prefixes) _
        h1 in
    e2

-- Under settings that pass the validation no path is on the reserved management surface and on the
-- always-public login surface at once.
pub reserved_not_always_public :
    (auth_providers : List String) (s : Settings) (c : Text)
    → validate auth_providers s ≡ ok tt
    → is_reserved_prefix c s ≡ true
    → is_always_public_prefix c s ≡ false
unfolding is_reserved_prefix is_always_public_prefix
reserved_not_always_public auth_providers s c h on =
    disjoint_prefixes-apart s.reserved_public_pin_prefixes s.always_public_path_prefixes c
      (validate-disjoint auth_providers s h) on
