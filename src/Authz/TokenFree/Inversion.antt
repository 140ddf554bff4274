-- ===== src/Authz/TokenFree/Inversion.antt =====
-- What a passed test of the rule says.
use tai_skeleton.Base.{
  true, false, Option, none, some, Text, codes, ◌≡◌, ◌≢◌, ◌⊎◌, inl, inr, refl, ap, arith, ◌==◌,
  ==_iff, nat_eq, list_eq, if◌then◌else◌, Bool-cases, ok, raise, token_free_error, ◌>>=◌, ◌>>◌,
  >>=-eq-ok, ok-injective,
}
use tai_skeleton.Authz.TokenFree.Syntax.{Node, Suffixes}
use tai_skeleton.Authz.TokenFree.Taint.{
  Taint, context, safe, either, Scope, require_safe, is_pipe, is_choice, is_owner, is_owner_only,
  taint, project,
}

pub require_safe-eq-ok : (t : Taint) {u : Unit {0}} → require_safe t ≡ ok u → t ≡ safe
require_safe-eq-ok safe h = refl
require_safe-eq-ok context h = cc

-- what becomes of the taints of the two sides
joined :
    (op : Text) (a b t : Taint)
    → (if is_choice op then ok (either a b) else require_safe a >> (require_safe b >> ok safe))
      ≡ ok t
    → ((is_choice op ≡ true) × (either a b ≡ t))
      ⊎ ((is_choice op ≡ false) × (a ≡ safe) × (b ≡ safe))
joined op a b t h = elim (Bool-cases (is_choice op)) [
  | inl d ↦ inl (d, ok-injective (rw d at h))
  | inr d ↦
      let (_, e, h1) = >>=-eq-ok (require_safe a) _ (rw d at h) in
      let (_, e1, _) = >>=-eq-ok (require_safe b) _ h1 in
      inr (d, require_safe-eq-ok a e, require_safe-eq-ok b e1)
]

-- how a binary construct gets its taint, once its left side has one
pub right_side :
    (owner_claim op : Text) (a t : Taint) (r : Node) (sc : Scope)
    → (if is_pipe op
        then taint owner_claim r (record { subject = a; variables = sc.variables })
        else (taint owner_claim r sc >>= λ b.
            if is_choice op
            then ok (either a b)
            else require_safe a >> (require_safe b >> ok safe)))
      ≡ ok t
    → ((is_pipe op ≡ true)
        × (taint owner_claim r (record { subject = a; variables = sc.variables }) ≡ ok t))
      ⊎ ((is_pipe op ≡ false)
          × ((b : Taint) × (taint owner_claim r sc ≡ ok b)
              × (((is_choice op ≡ true) × (either a b ≡ t))
                  ⊎ ((is_choice op ≡ false) × (a ≡ safe) × (b ≡ safe)))))
right_side owner_claim op a t r sc h = elim (Bool-cases (is_pipe op)) [
  | inl c ↦ inl (c, rw c at h)
  | inr c ↦
      let (b, e, h1) = >>=-eq-ok (taint owner_claim r sc) _ (rw c at h) in
      inr (c, (b, e, joined op a b t h1))
]

-- the first projection of the context
pub named_step :
    (owner_claim name : Text) (rest : Suffixes) (sc : Scope) (t : Taint)
    → (if name == codes "identity"
        then (if is_owner_only owner_claim rest then ok safe else raise token_free_error)
        else project owner_claim safe rest sc)
      ≡ ok t
    → ((name ≡ codes "identity") × (is_owner_only owner_claim rest ≡ true) × (safe ≡ t))
      ⊎ ((name ≢ codes "identity") × (project owner_claim safe rest sc ≡ ok t))
named_step owner_claim name rest sc t h = elim (Bool-cases (name == codes "identity")) [
  | inr c ↦ inr (
    (λ e. let f : name == codes "identity" ≡ true = (==_iff name (codes "identity")).1 e in cc),
    rw c at h,
  )
  | inl c ↦ elim (Bool-cases (is_owner_only owner_claim rest)) [
    | inl d ↦ inl ((==_iff name (codes "identity")).0 c, d, ok-injective (rw (c, d) at h))
    | inr d ↦ let refused : raise token_free_error ≡ ok t = rw (c, d) at h in cc
  ]
]

pub is_owner-eq :
    (owner_claim : Text) (o : Option Text) → is_owner owner_claim o ≡ true → o ≡ some owner_claim
is_owner-eq owner_claim none h = cc
is_owner-eq owner_claim (some x) h =
    let e : x ≡ owner_claim = ground (arith, h, ==_iff x owner_claim) in ap some e
