-- ===== src/AccessControl/PathCanon/Prefix.antt =====
-- Prefix tests look at whole segments.
use mathlib.Core.List.{append_assoc, append-nil}
use tai_skeleton.Base.{
  ℕ, true, ◌≡◌, ◌≢◌, ◌↔◌, ◌⊎◌, inl, inr, refl, ap, sym, ◌∙◌, List, [], ◌∷◌, ◌++◌, arith, Text,
  codes, ==_iff, nat_eq, list_eq, starts_with, All, All-append,
}
use tai_skeleton.AccessControl.PathCanon.{split_slash, join_slash, under_prefix}
use tai_skeleton.AccessControl.PathCanon.Splitting.{
  NoSlash, split_slash-NoSlash, split_slash-ne-nil, join_slash-split_slash, split_slash-join_slash,
  join_slash-append,
}
use tai_skeleton.AccessControl.PathCanon.Canonical.{IsSegment, path_of, All-NoSlash}

starts_with_iff : (s p : Text) → (starts_with s p ≡ true) ↔ ((r : Text) × (s ≡ p ++ r))
unfolding starts_with
starts_with_iff s [] = (λ _. (s, refl), λ _. refl)
starts_with_iff [] (c ∷ p) = (λ h. ground arith, λ (r, h). ground arith)
starts_with_iff (d ∷ s) (c ∷ p) =
    let (to, from) = starts_with_iff s p in
    (
      λ h. let (r, e) = to (ground arith) in (r, ground arith),
      λ (r, h). ground (arith, from (r, ground arith)),
    )

under_prefix_iff :
    (p q : Text)
    → (under_prefix p q ≡ true) ↔ ((p ≡ q) ⊎ ((r : Text) × (p ≡ (q ++ codes "/") ++ r)))
unfolding under_prefix
under_prefix_iff p q = grind (arith, ==_iff p q, starts_with_iff p (q ++ codes "/"))

-- Segment lists: a path lies under another exactly when its segments begin with the other's.
abbrev pub Extends : List Text → List Text → Type 0
Extends a b = (rest : List Text) × (a ≡ b ++ rest)

join_slash-injective :
    (a b : List Text)
    → All NoSlash a
    → All NoSlash b
    → a ≢ []
    → b ≢ []
    → join_slash a ≡ join_slash b
    → a ≡ b
join_slash-injective a b ha hb na nb e =
    sym (split_slash-join_slash a ha na) ∙ ap split_slash e ∙ split_slash-join_slash b hb nb

join_slash-nil_of_IsSegment : (a : List Text) → All IsSegment a → join_slash a ≡ [] → a ≡ []
unfolding join_slash
join_slash-nil_of_IsSegment [] h e = refl
join_slash-nil_of_IsSegment (p ∷ []) (h, _) e = absurd (h.0 e)
join_slash-nil_of_IsSegment ((c ∷ p) ∷ q ∷ ps) h e = absurd (cc)
join_slash-nil_of_IsSegment ([] ∷ q ∷ ps) (h, _) e = absurd (h.0 refl)

append-eq-nil {ℓ} : {A : Type ℓ} (xs ys : List A) → xs ++ ys ≡ [] → xs ≡ []
append-eq-nil [] ys h = refl
append-eq-nil (x ∷ xs) ys h = absurd (cc)

append-cons-ne-nil : (s r : Text) → s ++ b'/' ∷ r ≢ []
append-cons-ne-nil [] r h = cc
append-cons-ne-nil (c ∷ s) r h = cc

cons-injective : {c d : ℕ} {s t : Text} → c ∷ s ≡ d ∷ t → s ≡ t
cons-injective h = cc

join_slash-nil : join_slash [] ≡ []
unfolding join_slash
join_slash-nil = refl

-- the test passed by a longer path
Extends-of_longer :
    (a b : List Text) (r : Text)
    → All IsSegment a
    → All IsSegment b
    → b ≢ []
    → path_of a ≡ (path_of b ++ codes "/") ++ r
    → Extends a b
Extends-of_longer a b r ha hb nb e = (
  split_slash r,
  join_slash-injective a (b ++ split_slash r) (All-NoSlash a ha) clean na nbr same,
)
  where
    clean : All NoSlash (b ++ split_slash r)
    clean = All-append NoSlash b (split_slash r) (All-NoSlash b hb) (split_slash-NoSlash r)

    joined : join_slash (b ++ split_slash r) ≡ join_slash b ++ b'/' ∷ r
    joined =
        join_slash-append b (split_slash r) nb (split_slash-ne-nil r)
        ∙ ap (λ t. join_slash b ++ b'/' ∷ t) (join_slash-split_slash r)

    same : join_slash a ≡ join_slash (b ++ split_slash r)
    same = cons-injective e ∙ append_assoc (join_slash b) (codes "/") r ∙ sym joined

    nbr : b ++ split_slash r ≢ []
    nbr h = nb (append-eq-nil b (split_slash r) h)

    na : a ≢ []
    na h = append-cons-ne-nil (join_slash b) r (
        sym (append_assoc (join_slash b) (codes "/") r)
        ∙ sym (cons-injective e)
        ∙ ap join_slash h
        ∙ join_slash-nil)

starts_with-path_of :
    (b rest : List Text)
    → b ≢ []
    → rest ≢ []
    → path_of (b ++ rest) ≡ (path_of b ++ codes "/") ++ join_slash rest
starts_with-path_of b rest nb nr =
    ap (λ t. b'/' ∷ t)
      (join_slash-append b rest nb nr
        ∙ sym (append_assoc (join_slash b) (codes "/") (join_slash rest)))

under_prefix-of_Extends :
    (b rest : List Text) → b ≢ [] → under_prefix (path_of (b ++ rest)) (path_of b) ≡ true
under_prefix-of_Extends b [] nb = (under_prefix_iff _ _).1 (inl (ap path_of (append-nil b)))
under_prefix-of_Extends b (x ∷ rest) nb =
    (under_prefix_iff _ _).1
      (inr (join_slash (x ∷ rest), starts_with-path_of b (x ∷ rest) nb (λ h. cc)))

same_path :
    (a b : List Text) → All IsSegment a → All IsSegment b → b ≢ [] → path_of a ≡ path_of b → a ≡ b
same_path a b ha hb nb e =
    join_slash-injective a b (All-NoSlash a ha) (All-NoSlash b hb)
      (λ h. nb (
        join_slash-nil_of_IsSegment b hb
          (sym (cons-injective e) ∙ ap join_slash h ∙ join_slash-nil)))
      nb (cons-injective e)

-- On canonical paths the prefix test compares whole segments: a path is under a prefix other than
-- the root exactly when its segments begin with the prefix's. So "/api" guards "/api" and what
-- lies below it, and never "/apiary".
pub under_prefix-path_of_iff :
    (a b : List Text)
    → All IsSegment a
    → All IsSegment b
    → b ≢ []
    → (under_prefix (path_of a) (path_of b) ≡ true) ↔ Extends a b
under_prefix-path_of_iff a b ha hb nb = (
  λ h. elim ((under_prefix_iff (path_of a) (path_of b)).0 h) [
    | inl e ↦ ([], same_path a b ha hb nb e ∙ sym (append-nil b))
    | inr (r, e) ↦ Extends-of_longer a b r ha hb nb e
  ],
  λ (rest, e). rw e (under_prefix-of_Extends b rest nb),
)
