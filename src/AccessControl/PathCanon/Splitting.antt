-- ===== src/AccessControl/PathCanon/Splitting.antt =====
-- Splitting at slashes and joining again, and what that does to the tests on characters.
use mathlib.Core.List.{append_assoc}
use tai_skeleton.Base.{
  ℕ, ◌||◌, ◌≡◌, ◌≢◌, refl, ap, sym, ◌∙◌, List, [], ◌∷◌, ◌++◌, arith, Text, eqb, any, any-append,
  All, Bool-cases, inl, inr,
}
use tai_skeleton.AccessControl.PathCanon.{
  is_hex, has_residual_escape, is_bad_byte, onto_first, split_slash, join_slash,
}

abbrev pub NoSlash : Text → Type 0
NoSlash [] = Unit
NoSlash (c ∷ s) = (c ≢ b'/') × NoSlash s

onto_first-NoSlash :
    (c : ℕ) (ps : List Text) → c ≢ b'/' → All NoSlash ps → All NoSlash (onto_first c ps)
onto_first-NoSlash c [] h k = ((h, tt), tt)
onto_first-NoSlash c (p ∷ ps) h (k, ks) = ((h, k), ks)

pub split_slash-NoSlash : (s : Text) → All NoSlash (split_slash s)
unfolding split_slash
split_slash-NoSlash [] = (tt, tt)
split_slash-NoSlash (c ∷ s) = elim (Bool-cases (eqb c b'/')) [
  | inl e ↦ rw e (tt, split_slash-NoSlash s)
  | inr e ↦ rw e (onto_first-NoSlash c (split_slash s) (ground arith) (split_slash-NoSlash s))
]

pub split_slash-ne-nil : (s : Text) → split_slash s ≢ []
unfolding split_slash
split_slash-ne-nil [] h = ground arith
split_slash-ne-nil (c ∷ s) h = ground arith

join_slash-onto_first :
    (c : ℕ) (ps : List Text) → ps ≢ [] → join_slash (onto_first c ps) ≡ c ∷ join_slash ps
unfolding join_slash
join_slash-onto_first c [] h = absurd (h refl)
join_slash-onto_first c (p ∷ []) h = refl
join_slash-onto_first c (p ∷ q ∷ ps) h = refl

pub join_slash-cons :
    (p : Text) (ps : List Text) → ps ≢ [] → join_slash (p ∷ ps) ≡ p ++ b'/' ∷ join_slash ps
unfolding join_slash
join_slash-cons p [] h = absurd (h refl)
join_slash-cons p (q ∷ ps) h = refl

pub join_slash-split_slash : (s : Text) → join_slash (split_slash s) ≡ s
unfolding split_slash
join_slash-split_slash [] = unfold join_slash in refl
join_slash-split_slash (c ∷ s) = elim (Bool-cases (eqb c b'/')) [
  | inl e ↦ ground (
    arith,
    e,
    join_slash-cons [] (split_slash s) (split_slash-ne-nil s),
    join_slash-split_slash s,
  )
  | inr e ↦ ground (
    arith,
    e,
    join_slash-onto_first c (split_slash s) (split_slash-ne-nil s),
    join_slash-split_slash s,
  )
]

split_slash-append_slash :
    (p s : Text) → NoSlash p → split_slash (p ++ b'/' ∷ s) ≡ p ∷ split_slash s
unfolding split_slash
split_slash-append_slash [] s h = refl
split_slash-append_slash (c ∷ p) s (h, k) = ground (arith, split_slash-append_slash p s k)

split_slash-of_NoSlash : (p : Text) → NoSlash p → split_slash p ≡ p ∷ []
unfolding split_slash
split_slash-of_NoSlash [] h = refl
split_slash-of_NoSlash (c ∷ p) (h, k) = ground (arith, split_slash-of_NoSlash p k)

pub split_slash-join_slash :
    (ps : List Text) → All NoSlash ps → ps ≢ [] → split_slash (join_slash ps) ≡ ps
unfolding join_slash
split_slash-join_slash [] h e = absurd (e refl)
split_slash-join_slash (p ∷ []) (h, _) e = split_slash-of_NoSlash p h
split_slash-join_slash (p ∷ q ∷ ps) (h, k) e =
    split_slash-append_slash p (join_slash (q ∷ ps)) h
    ∙ ap (λ l. p ∷ l) (split_slash-join_slash (q ∷ ps) k (λ x. ground arith))

pub join_slash-append :
    (ps qs : List Text)
    → ps ≢ []
    → qs ≢ []
    → join_slash (ps ++ qs) ≡ join_slash ps ++ b'/' ∷ join_slash qs
join_slash-append [] qs e f = absurd (e refl)
join_slash-append (p ∷ []) qs e f = unfold join_slash in join_slash-cons p qs f
join_slash-append (p ∷ q ∷ ps) qs e f = rw (join_slash-cons p (q ∷ ps ++ qs) (λ x. ground arith)) (
    rw (join_slash-cons p (q ∷ ps) (λ x. ground arith)) (
      rw (join_slash-append (q ∷ ps) qs (λ x. ground arith) f)
        (sym (append_assoc p (b'/' ∷ join_slash (q ∷ ps)) (b'/' ∷ join_slash qs)))))

pub has_residual_escape-slash_front :
    (s : Text) → has_residual_escape (b'/' ∷ s) ≡ has_residual_escape s
unfolding has_residual_escape
has_residual_escape-slash_front [] = refl
has_residual_escape-slash_front (a ∷ []) = refl
has_residual_escape-slash_front (a ∷ b ∷ s) = refl

-- A residual escape lies within one segment: the slash is neither a percent sign nor a digit.
has_residual_escape-slash :
    (p s : Text)
    → has_residual_escape (p ++ b'/' ∷ s) ≡ (has_residual_escape p || has_residual_escape s)
unfolding has_residual_escape is_hex
has_residual_escape-slash [] s = has_residual_escape-slash_front s
has_residual_escape-slash (a ∷ []) [] = refl
has_residual_escape-slash (a ∷ []) (x ∷ s) = ground (arith, has_residual_escape-slash_front (x ∷ s))
has_residual_escape-slash (a ∷ b ∷ []) [] = ground arith
has_residual_escape-slash (a ∷ b ∷ []) (x ∷ s) =
    ground (arith, has_residual_escape-slash_front (x ∷ s))
has_residual_escape-slash (a ∷ b ∷ c ∷ p) s =
    ground (arith, has_residual_escape-slash (b ∷ c ∷ p) s)

pub has_residual_escape-join_slash :
    (ps : List Text) → has_residual_escape (join_slash ps) ≡ any has_residual_escape ps
unfolding join_slash any
has_residual_escape-join_slash [] = unfold has_residual_escape in refl
has_residual_escape-join_slash (p ∷ []) = ground arith
has_residual_escape-join_slash (p ∷ q ∷ ps) =
    has_residual_escape-slash p (join_slash (q ∷ ps))
    ∙ ap (λ b. has_residual_escape p || b) (has_residual_escape-join_slash (q ∷ ps))

is_bad_byte-slash :
    (p s : Text) → any is_bad_byte (p ++ b'/' ∷ s) ≡ (any is_bad_byte p || any is_bad_byte s)
is_bad_byte-slash p s = any-append is_bad_byte p (b'/' ∷ s) ∙ (unfold any is_bad_byte in refl)

pub is_bad_byte-join_slash :
    (ps : List Text) → any is_bad_byte (join_slash ps) ≡ any (any is_bad_byte) ps
unfolding join_slash any
is_bad_byte-join_slash [] = refl
is_bad_byte-join_slash (p ∷ []) = ground arith
is_bad_byte-join_slash (p ∷ q ∷ ps) =
    is_bad_byte-slash p (join_slash (q ∷ ps))
    ∙ ap (λ b. any is_bad_byte p || b) (is_bad_byte-join_slash (q ∷ ps))
