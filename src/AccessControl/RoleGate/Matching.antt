-- ===== src/AccessControl/RoleGate/Matching.antt =====
-- Template matching decides an inductive relation: how a path is made of a template's parts.
use tai_skeleton.Base.{
  ℕ, true, ◌≡◌, ◌≢◌, ◌↔◌, ◌⊎◌, inl, inr, refl, subst, List, [], ◌∷◌, Text, arith,
}
use tai_skeleton.AccessControl.RoleGate.{Token, lit, segment, rest, fullmatch}

-- A literal takes its character, `{name}` one or more characters of one segment, `{name:path}` one
-- or more characters of any kind but a line feed.
pub data Matches : List Token → Text → Type 0 where
  done : Matches [] []
  take_lit : (a : ℕ) {ts : List Token} {s : Text} → Matches ts s → Matches (lit a ∷ ts) (a ∷ s)
  last_of_segment :
      (c : ℕ) {ts : List Token} {s : Text}
      → c ≢ b'/'
      → Matches ts s
      → Matches (segment ∷ ts) (c ∷ s)
  more_of_segment :
      (c : ℕ) {ts : List Token} {s : Text}
      → c ≢ b'/'
      → Matches (segment ∷ ts) s
      → Matches (segment ∷ ts) (c ∷ s)
  last_of_rest :
      (c : ℕ) {ts : List Token} {s : Text} → c ≢ 0x0A → Matches ts s → Matches (rest ∷ ts) (c ∷ s)
  more_of_rest :
      (c : ℕ) {ts : List Token} {s : Text}
      → c ≢ 0x0A
      → Matches (rest ∷ ts) s
      → Matches (rest ∷ ts) (c ∷ s)

fullmatch_complete : {ts : List Token} {s : Text} → Matches ts s → fullmatch ts s ≡ true
unfolding fullmatch
fullmatch_complete done = refl
fullmatch_complete (take_lit a m) = ground (arith, fullmatch_complete m)
fullmatch_complete (last_of_segment c h m) = ground (arith, fullmatch_complete m)
fullmatch_complete (more_of_segment c h m) = ground (arith, fullmatch_complete m)
fullmatch_complete (last_of_rest c h m) = ground (arith, fullmatch_complete m)
fullmatch_complete (more_of_rest c h m) = ground (arith, fullmatch_complete m)

lit_cases :
    (a : ℕ) (ts : List Token) (c : ℕ) (s : Text)
    → fullmatch (lit a ∷ ts) (c ∷ s) ≡ true
    → (a ≡ c) × (fullmatch ts s ≡ true)
unfolding fullmatch
lit_cases a ts c s h = ground arith

segment_cases :
    (ts : List Token) (c : ℕ) (s : Text)
    → fullmatch (segment ∷ ts) (c ∷ s) ≡ true
    → (c ≢ b'/') × ((fullmatch ts s ≡ true) ⊎ (fullmatch (segment ∷ ts) s ≡ true))
unfolding fullmatch
segment_cases ts c s h = ground arith

rest_cases :
    (ts : List Token) (c : ℕ) (s : Text)
    → fullmatch (rest ∷ ts) (c ∷ s) ≡ true
    → (c ≢ 0x0A) × ((fullmatch ts s ≡ true) ⊎ (fullmatch (rest ∷ ts) s ≡ true))
unfolding fullmatch
rest_cases ts c s h = ground arith

fullmatch_sound : (ts : List Token) (s : Text) → fullmatch ts s ≡ true → Matches ts s
fullmatch_sound [] [] h = done
fullmatch_sound [] (c ∷ s) h = absurd (unfold fullmatch in cc)
fullmatch_sound (t ∷ ts) [] h = absurd (unfold fullmatch in cc)
fullmatch_sound (lit a ∷ ts) (c ∷ s) h =
    let (same, e) = lit_cases a ts c s h in
    subst (λ d. Matches (lit a ∷ ts) (d ∷ s)) same (take_lit a (fullmatch_sound ts s e))
fullmatch_sound (segment ∷ ts) (c ∷ s) h =
    let (p, alt) = segment_cases ts c s h in
    elim alt [
      | inl e ↦ last_of_segment c p (fullmatch_sound ts s e)
      | inr e ↦ more_of_segment c p (fullmatch_sound (segment ∷ ts) s e)
    ]
fullmatch_sound (rest ∷ ts) (c ∷ s) h =
    let (p, alt) = rest_cases ts c s h in
    elim alt [
      | inl e ↦ last_of_rest c p (fullmatch_sound ts s e)
      | inr e ↦ more_of_rest c p (fullmatch_sound (rest ∷ ts) s e)
    ]

-- The matcher accepts a path exactly when the path is made of the template's parts in order.
pub fullmatch_iff : (ts : List Token) (s : Text) → (fullmatch ts s ≡ true) ↔ Matches ts s
fullmatch_iff ts s = (fullmatch_sound ts s, fullmatch_complete)
