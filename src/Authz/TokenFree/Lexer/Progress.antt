-- ===== src/Authz/TokenFree/Lexer/Progress.antt =====
-- The fuel of the lexer: the position in the text from round to round.
use tai_skeleton.Base.{
  ℕ, zero, suc, ◌+◌, ◌-◌, ◌≤◌, ◌<◌, Bool, true, false, ◌&&◌, not, ◌≡◌, inl, inr, refl, Option, none,
  some, List, [], ◌∷◌, Text, arith, all, subst, eqb, ltb, length, drop, take, lookup, starts_with,
  is_empty, Bool-cases, List-cases, nat_eq, Result, token_free_error, require, raise_if, Ensures,
  Ensures->>=, Ensures-if, Round, loop-Ensures,
}
use tai_skeleton.Authz.TokenFree.Characters.{
  char_at, first_char, is_ident_char, string_escapes, first_operator, operators, number_length,
  prefix_length, is_digit, is_ident_start,
}
use tai_skeleton.Authz.TokenFree.Lexer.{
  Token, Literal, Hole, Lexing, escaped, string_round, hole_round, lex_string, scan_interpolation,
  lex_token, emit, add_token, lex_round, lex,
}

raise_if-Ensures : (b : Bool) → Ensures (λ _. Unit {0}) (raise_if b token_free_error)
raise_if-Ensures true = tt
raise_if-Ensures false = tt

Ensures-require :
    {A : Type 0} (o : Option A) → Ensures (λ a. o ≡ some a) (require o token_free_error)
Ensures-require none = tt
Ensures-require (some a) = refl

char_at-lt : (text : Text) (i : ℕ) (c : ℕ) → char_at text i ≡ some c → i < length text
unfolding drop
char_at-lt [] zero c h = cc
char_at-lt [] (suc i) c h = cc
char_at-lt (x ∷ xs) zero c h = omega arith
char_at-lt (x ∷ xs) (suc i) c h = omega (arith, char_at-lt xs i c h)

module _ (text : Text) where
  string_round-Ensures :
      (scan : ℕ → Result ℕ) (start : ℕ)
      → ((i : ℕ) → Ensures (λ j. i ≤ j) (scan i))
      → (s : Literal) → start < s.index
      → Ensures
          (Round
            (λ (l : Literal). start < l.index)
            (λ (r : Token × ℕ). start < r.1)
            (λ l. length text - l.index)
            s)
          (string_round text scan start s)
  unfolding string_round escaped
  string_round-Ensures scan start scans s h =
      Ensures->>= _ _ (require (char_at text s.index) token_free_error) _ (Ensures-require _)
        (λ c found.
          let inside = char_at-lt text s.index c found in
          Ensures-if _ (eqb c b'"') _ _ (λ _. omega arith)
            (λ _.
              Ensures-if _ (eqb c 0x5C) _ _
                (λ _.
                  Ensures->>= _ _ (require (char_at text (s.index + 1)) token_free_error) _
                    (Ensures-require _)
                    (λ e _.
                      Ensures-if _ (eqb e b'(') _ _
                        (λ _.
                          Ensures->>= _ _ (scan (s.index + 2)) _ (scans (s.index + 2))
                            (λ j k. omega arith))
                        (λ _.
                          Ensures->>= _ _ (require (lookup e string_escapes) token_free_error) _
                            (Ensures-require _) (λ d _. omega arith))))
                (λ _. omega arith)))

  hole_round-Ensures :
      (lexs : ℕ → Result (Token × ℕ)) (start : ℕ)
      → ((i : ℕ) → Ensures (λ (r : Token × ℕ). i < r.1) (lexs i))
      → (s : Hole) → start ≤ s.index
      → Ensures
          (Round
            (λ (l : Hole). start ≤ l.index)
            (λ (j : ℕ). start ≤ j)
            (λ l. length text - l.index)
            s)
          (hole_round text lexs s)
  unfolding hole_round
  hole_round-Ensures lexs start lexes s h =
      Ensures->>= _ _ (require (char_at text s.index) token_free_error) _ (Ensures-require _)
        (λ c found.
          let inside = char_at-lt text s.index c found in
          Ensures-if _ (eqb c b'"') _ _
            (λ _. Ensures->>= _ _ (lexs s.index) _ (lexes s.index) (λ r k. omega arith))
            (λ _. ground (arith, inside)))

  mutual
    unfolding lex_string

    pub lex_string-Ensures :
        (levels start : ℕ) → Ensures (λ (r : Token × ℕ). start < r.1) (lex_string text levels start)
    lex_string-Ensures zero start = tt
    lex_string-Ensures (suc levels) start =
        loop-Ensures _ _ (λ l. length text - l.index) _
          (string_round-Ensures (scan_interpolation text levels) start
            (scan_interpolation-Ensures levels))
          (suc (length text)) _ (omega arith) (omega arith)

    pub scan_interpolation-Ensures :
        (levels start : ℕ) → Ensures (λ j. start ≤ j) (scan_interpolation text levels start)
    scan_interpolation-Ensures zero start = tt
    scan_interpolation-Ensures (suc levels) start =
        loop-Ensures _ _ (λ l. length text - l.index) _
          (hole_round-Ensures (lex_string text levels) start (lex_string-Ensures levels))
          (suc (length text)) _ (omega arith) (omega arith)

-- An operator that is found has a character.
first_operator-nonempty :
    (ops : List Text) (s op : Text)
    → all (λ o. ltb 0 (length o)) ops ≡ true
    → first_operator ops s ≡ some op
    → 0 < length op
unfolding first_operator all
first_operator-nonempty [] s op h k = cc
first_operator-nonempty (o ∷ ops) s op h k = elim (Bool-cases (starts_with s o)) [
  | inl e ↦
      let same : o ≡ op = let g : some o ≡ some op = rw e at k in cc in
      subst (λ x. 0 < length x) same (ground arith)
  | inr e ↦ first_operator-nonempty ops s op (ground arith) (rw e at k)
]

operators-nonempty : all (λ o. ltb 0 (length o)) operators ≡ true
unfolding all
operators-nonempty = refl

number_length-pos : (c : ℕ) (cs : Text) → is_digit c ≡ true → 0 < number_length (c ∷ cs)
unfolding number_length prefix_length
number_length-pos c cs h = rw h (omega arith)

module _ (text : Text) where
  lex_token-Ensures :
      (levels index c : ℕ) (cs : Text)
      → Ensures (λ (r : Option Token × ℕ). index < r.1) (lex_token text levels index c cs)
  unfolding lex_token
  lex_token-Ensures levels index c cs =
      Ensures-if _ (eqb c b' ') _ _ (λ _. omega arith)
        (λ _.
          Ensures-if _ (eqb c b'"') _ _
            (λ _.
              Ensures->>= _ _ (lex_string text levels index) _
                (lex_string-Ensures text levels index) (λ r k. k))
            (λ _.
              Ensures-if _ (eqb c b'$') _ _
                (λ _.
                  Ensures-if _ (eqb (prefix_length is_ident_char cs) 0) _ _ (λ _. tt)
                    (λ _. omega arith))
                (λ _.
                  Ensures-if _ (eqb c b'@') _ _ (λ _. omega arith)
                    (λ _.
                      Ensures-if _ (is_digit c) _ _
                        (λ d. let p = number_length-pos c cs d in omega arith)
                        (λ _.
                          Ensures-if _ (is_ident_start c) _ _ (λ _. omega arith)
                            (λ _.
                              Ensures-if _ (eqb c b'.' && is_ident_start (first_char cs)) _ _
                                (λ _. omega arith)
                                (λ _.
                                  Ensures-if _ (eqb c b'.' && eqb (first_char cs) b'"') _ _
                                    (λ _.
                                      Ensures->>= _ _ (lex_string text levels (index + 1)) _
                                        (lex_string-Ensures text levels (index + 1))
                                        (λ r k.
                                          Ensures->>= (λ _. Unit {0}) _
                                            (raise_if (not (is_empty r.0.interpolations))
                                              token_free_error)
                                            _ (raise_if-Ensures _) (λ _ _. omega arith)))
                                    (λ _.
                                      Ensures->>= _ _
                                        (require (first_operator operators (drop index text))
                                          token_free_error)
                                        _ (Ensures-require _)
                                        (λ op found.
                                          let p =
                                            first_operator-nonempty operators (drop index text) op
                                              operators-nonempty found in
                                          omega arith)))))))))

  lt-of_take : (n i c : ℕ) (s cs : Text) → take n (drop i s) ≡ c ∷ cs → i < length s
  unfolding take drop
  lt-of_take zero i c s cs h = cc
  lt-of_take (suc n) zero c [] cs h = cc
  lt-of_take (suc n) zero c (x ∷ s) cs h = omega arith
  lt-of_take (suc n) (suc i) c [] cs h = cc
  lt-of_take (suc n) (suc i) c (x ∷ s) cs h = omega (arith, lt-of_take (suc n) i c s cs h)

  emit-Ensures :
      (s : Lexing) (token : Token) (after : ℕ)
      → Ensures (λ (l : Lexing). (l.index ≡ after) × (l.spent ≤ 256)) (emit s token after)
  unfolding emit
  emit-Ensures s token after =
      Ensures-if _ (ltb 256 (s.spent + 1)) _ _ (λ _. tt) (λ h. (refl, ground (arith, h)))

  lex_round-Ensures :
      (levels stop : ℕ) (s : Lexing)
      → Ensures
          (Round
            (λ (l : Lexing). Unit {0})
            (λ (l : Lexing). l.spent ≤ 256)
            (λ l. length text - l.index)
            s)
          (lex_round text levels stop s)
  unfolding lex_round add_token
  lex_round-Ensures levels stop s = elim (List-cases (take (stop - s.index) (drop s.index text))) [
    | inl e ↦
        rw (e, lex_round)
          (Ensures->>= _ _ (emit s _ s.index) _ (emit-Ensures s _ s.index) (λ l k. k.1))
    | inr (c, cs, e) ↦
        let inside = lt-of_take (stop - s.index) s.index c text cs e in
        rw (e, lex_round)
          (Ensures->>= _ _ (lex_token text levels s.index c cs) _
            (lex_token-Ensures levels s.index c cs) (λ r k. add_token-Ensures s r.0 r.1 inside k))
  ]
    where
      add_token-Ensures :
          (s : Lexing) (found : Option Token) (after : ℕ)
          → s.index < length text
          → s.index < after
          → Ensures
              (Round
                (λ (l : Lexing). Unit {0})
                (λ (l : Lexing). l.spent ≤ 256)
                (λ l. length text - l.index)
                s)
              (add_token s found after)
      add_token-Ensures s none after h k = (tt, omega arith)
      add_token-Ensures s (some token) after h k =
          Ensures->>= _ _ (emit s token after) _ (emit-Ensures s token after)
            (λ l e. (tt, omega arith))

  -- what is lexed is within the token budget
  pub lex-Ensures :
      (levels spent start stop : ℕ)
      → Ensures (λ (l : Lexing). l.spent ≤ 256) (lex text levels spent start stop)
  unfolding lex
  lex-Ensures levels spent start stop =
      loop-Ensures (λ l. Unit {0}) _ (λ l. length text - l.index) _
        (λ s _. lex_round-Ensures levels stop s) (suc (length text)) _ (omega arith) tt
