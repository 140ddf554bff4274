-- ===== src/Authz/TokenFree/Grammar/Postfix.antt =====
-- Terms with suffixes: fuel, and the programs that are allowed.
use tai_skeleton.Base.{
  ℕ, ◌≤◌, refl, List, [], ◌∷◌, codes, arith, elem, list_eq, nat_eq, length, token_free_error,
  require, Ensures, Ensures->>=, Ensures-if, Ensures-mono, Round, loop-Ensures,
}
use tai_skeleton.Authz.TokenFree.Syntax.{
  Node, string, Nodes, Suffix, field, optional, Suffixes, no_suffixes, suffix,
}
use tai_skeleton.Authz.TokenFree.Lexer.{
  Kind, field_token, ident_token, variable_token, number_token, string_token, format_token,
  operator_token, end_token, Interpolation,
}
use tai_skeleton.Authz.TokenFree.Parser.{
  Parsing, Rule, peek, advance, tail, at_operator, at_keyword, expect_operator, variable_of,
  named_variable_refusals,
}
use tai_skeleton.Authz.TokenFree.Parser.Progress.{
  allowed, tail-le, operator-lt, Left, Parses, IsAllowed, expect_operator-Ensures,
}
use tai_skeleton.Authz.TokenFree.Grammar.{
  holes, primary_of, bracket, suffix_round, projected, bound_body, postfix, is_field,
}
use tai_skeleton.Authz.TokenFree.Grammar.Terms.{
  AllAllowed, SuffixesAllowed, SuffixAllowed, add_suffix-SuffixesAllowed,
  no_suffixes-SuffixesAllowed, require-Ensures, field-lt, identifier-Parses, operator_term-Parses,
}

module _ (pipe alternative : Rule Node) (interpolation : Interpolation → Rule Node)
    (pipe_parses : Parses IsAllowed pipe) (alternative_parses : Parses IsAllowed alternative)
    (interpolation_parses : (h : Interpolation) → Parses IsAllowed (interpolation h)) where
  holes-Parses :
      (hs : List Interpolation) → Parses AllAllowed (holes pipe alternative interpolation hs)
  unfolding holes allowed
  holes-Parses [] s = (refl, omega arith)
  holes-Parses (h ∷ hs) s = Ensures->>= _ _ (interpolation h s) _ (interpolation_parses h s) (λ r k.
      Ensures->>= _ _ (holes pipe alternative interpolation hs r.1) _ (holes-Parses hs r.1)
        (λ q j. (ground (arith, k.0, j.0), omega arith)))

  primary_of-Parses :
      (kind : Kind) → Parses IsAllowed (primary_of pipe alternative interpolation kind)
  unfolding primary_of allowed
  primary_of-Parses field_token s = (refl, omega arith)
  primary_of-Parses string_token s =
      let le = tail-le s.tokens in
      Ensures->>= _ _ (holes pipe alternative interpolation (peek s).interpolations (advance s)) _
        (holes-Parses (peek s).interpolations (advance s))
        (λ r k. (plain_string r.0 k.0, omega arith))
    where
      plain_string :
          (ns : Nodes) → AllAllowed ns → IsAllowed (string (peek s).position (peek s).text ns)
      plain_string ns h = h
  primary_of-Parses number_token s = (refl, tail-le s.tokens)
  primary_of-Parses variable_token s =
      Ensures-if _ (elem (peek s).text named_variable_refusals) _ _ (λ _. tt)
        (λ h. (ground (arith, h), tail-le s.tokens))
  primary_of-Parses format_token s = tt
  primary_of-Parses ident_token s =
      identifier-Parses pipe alternative interpolation pipe_parses alternative_parses
        interpolation_parses s
  primary_of-Parses operator_token s =
      operator_term-Parses pipe alternative interpolation pipe_parses alternative_parses
        interpolation_parses s
  primary_of-Parses end_token s = tt

  bracket-Ensures :
      (s : Parsing)
      → Ensures
          (λ (r : Suffix × Parsing).
            SuffixAllowed r.0 × (length r.1.tokens ≤ length (tail s.tokens)))
          (bracket pipe alternative interpolation s)
  unfolding bracket allowed
  bracket-Ensures s =
      Ensures-if _ (at_operator "]" (advance s)) _ _ (λ _. (refl, tail-le (tail s.tokens)))
        (λ _. Ensures->>= _ _ (pipe (advance s)) _ (pipe_parses (advance s)) (λ r k.
          Ensures->>= _ _ (expect_operator "]" r.1) _ (expect_operator-Ensures "]" r.1)
            (λ s2 j. (k.0, omega arith))))

  suffix_round-Ensures :
      (s : Parsing) (t : Suffixes × Parsing)
      → Left SuffixesAllowed s t
      → Ensures
          (Round
            (Left SuffixesAllowed s)
            (Left SuffixesAllowed s)
            (λ (t : Suffixes × Parsing). length t.1.tokens)
            t)
          (suffix_round pipe alternative interpolation t)
  unfolding suffix_round allowed
  suffix_round-Ensures s (found, s1) k =
      Ensures-if _ (is_field (peek s1).kind) _ _
        (λ h.
          let less = field-lt s1.tokens h in
          (
            (
              add_suffix-SuffixesAllowed found (field (peek s1).position (peek s1).text) k.0 refl,
              omega arith,
            ),
            omega arith,
          ))
        (λ _.
          Ensures-if _ (at_operator "[" s1) _ _
            (λ h.
              let less = operator-lt (codes "[" ∷ []) s1 h in
              Ensures->>= _ _ (bracket pipe alternative interpolation s1) _ (bracket-Ensures s1)
                (λ r j. ((add_suffix-SuffixesAllowed found r.0 k.0 j.0, omega arith), omega arith)))
            (λ _.
              Ensures-if _ (at_operator "?" s1) _ _
                (λ h.
                  let less = operator-lt (codes "?" ∷ []) s1 h in
                  (
                    (
                      add_suffix-SuffixesAllowed found (optional (peek s1).position) k.0 refl,
                      omega arith,
                    ),
                    omega arith,
                  ))
                (λ _. k)))

  projected-IsAllowed :
      (p : ℕ) (n : Node) (ss : Suffixes)
      → IsAllowed n
      → SuffixesAllowed ss
      → IsAllowed (projected p n ss)
  unfolding allowed
  projected-IsAllowed p n no_suffixes h k = h
  projected-IsAllowed p n (suffix s ss) h k = ground (arith, h, k)

  bound_body-Parses :
      (n : Node) → IsAllowed n → Parses IsAllowed (bound_body pipe alternative interpolation n)
  unfolding bound_body allowed
  bound_body-Parses n h s =
      Ensures-if _ (at_keyword "as" s) _ _
        (λ a.
          let le = tail-le s.tokens in
          let le2 = tail-le (tail s.tokens) in
          Ensures->>= _ _
            (require (variable_of (peek (advance s)).kind (peek (advance s)).text) token_free_error)
            _ (require-Ensures _)
            (λ name _.
              Ensures->>= _ _ (expect_operator "|" (advance (advance s))) _
                (expect_operator-Ensures "|" (advance (advance s)))
                (λ s1 i.
                  Ensures->>= _ _ (pipe s1) _ (pipe_parses s1)
                    (λ r k. (ground (arith, h, k.0), omega arith)))))
        (λ _. (h, omega arith))

  pub postfix-Parses : Parses IsAllowed (postfix pipe alternative interpolation)
  unfolding postfix
  postfix-Parses s =
      Ensures->>= _ _ (primary_of pipe alternative interpolation (peek s).kind s) _
        (primary_of-Parses (peek s).kind s)
        (λ r k.
          Ensures->>= (Left SuffixesAllowed r.1) _ _ _
            (loop-Ensures _ _ (λ (t : Suffixes × Parsing). length t.1.tokens)
              (suffix_round pipe alternative interpolation) (suffix_round-Ensures r.1) _ _
              (omega arith) (no_suffixes-SuffixesAllowed, omega arith))
            (λ q j.
              Ensures-mono (Left IsAllowed q.1) (Left IsAllowed s) _
                (bound_body-Parses (projected (peek s).position r.0 q.0)
                  (projected-IsAllowed (peek s).position r.0 q.0 k.0 j.0) q.1)
                (λ x i. (i.0, omega arith))))
