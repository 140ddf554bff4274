-- ===== src/Authz/TokenFree/Grammar/Progress.antt =====
-- The nested rules: fuel, and the programs that are allowed.
use tai_skeleton.Base.{
  ℕ, zero, suc, Text, arith, list_eq, nat_eq, length, ok, raise, token_free_error, Ensures,
  Ensures->>=, Ensures-if,
}
use tai_skeleton.Authz.TokenFree.Syntax.{Node}
use tai_skeleton.Authz.TokenFree.Lexer.{Kind, end_token, Interpolation, lex}
use tai_skeleton.Authz.TokenFree.Lexer.Progress.{lex-Ensures}
use tai_skeleton.Authz.TokenFree.Parser.{
  Parsing, Rule, peek, advance, at_operator, at_keyword, disjunction, sequence,
}
use tai_skeleton.Authz.TokenFree.Parser.Progress.{
  allowed, tail-le, Left, Parses, IsAllowed, disjunction-Parses, sequence-Parses,
}
use tai_skeleton.Authz.TokenFree.Grammar.{whole, pipe, alternative, unary, interpolation, program}
use tai_skeleton.Authz.TokenFree.Grammar.Postfix.{postfix-Parses}

whole-Parses : (rule : Rule Node) → Parses IsAllowed rule → Parses IsAllowed (whole rule)
unfolding whole
whole-Parses rule parses s = Ensures->>= _ _ (rule s) _ (parses s) (λ r k. last r k (peek r.1).kind)
  where
    last :
        (r : Node × Parsing)
        → Left IsAllowed s r
        → (kind : Kind)
        → Ensures
            (Left IsAllowed s)
            (elim kind [ end_token ↦ ok (r.0, r.1) | _ ↦ raise token_free_error ])
    last r k end_token = k
    last r k _ = tt

module _ (text : Text) where
  mutual
    unfolding pipe allowed

    pipe-Parses : (levels : ℕ) → Parses IsAllowed (pipe text levels)
    pipe-Parses zero s = tt
    pipe-Parses (suc levels) s =
        Ensures->>= _ _ (sequence (alternative text levels) s) _
          (sequence-Parses (alternative text levels) (alternative-Parses levels) s)
          (λ r k.
            Ensures-if _ (at_operator "|" r.1) _ _
              (λ h.
                let le = tail-le r.1.tokens in
                Ensures->>= _ _ (pipe text levels (advance r.1)) _
                  (pipe-Parses levels (advance r.1))
                  (λ q j. (ground (arith, k.0, j.0), omega arith)))
              (λ _. k))

    alternative-Parses : (levels : ℕ) → Parses IsAllowed (alternative text levels)
    alternative-Parses zero s = tt
    alternative-Parses (suc levels) s =
        Ensures->>= _ _ (disjunction (unary text levels) s) _
          (disjunction-Parses (unary text levels) (unary-Parses levels) s)
          (λ r k.
            Ensures-if _ (at_operator "//" r.1) _ _
              (λ h.
                let le = tail-le r.1.tokens in
                Ensures->>= _ _ (alternative text levels (advance r.1)) _
                  (alternative-Parses levels (advance r.1))
                  (λ q j. (ground (arith, k.0, j.0), omega arith)))
              (λ _. k))

    unary-Parses : (levels : ℕ) → Parses IsAllowed (unary text levels)
    unary-Parses zero s = tt
    unary-Parses (suc levels) s =
        let le = tail-le s.tokens in
        Ensures-if _ (at_operator "-" s) _ _
          (λ _.
            Ensures->>= _ _ (unary text levels (advance s)) _ (unary-Parses levels (advance s))
              (λ q j. (j.0, omega arith)))
          (λ _.
            Ensures-if _ (at_keyword "try" s) _ _
              (λ _.
                Ensures->>= _ _ (unary text levels (advance s)) _ (unary-Parses levels (advance s))
                  (λ r k.
                    Ensures-if _ (at_keyword "catch" r.1) _ _
                      (λ _.
                        let le2 = tail-le r.1.tokens in
                        Ensures->>= _ _ (unary text levels (advance r.1)) _
                          (unary-Parses levels (advance r.1))
                          (λ q j. (ground (arith, k.0, j.0), omega arith)))
                      (λ _. (k.0, omega arith))))
              (λ _.
                postfix-Parses (pipe text levels) (alternative text levels)
                  (interpolation text levels) (pipe-Parses levels) (alternative-Parses levels)
                  (interpolation-Parses levels) s))

    interpolation-Parses :
        (levels : ℕ) (h : Interpolation) → Parses IsAllowed (interpolation text levels h)
    interpolation-Parses zero h s = tt
    interpolation-Parses (suc levels) h s =
        Ensures->>= _ _ (lex text levels s.spent h.start h.end) _
          (lex-Ensures text levels s.spent h.start h.end)
          (λ l k.
            Ensures->>= _ _
              (whole (pipe text levels) (record { tokens = l.tokens; spent = l.spent })) _
              (whole-Parses (pipe text levels) (pipe-Parses levels)
                (record { tokens = l.tokens; spent = l.spent }))
              (λ r j. (j.0, omega arith)))

  -- The scan of a condition ends, with a refusal or with a program that is allowed: no loop of it wants
  -- more rounds than the text has characters, or the tokens that are left are.
  pub program-Ensures : Ensures IsAllowed (program text)
  unfolding program
  program-Ensures =
      Ensures->>= _ _ (lex text 32 0 0 (length text)) _ (lex-Ensures text 32 0 0 (length text))
        (λ l k.
          Ensures->>= _ _ (whole (pipe text 32) (record { tokens = l.tokens; spent = l.spent })) _
            (whole-Parses (pipe text 32) (pipe-Parses 32)
              (record { tokens = l.tokens; spent = l.spent }))
            (λ r j. j.0))
