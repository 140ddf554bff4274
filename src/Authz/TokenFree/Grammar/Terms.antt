-- ===== src/Authz/TokenFree/Grammar/Terms.antt =====
-- The terms of a condition: fuel, and the programs that are allowed.
use tai_skeleton.Base.{
  ℕ, ◌≤◌, ◌<◌, true, ◌≡◌, refl, Option, none, some, List, [], ◌∷◌, String, Text, codes, arith, elem,
  list_eq, nat_eq, lookup, length, ok, token_free_error, ◌>>=◌, require, Ensures, Ensures->>=,
  Ensures-if, Round, loop-Ensures,
}
use tai_skeleton.Authz.TokenFree.Syntax.{
  Node, object, array, Nodes, no_nodes, node, Suffix, Suffixes, no_suffixes, suffix,
}
use tai_skeleton.Authz.TokenFree.Lexer.{Interpolation, Token}
use tai_skeleton.Authz.TokenFree.Parser.{
  Parsing, Rule, peek, peek_in, advance, tail, at_operator, expect_operator, add_node, add_suffix,
  count_nodes, builtin_arities, keyword_literals, named_refusals,
}
use tai_skeleton.Authz.TokenFree.Parser.Progress.{
  is_builtin, allowed, allowed_all, allowed_suffix, allowed_suffixes, tail-le, operator-lt, Left,
  Parses, IsAllowed, expect_operator-Ensures,
}
use tai_skeleton.Authz.TokenFree.Grammar.{
  argument_round, arguments, identifier, value_round, values, operator_term, is_static_key,
  is_field,
}

abbrev pub AllAllowed : Nodes → Type 0
AllAllowed ns = allowed_all ns ≡ true

abbrev pub SuffixesAllowed : Suffixes → Type 0
SuffixesAllowed ss = allowed_suffixes ss ≡ true

abbrev pub SuffixAllowed : Suffix → Type 0
SuffixAllowed s = allowed_suffix s ≡ true

pub add_node-AllAllowed :
    (ns : Nodes) (n : Node) → AllAllowed ns → IsAllowed n → AllAllowed (add_node ns n)
unfolding add_node allowed
add_node-AllAllowed no_nodes n h k = ground (arith, k)
add_node-AllAllowed (node m ms) n h k =
    ground (arith, h, add_node-AllAllowed ms n (ground (arith, h)) k)

pub add_suffix-SuffixesAllowed :
    (ss : Suffixes) (s : Suffix)
    → SuffixesAllowed ss
    → SuffixAllowed s
    → SuffixesAllowed (add_suffix ss s)
unfolding add_suffix allowed
add_suffix-SuffixesAllowed no_suffixes s h k = ground (arith, k)
add_suffix-SuffixesAllowed (suffix r rs) s h k =
    ground (arith, h, add_suffix-SuffixesAllowed rs s (ground (arith, h)) k)

is_builtin-found :
    (name : Text) (n : ℕ) (arities : List ℕ)
    → lookup name builtin_arities ≡ some arities
    → elem n arities ≡ true
    → is_builtin name n ≡ true
is_builtin-found name n arities found h = rw (found, is_builtin) h

pub no_suffixes-SuffixesAllowed : SuffixesAllowed no_suffixes
unfolding allowed
no_suffixes-SuffixesAllowed = refl

pub require-Ensures :
    {A : Type 0} (o : Option A) → Ensures (λ a. o ≡ some a) (require o token_free_error)
require-Ensures none = tt
require-Ensures (some a) = refl

pub field-lt : (ts : List Token) → is_field (peek_in ts).kind ≡ true → length (tail ts) < length ts
field-lt [] h = cc
field-lt (t ∷ ts) h = omega arith

module _ (pipe alternative : Rule Node) (interpolation : Interpolation → Rule Node)
    (pipe_parses : Parses IsAllowed pipe) (alternative_parses : Parses IsAllowed alternative)
    (interpolation_parses : (h : Interpolation) → Parses IsAllowed (interpolation h)) where
  argument_round-Ensures :
      (s : Parsing) (t : Nodes × Parsing)
      → Left AllAllowed s t
      → Ensures
          (Round
            (Left AllAllowed s)
            (Left AllAllowed s)
            (λ (t : Nodes × Parsing). length t.1.tokens)
            t)
          (argument_round pipe alternative interpolation t)
  unfolding argument_round
  argument_round-Ensures s (given, s1) k = Ensures->>= _ _ (pipe s1) _ (pipe_parses s1) (λ r j.
      let added = add_node-AllAllowed given r.0 k.0 j.0 in
      Ensures-if _ (at_operator ";" r.1) _ _
        (λ h. let less = operator-lt (codes ";" ∷ []) r.1 h in ((added, omega arith), omega arith))
        (λ _. (added, omega arith)))

  arguments-Parses : Parses AllAllowed (arguments pipe alternative interpolation)
  unfolding arguments allowed
  arguments-Parses s =
      Ensures-if _ (at_operator "(" s) _ _
        (λ h.
          let less = operator-lt (codes "(" ∷ []) s h in
          Ensures->>= (Left AllAllowed (advance s)) _ _ _
            (loop-Ensures _ _ (λ (t : Nodes × Parsing). length t.1.tokens)
              (argument_round pipe alternative interpolation) (argument_round-Ensures (advance s)) _
              _ (omega arith) (refl, omega arith))
            (λ r k.
              Ensures->>= _ _ (expect_operator ")" r.1) _ (expect_operator-Ensures ")" r.1)
                (λ s2 j. (k.0, omega arith))))
        (λ _. (refl, omega arith))

  pub identifier-Parses : Parses IsAllowed (identifier pipe alternative interpolation)
  unfolding identifier allowed
  identifier-Parses s =
      let le = tail-le s.tokens in
      Ensures-if _ (elem (peek s).text keyword_literals) _ _ (λ _. (refl, le))
        (λ _.
          Ensures-if _ (elem (peek s).text named_refusals) _ _ (λ _. tt)
            (λ _.
              Ensures->>= _ _ (arguments pipe alternative interpolation (advance s)) _
                (arguments-Parses (advance s))
                (λ r k.
                  Ensures->>= _ _ (require (lookup (peek s).text builtin_arities) token_free_error)
                    _ (require-Ensures _)
                    (λ arities found.
                      Ensures-if _ (elem (count_nodes r.0) arities) _ _
                        (λ h.
                          let b =
                            is_builtin-found (peek s).text (count_nodes r.0) arities found h in
                          (ground (arith, b, k.0), omega arith))
                        (λ _. tt)))))

  value_round-Ensures :
      (s : Parsing) (t : Nodes × Parsing)
      → Left AllAllowed s t
      → Ensures
          (Round
            (Left AllAllowed s)
            (Left AllAllowed s)
            (λ (t : Nodes × Parsing). length t.1.tokens)
            t)
          (value_round pipe alternative interpolation t)
  unfolding value_round
  value_round-Ensures s (given, s1) k =
      let le = tail-le s1.tokens in
      Ensures-if _ (is_static_key (peek s1).kind (peek s1).interpolations) _ _
        (λ _.
          Ensures->>= _ _ (expect_operator ":" (advance s1)) _
            (expect_operator-Ensures ":" (advance s1))
            (λ s2 i. Ensures->>= _ _ (alternative s2) _ (alternative_parses s2) (λ r j.
              let added = add_node-AllAllowed given r.0 k.0 j.0 in
              Ensures-if _ (at_operator "," r.1) _ _
                (λ h.
                  let less = operator-lt (codes "," ∷ []) r.1 h in
                  ((added, omega arith), omega arith))
                (λ _. (added, omega arith)))))
        (λ _. tt)

  values-Parses : Parses AllAllowed (values pipe alternative interpolation)
  unfolding values allowed
  values-Parses s =
      Ensures-if _ (at_operator "}" s) _ _ (λ _. (refl, omega arith))
        (λ _.
          loop-Ensures _ _ (λ (t : Nodes × Parsing). length t.1.tokens)
            (value_round pipe alternative interpolation) (value_round-Ensures s) _ _ (omega arith)
            (refl, omega arith))

  -- a part in brackets
  pub enclosed :
      {A : Type 0} (Q : A → Type 0) (close : String) (rule : Rule A) (s0 s : Parsing)
      → length s.tokens ≤ length s0.tokens
      → Parses Q rule
      → (f : A → Node) → ((a : A) → Q a → IsAllowed (f a))
      → Ensures
          (Left IsAllowed s0)
          (rule s >>= λ r. expect_operator close r.1 >>= λ s2. ok (f r.0, s2))
  enclosed Q close rule s0 s le parses f h = Ensures->>= _ _ (rule s) _ (parses s) (λ r k.
      Ensures->>= _ _ (expect_operator close r.1) _ (expect_operator-Ensures close r.1)
        (λ s2 j. (h r.0 k.0, omega arith)))

  pub operator_term-Parses : Parses IsAllowed (operator_term pipe alternative interpolation)
  unfolding operator_term allowed
  operator_term-Parses s =
      let le = tail-le s.tokens in
      let le2 = tail-le (tail s.tokens) in
      Ensures-if _ (at_operator "." s) _ _ (λ _. (refl, le))
        (λ _.
          Ensures-if _ (at_operator "(" s) _ _
            (λ _. enclosed IsAllowed ")" pipe s (advance s) le pipe_parses (λ n. n) (λ n q. q))
            (λ _.
              Ensures-if _ (at_operator "[" s) _ _
                (λ _.
                  Ensures-if _ (at_operator "]" (advance s)) _ _ (λ _. (refl, omega arith))
                    (λ _.
                      enclosed IsAllowed "]" pipe s (advance s) le pipe_parses
                        (λ n. array (peek s).position n) (λ n q. q)))
                (λ _.
                  Ensures-if _ (at_operator "{" s) _ _
                    (λ _.
                      enclosed AllAllowed "}" (values pipe alternative interpolation) s (advance s)
                        le values-Parses (λ ns. object (peek s).position ns) (λ ns q. q))
                    (λ _. tt))))
