-- ===== src/Authz/TokenFree/Parser/Progress.antt =====
-- Operators between parts: the tokens that are left, from round to round, and the programs that are
-- allowed.
use tai_skeleton.Base.{
  ℕ, ◌≤◌, ◌<◌, Bool, true, false, ◌&&◌, not, ◌≡◌, inl, inr, refl, Option, none, some, List, [], ◌∷◌,
  String, Text, codes, arith, elem, list_eq, nat_eq, lookup, length, Option-cases, Ensures,
  Ensures->>=, Ensures-if, Round, loop-Ensures,
}
use tai_skeleton.Authz.TokenFree.Syntax.{
  Node, root, constant, string, variable, projection, call, binary, negate, bind, try_only,
  try_catch, object, empty_array, array, Nodes, no_nodes, node, Suffix, index, Suffixes,
  no_suffixes, suffix,
}
use tai_skeleton.Authz.TokenFree.Lexer.{Token}
use tai_skeleton.Authz.TokenFree.Parser.{
  Parsing, Rule, peek_in, tail, advance, is_found, among, operator_of, word_of, next_operator,
  next_keyword, at_operator, expect_operator, chain_round, chain, multiplicative, additive,
  compared, comparison, conjunction, disjunction, sequence, comparisons, count_nodes,
  builtin_arities, named_variable_refusals,
}

-- the arities that a builtin may be called with
abbrev pub is_builtin : Text → ℕ → Bool
is_builtin name n = elim (lookup name builtin_arities) [
  | none ↦ false
  | some arities ↦ elem n arities
]

-- A program that calls nothing but builtins of the list, with one of their arities, and reads neither
-- the environment nor its own source.
unfoldable mutual
  unfolding elem lookup

  pub allowed : Node → Bool
  allowed (root p) = true
  allowed (constant p) = true
  allowed (string p s ns) = allowed_all ns
  allowed (variable p name) = not (elem name named_variable_refusals)
  allowed (projection p n ss) = allowed n && allowed_suffixes ss
  allowed (call p name ns) = is_builtin name (count_nodes ns) && allowed_all ns
  allowed (binary p op l r) = allowed l && allowed r
  allowed (negate p n) = allowed n
  allowed (bind p n name body) = allowed n && allowed body
  allowed (try_only p n) = allowed n
  allowed (try_catch p n h) = allowed n && allowed h
  allowed (object p ns) = allowed_all ns
  allowed (empty_array p) = true
  allowed (array p n) = allowed n

  pub allowed_all : Nodes → Bool
  allowed_all no_nodes = true
  allowed_all (node n ns) = allowed n && allowed_all ns

  pub allowed_suffix : Suffix → Bool
  allowed_suffix (index p n) = allowed n
  allowed_suffix _ = true

  pub allowed_suffixes : Suffixes → Bool
  allowed_suffixes no_suffixes = true
  allowed_suffixes (suffix s ss) = allowed_suffix s && allowed_suffixes ss

pub tail-le : (ts : List Token) → length (tail ts) ≤ length ts
tail-le [] = omega arith
tail-le (t ∷ ts) = omega arith

-- what an operator or a keyword takes
pub operator-lt :
    (texts : List Text) (s : Parsing)
    → is_found (next_operator texts s) ≡ true
    → length (advance s).tokens < length s.tokens
unfolding next_operator
operator-lt texts s h = taken s.tokens h
  where
    taken :
        (ts : List Token)
        → is_found (among texts (operator_of (peek_in ts).kind (peek_in ts).text)) ≡ true
        → length (tail ts) < length ts
    taken [] h = cc
    taken (t ∷ ts) h = omega arith

pub keyword-lt :
    (word : Text) (s : Parsing)
    → is_found (next_keyword word s) ≡ true
    → length (advance s).tokens < length s.tokens
unfolding next_keyword
keyword-lt word s h = taken s.tokens h
  where
    taken :
        (ts : List Token)
        → is_found (among (word ∷ []) (word_of (peek_in ts).kind (peek_in ts).text)) ≡ true
        → length (tail ts) < length ts
    taken [] h = cc
    taken (t ∷ ts) h = omega arith

-- what a rule returns satisfies `Q`, and it leaves no more tokens than it was given
abbrev pub Left : {A : Type 0} → (A → Type 0) → Parsing → A × Parsing → Type 0
Left Q s r = Q r.0 × (length r.1.tokens ≤ length s.tokens)

abbrev pub Parses : {A : Type 0} → (A → Type 0) → Rule A → Type 0
Parses Q rule = (s : Parsing) → Ensures (Left Q s) (rule s)

abbrev pub IsAllowed : Node → Type 0
IsAllowed n = allowed n ≡ true

pub expect_operator-Ensures :
    (text : String) (s : Parsing)
    → Ensures (λ (s' : Parsing). length s'.tokens < length s.tokens) (expect_operator text s)
expect_operator-Ensures text s =
    Ensures-if _ (at_operator text s) _ _ (λ h. operator-lt (codes text ∷ []) s h) (λ _. tt)

module _ (test : Parsing → Option Text) (part : Rule Node)
    (shrinks : (s : Parsing)
      → is_found (test s) ≡ true
      → length (advance s).tokens < length s.tokens)
    (parses : Parses IsAllowed part) where
  chain_round-Ensures :
      (s : Parsing) (t : Node × Parsing)
      → Left IsAllowed s t
      → Ensures
          (Round
            (Left IsAllowed s)
            (Left IsAllowed s)
            (λ (t : Node × Parsing). length t.1.tokens)
            t)
          (chain_round test part t)
  unfolding chain_round allowed
  chain_round-Ensures s (left, s1) k = elim (Option-cases (test s1)) [
    | inl e ↦ rw (e, chain_round) k
    | inr (op, e) ↦
        let found : is_found (test s1) ≡ true = rw e refl in
        let less = shrinks s1 found in
        rw (e, chain_round)
          (Ensures->>= _ _ (part (advance s1)) _ (parses (advance s1))
            (λ r j. ((ground (arith, k.0, j.0), omega arith), omega arith)))
  ]

  chain-Parses : Parses IsAllowed (chain test part)
  unfolding chain
  chain-Parses s = Ensures->>= _ _ (part s) _ (parses s) (λ r k.
      loop-Ensures _ _ (λ (t : Node × Parsing). length t.1.tokens) (chain_round test part)
        (chain_round-Ensures s) _ _ (omega arith) k)

module _ (unary : Rule Node) (parses : Parses IsAllowed unary) where
  multiplicative-Parses : Parses IsAllowed (multiplicative unary)
  unfolding multiplicative
  multiplicative-Parses = chain-Parses _ unary (operator-lt _) parses

  additive-Parses : Parses IsAllowed (additive unary)
  unfolding additive
  additive-Parses = chain-Parses _ (multiplicative unary) (operator-lt _) multiplicative-Parses

  compared-Ensures :
      (s : Parsing) (t : Node × Parsing)
      → Left IsAllowed s t
      → Ensures (Left IsAllowed s) (compared (additive unary) t)
  unfolding compared allowed
  compared-Ensures s (left, s1) k = elim (Option-cases (next_operator comparisons s1)) [
    | inl e ↦ rw (e, compared) k
    | inr (op, e) ↦
        let t = tail-le s1.tokens in
        rw (e, compared)
          (Ensures->>= _ _ (additive unary (advance s1)) _ (additive-Parses (advance s1))
            (λ r j. (ground (arith, k.0, j.0), omega arith)))
  ]

  comparison-Parses : Parses IsAllowed (comparison unary)
  unfolding comparison
  comparison-Parses s =
      Ensures->>= _ _ (additive unary s) _ (additive-Parses s) (λ r k. compared-Ensures s r k)

  conjunction-Parses : Parses IsAllowed (conjunction unary)
  unfolding conjunction
  conjunction-Parses = chain-Parses _ (comparison unary) (keyword-lt _) comparison-Parses

  pub disjunction-Parses : Parses IsAllowed (disjunction unary)
  unfolding disjunction
  disjunction-Parses = chain-Parses _ (conjunction unary) (keyword-lt _) conjunction-Parses

pub sequence-Parses :
    (alternative : Rule Node)
    → Parses IsAllowed alternative
    → Parses IsAllowed (sequence alternative)
unfolding sequence
sequence-Parses alternative parses = chain-Parses _ alternative (operator-lt _) parses
