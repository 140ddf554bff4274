-- ===== src/Authz/TokenFree/Grammar.antt =====
-- authz/token_free.py: the rules of _Parser that nest, and the gate itself.
pub mod Terms
pub mod Postfix
pub mod Progress
use tai_skeleton.Base.{
  value_error, malformed_path_error, ℕ, zero, suc, ◌+◌, Bool, true, false, ◌&&◌, ◌||◌, not, Option,
  none, some, List, [], ◌∷◌, Text, codes, ◌==◌, nat_eq, list_eq, elem, lookup, is_empty, length,
  if◌then◌else◌, Result, ok, raise, token_free_error, ◌>>=◌, ◌>>◌, raise_if, or_raise, require,
  Step, finished, next, loop,
}
use tai_skeleton.Authz.TokenFree.Syntax.{
  Node, root, constant, string, variable, projection, call, binary, negate, bind, try_only,
  try_catch, object, empty_array, array, Nodes, no_nodes, node, Suffix, field, each, index,
  optional, Suffixes, no_suffixes, suffix,
}
use tai_skeleton.Authz.TokenFree.Characters.{assert_source_shape}
use tai_skeleton.Authz.TokenFree.Lexer.{
  Kind, field_token, ident_token, variable_token, number_token, string_token, format_token,
  operator_token, end_token, Interpolation, Token, lex,
}
use tai_skeleton.Authz.TokenFree.Parser.{
  Parsing, Rule, peek, advance, is_found, next_operator, next_keyword, at_operator, at_keyword,
  expect_operator, variable_of, chain, disjunction, sequence, add_node, add_suffix, count_nodes,
  builtin_arities, keyword_literals, named_refusals, named_variable_refusals,
}
use tai_skeleton.Authz.TokenFree.Taint.{assert_safe}

abbrev pub is_static_key : Kind → List Interpolation → Bool
is_static_key ident_token holes = true
is_static_key string_token holes = is_empty holes
is_static_key _ holes = false

abbrev pub is_field : Kind → Bool
is_field field_token = true
is_field _ = false

abbrev pub projected : ℕ → Node → Suffixes → Node
projected p term no_suffixes = term
projected p term (suffix s rest) = projection p term (suffix s rest)

module _ (pipe alternative : Rule Node) (interpolation : Interpolation → Rule Node) where
  -- the arguments of a call, after its parenthesis
  unfoldable pub argument_round :
      Nodes × Parsing → Result (Step (Nodes × Parsing) (Nodes × Parsing))
  argument_round (arguments, s) = do
    (argument, s1) ← pipe s
    (if at_operator ";" s1
        then ok (next (add_node arguments argument, advance s1))
        else ok (finished (add_node arguments argument, s1)))

  unfoldable pub arguments : Rule Nodes
  unfolding argument_round
  arguments s =
      if at_operator "(" s
      then (do
        (given, s1) ← loop (suc (length s.tokens)) argument_round (no_nodes, advance s)
        s2 ← expect_operator ")" s1
        ok (given, s2))
      else ok (no_nodes, s)

  -- _identifier, of the word that is next
  unfoldable pub identifier : Rule Node
  unfolding arguments
  identifier s0 =
      let word = (peek s0).text in
      let p = (peek s0).position in
      if elem word keyword_literals
      then ok (constant p, advance s0)
      else if elem word named_refusals
      then raise token_free_error
      else (do
        (given, s1) ← arguments (advance s0)
        arities ← require (lookup word builtin_arities) token_free_error
        (if elem (count_nodes given) arities
            then ok (call p word given, s1)
            else raise token_free_error))

  unfoldable pub value_round : Nodes × Parsing → Result (Step (Nodes × Parsing) (Nodes × Parsing))
  value_round (values, s) =
      if is_static_key (peek s).kind (peek s).interpolations
      then (do
        s1 ← expect_operator ":" (advance s)
        (value, s2) ← alternative s1
        (if at_operator "," s2
            then ok (next (add_node values value, advance s2))
            else ok (finished (add_node values value, s2))))
      else raise token_free_error

  -- _object, after the brace
  unfoldable pub values : Rule Nodes
  unfolding value_round
  values s =
      if at_operator "}" s
      then ok (no_nodes, s)
      else loop (suc (length s.tokens)) value_round (no_nodes, s)

  -- _operator_term
  unfoldable pub operator_term : Rule Node
  unfolding values
  operator_term s =
      let p = (peek s).position in
      if at_operator "." s
      then ok (root p, advance s)
      else if at_operator "(" s
      then (do (inner, s1) ← pipe (advance s); s2 ← expect_operator ")" s1; ok (inner, s2))
      else if at_operator "[" s
      then (if at_operator "]" (advance s) then ok (empty_array p, advance (advance s)) else (do
        (element, s1) ← pipe (advance s)
        s2 ← expect_operator "]" s1
        ok (array p element, s2)))
      else if at_operator "{" s
      then (do
        (given, s1) ← values (advance s)
        s2 ← expect_operator "}" s1
        ok (object p given, s2))
      else raise token_free_error

  -- the holes of a string, in their order
  unfoldable pub holes : List Interpolation → Rule Nodes
  holes [] s = ok (no_nodes, s)
  holes (h ∷ hs) s = do
    (part, s1) ← interpolation h s
    (parts, s2) ← holes hs s1
    ok (node part parts, s2)

  -- _primary
  unfoldable pub primary_of : Kind → Rule Node
  unfolding holes identifier operator_term
  primary_of field_token s = ok (root (peek s).position, s)
  primary_of string_token s = do
    (parts, s1) ← holes (peek s).interpolations (advance s)
    ok (string (peek s).position (peek s).text parts, s1)
  primary_of number_token s = ok (constant (peek s).position, advance s)
  primary_of variable_token s =
      if elem (peek s).text named_variable_refusals
      then raise token_free_error
      else ok (variable (peek s).position (peek s).text, advance s)
  primary_of format_token s = raise token_free_error
  primary_of ident_token s = identifier s
  primary_of operator_token s = operator_term s
  primary_of end_token s = raise token_free_error

  -- a suffix, and whether there is one
  unfoldable pub bracket : Rule Suffix
  bracket s =
      let p = (peek s).position in
      if at_operator "]" (advance s)
      then ok (each p, advance (advance s))
      else (do (key, s1) ← pipe (advance s); s2 ← expect_operator "]" s1; ok (index p key, s2))

  -- a round of the loop of _postfix
  unfoldable pub suffix_round :
      Suffixes × Parsing → Result (Step (Suffixes × Parsing) (Suffixes × Parsing))
  unfolding bracket
  suffix_round (found, s) =
      let p = (peek s).position in
      if is_field (peek s).kind
      then ok (next (add_suffix found (field p (peek s).text), advance s))
      else if at_operator "[" s
      then (do (b, s1) ← bracket s; ok (next (add_suffix found b, s1)))
      else if at_operator "?" s
      then ok (next (add_suffix found (optional p), advance s))
      else ok (finished (found, s))

  -- `source as $name | body`, after the source
  unfoldable pub bound_body : Node → Rule Node
  bound_body source s =
      if at_keyword "as" s
      then (do
        name ←
            require (variable_of (peek (advance s)).kind (peek (advance s)).text) token_free_error
        s1 ← expect_operator "|" (advance (advance s))
        (body, s2) ← pipe s1
        ok (bind (peek s).position source name body, s2))
      else ok (source, s)

  unfoldable pub postfix : Rule Node
  unfolding primary_of suffix_round bound_body
  postfix s = do
    (term, s1) ← primary_of (peek s).kind s
    (found, s2) ← loop (suc (length s1.tokens)) suffix_round (no_suffixes, s1)
    bound_body (projected (peek s).position term found) s2

-- parse, of a rule for the whole
unfoldable pub whole : Rule Node → Rule Node
whole pipe s = do
  (n, s1) ← pipe s
  elim (peek s1).kind [ end_token ↦ ok (n, s1) | _ ↦ raise token_free_error ]

module _ (text : Text) where
  unfoldable mutual
    unfolding postfix disjunction sequence whole lex next_operator

    pub pipe : ℕ → Rule Node
    pipe zero s = raise token_free_error
    pipe (suc levels) s = do
      (left, s1) ← sequence (alternative levels) s
      (if at_operator "|" s1
          then (do
            (right, s2) ← pipe levels (advance s1)
            ok (binary (peek s1).position (codes "|") left right, s2))
          else ok (left, s1))

    pub alternative : ℕ → Rule Node
    alternative zero s = raise token_free_error
    alternative (suc levels) s = do
      (left, s1) ← disjunction (unary levels) s
      (if at_operator "//" s1
          then (do
            (right, s2) ← alternative levels (advance s1)
            ok (binary (peek s1).position (codes "//") left right, s2))
          else ok (left, s1))

    pub unary : ℕ → Rule Node
    unary zero s = raise token_free_error
    unary (suc levels) s =
        if at_operator "-" s
        then (do
          (operand, s1) ← unary levels (advance s)
          ok (negate (peek s).position operand, s1))
        else if at_keyword "try" s
        then (do
          (body, s1) ← unary levels (advance s)
          (if at_keyword "catch" s1
              then (do
                (handler, s2) ← unary levels (advance s1)
                ok (try_catch (peek s).position body handler, s2))
              else ok (try_only (peek s).position body, s1)))
        else postfix (pipe levels) (alternative levels) (interpolation levels) s

    pub interpolation : ℕ → Interpolation → Rule Node
    interpolation zero hole s = raise token_free_error
    interpolation (suc levels) hole s = do
      inner ← lex text levels s.spent hole.start hole.end
      (n, s1) ← whole (pipe levels) (record { tokens = inner.tokens; spent = inner.spent })
      ok (n, record { tokens = s.tokens; spent = s1.spent })

  -- the program of a condition
  unfoldable pub program : Result Node
  unfolding lex whole pipe
  program = do
    lexed ← lex text 32 0 0 (length text)
    (n, s) ← whole (pipe 32) (record { tokens = lexed.tokens; spent = lexed.spent })
    ok n

-- except ValueError as exc: raise TokenFreeConditionError from exc; a malformed path is a ValueError
abbrev pub compile_errors : Result (Unit {0}) → Result (Unit {0})
compile_errors (ok u) = ok u
compile_errors (raise value_error) = raise token_free_error
compile_errors (raise malformed_path_error) = raise token_free_error
compile_errors (raise e) = raise e

-- assert_token_free_evaluable; `compiles` is the kit's get_compiled_jq
unfoldable pub assert_token_free_evaluable :
    (Text → Result (Unit {0})) → Text → Text → Result (Unit {0})
unfolding assert_source_shape program assert_safe
assert_token_free_evaluable compiles owner_claim text = do
  compile_errors (compiles text)
  assert_source_shape text
  parsed ← program text
  assert_safe owner_claim parsed
